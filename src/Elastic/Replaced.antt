-- ===== src/Elastic/Replaced.antt =====
-- elastic.rs: a table after the value of an entry was replaced.
use opthash_rs.Prelude.{
  ℕ, ◌+◌, ◌≡◌, refl, ap, sym, ◌∙◌, inl, inr, arith, Bool-cases, true, if◌then◌else◌, some, List,
  ◌∷◌, ◌++◌, length, length-append, get_elem?, sum, ◌>>=◌, bind_some,
}
use opthash_rs.Control.{is_occupied, control_fingerprint, control_fingerprint_lem}
use opthash_rs.Elastic.Filter.{modify}
use opthash_rs.Elastic.Modify.{length-modify, All-modify}
use opthash_rs.Elastic.Key.{Hashing}
use opthash_rs.Elastic.Level.{SlotEntry, Slot, Level, slot_entries, control_at, get_ref}
use opthash_rs.Elastic.Table.{ElasticTable, Hit, is_exceptional}
use opthash_rs.Elastic.Resize.{live_entries}
use opthash_rs.Elastic.Delete.{set_value, replace_value}
use opthash_rs.Elastic.Match.{Matches}
use opthash_rs.Elastic.Entries.{split_entries, slot_entries-stored}
use opthash_rs.Elastic.Assoc.{assoc, Absent, Distinct-remove, Distinct-insert, assoc-insert}
use opthash_rs.Elastic.Valid.{Counted, Fits, IsValid}
use opthash_rs.Elastic.Carries.{Carries, Fits-Carries}
use opthash_rs.Elastic.Change.{change-shape, change-cells}
use opthash_rs.Elastic.Fill.{scan_length-modify, tombstone_count-modify}

-- The slot of a match.
pub record Held {ℓ} {K V : Type ℓ} ⦃keys : Hashing K⦄ (t : ElasticTable K V) (level slot : ℕ)
    (entry : SlotEntry K V) : Type ℓ where
  pub at : Level K V
  pub found : Slot K V
  pub there : get_elem? t.levels level ≡ some at
  pub here : get_elem? at.slots slot ≡ some found
  pub stored : found.entry ≡ some entry
  pub occupied : is_occupied found.control ≡ true

pub Matches-Held {ℓ} :
    {K V : Type ℓ} ⦃keys : Hashing K⦄ (t : ElasticTable K V) (key : K) (level slot : ℕ)
    (entry : SlotEntry K V)
    → Matches t.levels (control_fingerprint (keys.hash_one key)) key level slot entry
    → Held t level slot entry
unfolding control_at get_ref
Matches-Held ⦃keys⦄ t key level slot entry (s, equal) =
    let (found, here, held) = bind_some (get_elem? s.at.slots slot) _ s.held in
    let stored : found.entry ≡ some entry = rw here at s.stored in
    let (_, _, _, occupied, _, _, _) =
      control_fingerprint_lem (keys.hash_one key) (keys.hash_one-lt key) in
    let control : found.control ≡ control_fingerprint (keys.hash_one key) = cc in
    record {
      at = s.at;
      found = found;
      there = s.there;
      here = here;
      stored = stored;
      occupied = rw control occupied;
    }

sum_cancel : (a b c d : ℕ) → a + b ≡ c + d → b ≡ 1 → d ≡ 1 → c ≡ a
sum_cancel a b c d e p q = omega arith

module _ {ℓ} {K V : Type ℓ} ⦃keys : Hashing K⦄ (t : ElasticTable K V) (hit : Hit K V) (value : V)
    (v : IsValid t) (h : Held t hit.level hit.slot hit.entry) where
  abbrev changed_entry : SlotEntry K V
  changed_entry = record { key = hit.entry.key; value = value }

  abbrev new_slot : Slot K V → Slot K V
  new_slot found = record found {
    entry = found.entry >>= λ entry. some (record { key = entry.key; value = value });
  }

  abbrev after : ElasticTable K V
  after = (replace_value hit value t).1

  g-slots : (a : Level K V) → (set_value hit.slot value a).slots ≡ modify a.slots hit.slot new_slot
  unfolding set_value
  g-slots a = refl

  replace-Carries : Carries t after
  unfolding replace_value is_exceptional
  replace-Carries = record {
    flag = λ e. e;
    routes = λ r m. m;
    kept = λ key l k. k;
    shape = change-shape hit.slot (set_value hit.slot value) new_slot g-slots t.levels hit.level;
  }

  -- The changed slot has its entry's key.
  replace-Fits :
      (a : Level K V) (x : Slot K V)
      → get_elem? t.levels hit.level ≡ some a
      → get_elem? a.slots hit.slot ≡ some x
      → Fits after hit.level hit.slot (new_slot x)
  replace-Fits a x there here =
      elim (Fits-Carries t after hit.level hit.slot x replace-Carries
        (v.cells hit.level hit.slot a x there here)) [
          | inl free ↦ inl free
          | inr live ↦ inr (record {
            entry = record { key = live.entry.key; value = value };
            stored = rw live.stored refl;
            marked = live.marked;
            kept = live.kept;
            reachable = live.reachable;
          })
        ]

  -- The entries around the one that was changed.
  record Around : Type ℓ where
    before : List (SlotEntry K V)
    behind : List (SlotEntry K V)
    was : live_entries t.levels ≡ before ++ (hit.entry ∷ behind)
    is : live_entries after.levels ≡ before ++ (changed_entry ∷ behind)

  around : Around
  unfolding replace_value
  around =
      let s = split_entries t.levels hit.level hit.slot h.at h.found h.there h.here in
      let was_one = slot_entries-stored h.found h.occupied h.stored in
      let is_one = slot_entries-stored (new_slot h.found) h.occupied (rw h.stored refl) in
      record {
        before = s.before;
        behind = s.behind;
        was = s.whole ∙ ap (λ (x : List (SlotEntry K V)). s.before ++ (x ++ s.behind)) was_one;
        is =
            s.changed (set_value hit.slot value) new_slot (g-slots h.at)
            ∙ ap (λ (x : List (SlotEntry K V)). s.before ++ (x ++ s.behind)) is_one;
      }

  replace-Counted :
      (a : Level K V)
      → get_elem? t.levels hit.level ≡ some a
      → Counted a
      → Counted (set_value hit.slot value a)
  unfolding set_value
  replace-Counted a there (lens, tombs) =
      let same : h.at ≡ a = cc (h.there, there) in
      let here = ap (λ (x : Level K V). get_elem? x.slots hit.slot) (sym same) ∙ h.here in
      let was_one : length (slot_entries h.found) ≡ 1 =
        ap length (slot_entries-stored h.found h.occupied h.stored) in
      let stored' : (new_slot h.found).entry ≡ some changed_entry = rw h.stored refl in
      let is_one : length (slot_entries (new_slot h.found)) ≡ 1 =
        ap length (slot_entries-stored (new_slot h.found) h.occupied stored') in
      let entries = scan_length-modify a.slots hit.slot h.found new_slot here in
      let stones = tombstone_count-modify a.slots hit.slot h.found new_slot here in
      let inner = g-slots a in
      (lens ∙ sum_cancel _ _ _ _ entries was_one is_one, tombs ∙ omega (arith, stones))

  -- The replacement of a value in a well-formed table.
  pub record Replaced : Type ℓ where
    pub valid : IsValid after
    pub count : after.len ≡ t.len
    pub found :
        (key : K)
        → assoc key (live_entries after.levels) ≡ (
            if keys.equivalent key hit.entry.key
            then some changed_entry
            else assoc key (live_entries t.levels))

  pub replace_value-Replaced : Replaced
  unfolding replace_value
  replace_value-Replaced =
      let a = around in
      let (distinct, absent) =
        Distinct-remove hit.entry a.before a.behind (rw a.was at v.distinct) in
      let g = set_value hit.slot value in
      let shape = replace-Carries.shape in
      let old = ap length a.was in
      let now = ap length a.is in
      record {
        valid = record {
          few = omega (arith, length-modify g t.levels hit.level, v.few);
          total = v.total ∙ ap sum (sym shape);
          limit = v.limit;
          small = v.small;
          exponent = v.exponent;
          words = v.words;
          four = v.four;
          scheduled = rw shape v.scheduled;
          cells =
              change-cells hit.slot g new_slot g-slots t after hit.level v replace-Carries refl
                replace-Fits;
          counted = All-modify Counted g t.levels hit.level v.counted replace-Counted;
          len = omega (
            arith,
            v.len,
            length-append a.before (hit.entry ∷ a.behind),
            length-append a.before (changed_entry ∷ a.behind),
          );
          distinct = rw a.is (Distinct-insert changed_entry a.before a.behind distinct absent);
        };
        count = refl;
        found = λ key.
            ap (assoc key) a.is
            ∙ assoc-insert key changed_entry a.before a.behind absent
            ∙ replaced_else key a absent;
      }
    where
      -- Another key's entry is the same.
      replaced_else :
          (key : K) (a : Around)
          → Absent hit.entry.key (a.before ++ a.behind)
          → (if keys.equivalent key hit.entry.key
              then some changed_entry
              else assoc key (a.before ++ a.behind))
            ≡ (if keys.equivalent key hit.entry.key
                then some changed_entry
                else assoc key (live_entries t.levels))
      replaced_else key a absent = elim (Bool-cases (keys.equivalent key hit.entry.key)) [
        | inl same ↦ rw same refl
        | inr other ↦
            let whole =
              ap (assoc key) a.was ∙ assoc-insert key hit.entry a.before a.behind absent in
            rw other (sym (rw other at whole))
      ]
