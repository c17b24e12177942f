-- ===== src/Elastic/Removed.antt =====
-- elastic.rs: a table after a removal.
use opthash_rs.Prelude.{
  ℕ, zero, suc, ◌+◌, ◌-◌, ◌≡◌, refl, ap, sym, ◌∙◌, inl, inr, arith, Bool-cases, true, if◌then◌else◌,
  none, some, List, [], ◌∷◌, ◌++◌, length, length-append, get_elem?, sum, ◌==◌, ==_iff,
}
use mathlib.Core.Path.{subst}
use opthash_rs.Control.{ctrl_tombstone, is_free, is_occupied}
use opthash_rs.Elastic.Filter.{modify}
use opthash_rs.Elastic.Modify.{length-modify, All-modify}
use opthash_rs.Elastic.Key.{Hashing}
use opthash_rs.Elastic.Level.{
  SlotEntry, Slot, Level, slot_entries, scan_entries, set_control, mark_tombstone, take_entry,
}
use opthash_rs.Elastic.Table.{ElasticTable, is_exceptional}
use opthash_rs.Elastic.Resize.{live_entries}
use opthash_rs.Elastic.Delete.{extract_slot, extract_finish}
use opthash_rs.Elastic.Entries.{split_entries, slot_entries-stored, slot_entries-free}
use opthash_rs.Elastic.Assoc.{
  assoc, Absent, assoc-Absent, Absent-same, Distinct-remove, assoc-insert,
}
use opthash_rs.Elastic.Valid.{capacities, tombstone_count, Counted, IsValid}
use opthash_rs.Elastic.Carries.{Carries}
use opthash_rs.Elastic.Change.{change-shape, change-cells}
use opthash_rs.Elastic.Fill.{is_tombstone, scan_length-modify, tombstone_count-modify}
use opthash_rs.Elastic.Replaced.{Held}

modify_twice {ℓ} :
    {A : Type ℓ} (f g : A → A) (xs : List A) (i : ℕ)
    → modify (modify xs i f) i g ≡ modify xs i (λ x. g (f x))
modify_twice f g [] i = refl
modify_twice f g (x ∷ xs) zero = refl
modify_twice f g (x ∷ xs) (suc i) = ap (λ ys. x ∷ ys) (modify_twice f g xs i)

-- An occupied byte is no tombstone.
occupied_byte : (control : ℕ) → is_occupied control ≡ true → is_tombstone control ≡ 0
unfolding is_occupied
occupied_byte control occupied = elim (Bool-cases (control == ctrl_tombstone)) [
  | inr other ↦ rw other refl
  | inl stone ↦ let e = (==_iff control ctrl_tombstone).0 stone in absurd (cc (rw e at occupied))
]

lens_drop : (len a b c d : ℕ) → len ≡ c → a + b ≡ c + d → b ≡ 1 → d ≡ 0 → len - 1 ≡ a
lens_drop len a b c d e f p q = omega arith

module _ {ℓ} {K V : Type ℓ} ⦃keys : Hashing K⦄ (t : ElasticTable K V) (level slot : ℕ)
    (entry : SlotEntry K V) (v : IsValid t) (h : Held t level slot entry) where
  abbrev cleared_slot : Slot K V → Slot K V
  cleared_slot found = record { control = ctrl_tombstone; entry = none }

  abbrev clear_at : Level K V → Level K V
  clear_at a = extract_slot slot (take_entry slot a)

  abbrev pub taken : ElasticTable K V
  taken = record t { levels = modify t.levels level (take_entry slot) }

  abbrev pub extracted : ElasticTable K V
  extracted = extract_finish level slot taken

  cleared-slots : (a : Level K V) → (clear_at a).slots ≡ modify a.slots slot cleared_slot
  unfolding extract_slot take_entry mark_tombstone set_control
  cleared-slots a = modify_twice _ _ a.slots slot

  extract-levels : extracted.levels ≡ modify t.levels level clear_at
  unfolding extract_finish
  extract-levels = modify_twice (take_entry slot) (extract_slot slot) t.levels level

  extract-Carries : Carries t extracted
  unfolding extract_finish is_exceptional
  extract-Carries = record {
    flag = λ e. e;
    routes = λ r m. m;
    kept = λ key l k. k;
    shape =
        ap capacities extract-levels
        ∙ change-shape slot clear_at cleared_slot cleared-slots t.levels level;
  }

  -- The entries around the one that was moved out.
  pub record Around : Type ℓ where
    pub before : List (SlotEntry K V)
    pub behind : List (SlotEntry K V)
    pub was : live_entries t.levels ≡ before ++ (entry ∷ behind)
    pub is : live_entries extracted.levels ≡ before ++ behind

  around : Around
  unfolding is_occupied
  around =
      let s = split_entries t.levels level slot h.at h.found h.there h.here in
      let was_one = slot_entries-stored h.found h.occupied h.stored in
      let is_none = slot_entries-free (cleared_slot h.found) refl in
      record {
        before = s.before;
        behind = s.behind;
        was = s.whole ∙ ap (λ (x : List (SlotEntry K V)). s.before ++ (x ++ s.behind)) was_one;
        is =
            ap live_entries extract-levels
            ∙ s.changed clear_at cleared_slot (cleared-slots h.at)
            ∙ ap (λ (x : List (SlotEntry K V)). s.before ++ (x ++ s.behind)) is_none;
      }

  extract-Counted :
      (a : Level K V) → get_elem? t.levels level ≡ some a → Counted a → Counted (clear_at a)
  unfolding is_occupied extract_slot take_entry mark_tombstone set_control
  extract-Counted a there (lens, tombs) =
      let same : h.at ≡ a = cc (h.there, there) in
      let here = ap (λ (x : Level K V). get_elem? x.slots slot) (sym same) ∙ h.here in
      let was_one : length (slot_entries h.found) ≡ 1 =
        ap length (slot_entries-stored h.found h.occupied h.stored) in
      let is_none : length (slot_entries (cleared_slot h.found)) ≡ 0 =
        ap length (slot_entries-free (cleared_slot h.found) refl) in
      let entries = scan_length-modify a.slots slot h.found cleared_slot here in
      let stones = tombstone_count-modify a.slots slot h.found cleared_slot here in
      let byte = occupied_byte h.found.control h.occupied in
      let now = modify a.slots slot cleared_slot in
      let len : a.len - 1 ≡ length (scan_entries now) =
        lens_drop a.len _ _ _ _ lens entries was_one is_none in
      let stone : a.tombstones + 1 ≡ tombstone_count now = omega arith in
      subst
        (λ (xs : List (Slot K V)).
          (a.len - 1 ≡ length (scan_entries xs)) × (a.tombstones + 1 ≡ tombstone_count xs))
        (sym (cleared-slots a)) (len, stone)

  extract-IsValid : IsValid extracted
  unfolding extract_finish is_free
  extract-IsValid =
      let a = around in
      let shape = extract-Carries.shape in
      let (distinct, absent) = Distinct-remove entry a.before a.behind (rw a.was at v.distinct) in
      let old = ap length a.was in
      let now = ap length a.is in
      record {
        few = omega (arith, ap length extract-levels, length-modify clear_at t.levels level, v.few);
        total = v.total ∙ ap sum (sym shape);
        limit = v.limit;
        small = v.small;
        exponent = v.exponent;
        words = v.words;
        four = v.four;
        scheduled = rw shape v.scheduled;
        cells =
            change-cells slot clear_at cleared_slot cleared-slots t extracted level v
              extract-Carries extract-levels (λ at x there here. inl refl);
        counted =
            rw extract-levels
              (All-modify Counted clear_at t.levels level v.counted extract-Counted);
        len = omega (
          arith,
          v.len,
          length-append a.before (entry ∷ a.behind),
          length-append a.before a.behind,
        );
        distinct = rw a.is distinct;
      }

  -- What a removal leaves: one entry less, and for the other keys what there was.
  pub record Without (t' : ElasticTable K V) : Type ℓ where
    pub valid : IsValid t'
    pub count : suc t'.len ≡ t.len
    pub found :
        (key : K)
        → assoc key (live_entries t'.levels)
          ≡ (if keys.equivalent key entry.key then none else assoc key (live_entries t.levels))

  pub extract-Without : Without extracted
  unfolding extract_finish
  extract-Without =
      let a = around in
      let (distinct, absent) = Distinct-remove entry a.before a.behind (rw a.was at v.distinct) in
      record {
        valid = extract-IsValid;
        count = omega (arith, v.len, ap length a.was, length-append a.before (entry ∷ a.behind));
        found = λ key. ap (assoc key) a.is ∙ without key a absent;
      }
    where
      without :
          (key : K) (a : Around)
          → Absent entry.key (a.before ++ a.behind)
          → assoc key (a.before ++ a.behind)
            ≡ (if keys.equivalent key entry.key then none else assoc key (live_entries t.levels))
      without key a absent = elim (Bool-cases (keys.equivalent key entry.key)) [
        | inl same ↦
            rw same
              (assoc-Absent key (a.before ++ a.behind) (Absent-same key entry.key _ same absent))
        | inr other ↦
            let whole = ap (assoc key) a.was ∙ assoc-insert key entry a.before a.behind absent in
            rw other (sym (rw other at whole))
      ]
