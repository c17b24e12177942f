-- ===== src/Elastic/Write.antt =====
-- elastic.rs: a table after the write of a new entry.
use opthash_rs.Prelude.{
  ℕ, zero, suc, ◌≤◌, ◌<◌, ◌≡◌, refl, ap, sym, ◌∙◌, inl, inr, arith, true, false, some, List, [],
  ◌∷◌, ◌++◌, length, length-append, get_elem?, sum, bind_some,
}
use mathlib.Core.Path.{subst}
use opthash_rs.Control.{
  is_free, is_occupied, is_occupied_free, control_fingerprint, control_fingerprint_lem,
}
use opthash_rs.Elastic.Filter.{prepared_key}
use opthash_rs.Elastic.Recorded.{
  record-Kept, record-Kept_self, FourBins-record, length-record, prepared_key-lt,
}
use opthash_rs.Elastic.Modify.{
  length-modify, modify_cases, All-modify, map-modify, map-get, get_below,
}
use opthash_rs.Elastic.Key.{Hashing}
use opthash_rs.Elastic.Level.{SlotEntry, Slot, Level, capacity, control_at}
use opthash_rs.Elastic.Table.{ElasticTable, is_exceptional}
use opthash_rs.Elastic.Place.{fill_slot, write_new_entry}
use opthash_rs.Elastic.Resize.{live_entries}
use opthash_rs.Elastic.Routed.{Reachable}
use opthash_rs.Elastic.Chosen.{FreeSlot}
use opthash_rs.Elastic.Entries.{split_entries, slot_entries-stored, slot_entries-free}
use opthash_rs.Elastic.Assoc.{Absent, Distinct-insert}
use opthash_rs.Elastic.Valid.{capacities, Counted, Live, Fits, IsValid}
use opthash_rs.Elastic.Carries.{Carries, Reachable-Carries, Fits-Carries}
use opthash_rs.Elastic.Fill.{fill_slot-Counted, is_tombstone, live_byte}

-- A list with an entry put somewhere in it.
pub record Added {ℓ} {K V : Type ℓ} (entry : SlotEntry K V) (old new : List (SlotEntry K V))
    : Type ℓ where
  pub before : List (SlotEntry K V)
  pub behind : List (SlotEntry K V)
  pub was : old ≡ before ++ behind
  pub is : new ≡ before ++ (entry ∷ behind)

le-sum : (xs : List ℕ) (i : ℕ) {x : ℕ} → get_elem? xs i ≡ some x → x ≤ sum xs
le-sum [] i e = absurd (cc e)
le-sum (y ∷ xs) zero {x} e = let same : y ≡ x = cc in omega arith
le-sum (y ∷ xs) (suc i) e = omega (arith, le-sum xs i e)

module _ {ℓ} {K V : Type ℓ} where
  pub capacity-fill :
      (slot : ℕ) (entry : SlotEntry K V) (key_fingerprint : ℕ) (at : Level K V)
      → capacity (fill_slot slot entry key_fingerprint at) ≡ capacity at
  unfolding fill_slot
  capacity-fill slot entry key_fingerprint at = length-modify _ at.slots slot

  -- The slot of a free slot.
  pub free_slot :
      {levels : List (Level K V)} {level slot : ℕ} (f : FreeSlot levels level slot)
      → (found : Slot K V) × (get_elem? f.at.slots slot ≡ some found)
        × (is_free found.control ≡ true)
  unfolding control_at
  free_slot {slot = slot} f =
      let (found, there, same) = bind_some (get_elem? f.at.slots slot) _ f.held in
      let control : found.control ≡ f.control = cc in (found, there, rw control f.free)

module _ {ℓ} {K V : Type ℓ} ⦃keys : Hashing K⦄ (t : ElasticTable K V) (entry : SlotEntry K V)
    (level slot : ℕ) (v : IsValid t) (open_slot : FreeSlot t.levels level slot) where
  abbrev hash : ℕ
  hash = keys.hash_one entry.key

  abbrev after : ElasticTable K V
  after = write_new_entry entry (prepared_key hash) (control_fingerprint hash) level slot t

  write-shape : capacities after.levels ≡ capacities t.levels
  unfolding write_new_entry
  write-shape =
      map-modify capacity (fill_slot slot entry (control_fingerprint hash)) t.levels level
        (capacity-fill slot entry (control_fingerprint hash))

  write-Carries : Carries t after
  unfolding write_new_entry is_exceptional
  write-Carries = record {
    flag = λ e. e;
    routes = λ r m. m;
    kept = λ key l k. record-Kept key (prepared_key hash) l level t.membership k;
    shape = write-shape;
  }

  write-Added : Added entry (live_entries t.levels) (live_entries after.levels)
  unfolding write_new_entry fill_slot
  write-Added =
      let (found, there, free) = free_slot open_slot in
      let s = split_entries t.levels level slot open_slot.at found open_slot.there there in
      let f : Slot K V → Slot K V =
        λ x. record { control = control_fingerprint hash; entry = some entry } in
      let vacant : is_occupied found.control ≡ false =
        rw (is_occupied_free found.control, free) refl in
      let (_, _, _, occupied, _, _, _) =
        control_fingerprint_lem hash (keys.hash_one-lt entry.key) in
      record {
        before = s.before;
        behind = s.behind;
        was = rw (slot_entries-free found vacant) at s.whole;
        is =
            s.changed (fill_slot slot entry (control_fingerprint hash)) f refl
            ∙ ap (λ (x : List (SlotEntry K V)). s.before ++ (x ++ s.behind))
                (slot_entries-stored (f found) occupied refl);
      }

  abbrev new_slot : Slot K V → Slot K V
  new_slot found = record { control = control_fingerprint hash; entry = some entry }

  fingerprint_occupied : is_occupied (control_fingerprint hash) ≡ true
  fingerprint_occupied =
      let (_, _, _, occupied, _, _, _) =
        control_fingerprint_lem hash (keys.hash_one-lt entry.key) in
      occupied

  fingerprint_byte : is_tombstone (control_fingerprint hash) ≡ 0
  fingerprint_byte =
      let (_, _, low, _, _, _, _) = control_fingerprint_lem hash (keys.hash_one-lt entry.key) in
      live_byte (control_fingerprint hash) low

  some_words : 0 < length t.membership
  some_words =
      let (found, there, free) = free_slot open_slot in
      let here = get_below open_slot.at.slots slot there in
      let all =
        le-sum (capacities t.levels) level (map-get capacity t.levels level open_slot.there) in
      let total = v.total in v.words (omega arith)

  write-Live :
      Reachable t (prepared_key hash) level slot
      → (found : Slot K V) → Live after level slot (new_slot found)
  unfolding write_new_entry
  write-Live reach found = record {
    entry = entry;
    stored = refl;
    marked = refl;
    kept =
        record-Kept_self (prepared_key hash) level t.membership (prepared_key-lt hash) some_words
          v.four;
    reachable = Reachable-Carries t after (prepared_key hash) level slot write-Carries reach;
  }

  write-cells :
      Reachable t (prepared_key hash) level slot
      → (l s : ℕ) (at : Level K V) (found : Slot K V) → get_elem? after.levels l ≡ some at
      → get_elem? at.slots s ≡ some found
      → Fits after l s found
  unfolding write_new_entry fill_slot
  write-cells reach l s at found there here =
      elim (modify_cases (fill_slot slot entry (control_fingerprint hash)) t.levels level l there) [
        | inr same ↦ Fits-Carries t after l s found write-Carries (v.cells l s at found same here)
        | inl (e, (a, was, changed)) ↦
            elim (modify_cases new_slot a.slots slot s
              (ap (λ (x : Level K V). get_elem? x.slots s) changed ∙ here)) [
                | inr same ↦
                    Fits-Carries t after l s found write-Carries (v.cells l s a found was same)
                | inl (e', (x, was', changed')) ↦
                    subst (λ (i : ℕ). Fits after i s found) e
                      (subst (λ (i : ℕ). Fits after level i found) e'
                        (subst (Fits after level slot) changed' (inr (write-Live reach x))))
              ]
      ]

  -- The write of an entry with a new key to a free slot to which the lookup leads the key.
  pub write-IsValid :
      Absent entry.key (live_entries t.levels)
      → Reachable t (prepared_key hash) level slot
      → IsValid after × Added entry (live_entries t.levels) (live_entries after.levels)
  unfolding write_new_entry
  write-IsValid absent reach =
      let added = write-Added in
      let g = fill_slot slot entry (control_fingerprint hash) in
      let (found, there, free) = free_slot open_slot in
      let before = ap length added.was in
      let behind = ap length added.is in
      let lens = v.len in
      (
        record {
          few = omega (arith, length-modify g t.levels level, v.few);
          total = v.total ∙ ap sum (sym write-shape);
          limit = v.limit;
          small = v.small;
          exponent = v.exponent;
          words =
              λ p. omega (arith, length-record (prepared_key hash) level t.membership, some_words);
          four = FourBins-record (prepared_key hash) level t.membership v.four;
          scheduled = rw write-shape v.scheduled;
          cells = write-cells reach;
          counted = All-modify Counted g t.levels level v.counted (λ a was counts.
              let same : open_slot.at ≡ a = cc (open_slot.there, was) in
              fill_slot-Counted slot entry (control_fingerprint hash) a found
                (ap (λ (x : Level K V). get_elem? x.slots slot) (sym same) ∙ there) free
                fingerprint_occupied fingerprint_byte counts);
          len = omega (
            arith,
            length-append added.before added.behind,
            length-append added.before (entry ∷ added.behind),
          );
          distinct = rw added.is (
              Distinct-insert entry added.before added.behind (rw added.was at v.distinct)
                (rw added.was at absent));
        },
        added,
      )
