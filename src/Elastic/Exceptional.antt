-- ===== src/Elastic/Exceptional.antt =====
-- elastic.rs: a table after an exceptional placement.
use opthash_rs.Prelude.{
  ℕ, ◌+◌, ◌*◌, ◌/◌, ◌%◌, ◌^◌, ◌<◌, ◌≡◌, refl, ap, ◌∙◌, inl, inr, arith, true, not, some, length,
  get_elem?, ◌==◌, bit_and, bit_or,
}
use opthash_rs.Prelude.Bits.{bit-or, bit_or_split, bit_or-zero}
use opthash_rs.Control.{is_occupied, is_occupied_free, control_fingerprint}
use opthash_rs.Elastic.Filter.{prepared_key}
use opthash_rs.Elastic.Schedule.{prior_high_water, exceptional_placement_flag}
use opthash_rs.Elastic.Extend.{Scheduled, prior_value, flag_value}
use opthash_rs.Elastic.Key.{Hashing}
use opthash_rs.Elastic.Level.{SlotEntry, Slot, Level, slot_entries}
use opthash_rs.Elastic.Table.{ElasticTable, is_exceptional}
use opthash_rs.Elastic.Chosen.{FreeSlot}
use opthash_rs.Elastic.Place.{first_free_slot, place_exceptional_entry}
use opthash_rs.Elastic.Resize.{live_entries}
use opthash_rs.Elastic.Entries.{slot_entries-stored}
use opthash_rs.Elastic.Vacant.{AllTaken, level_from, full_table}
use opthash_rs.Elastic.Assoc.{Absent}
use opthash_rs.Elastic.Valid.{schedule_of, capacities, IsValid}
use opthash_rs.Elastic.Carries.{Carries, Same, IsValid-Carries}
use opthash_rs.Elastic.Placed.{Placed, write-Placed, Placed-after}

-- Setting the flag.
flag_set :
    (w : ℕ)
    → bit_and (bit_or w exceptional_placement_flag) exceptional_placement_flag
      ≡ exceptional_placement_flag
flag_set w = omega (
  arith,
  flag_value (bit_or w exceptional_placement_flag),
  bit-or 31 w exceptional_placement_flag,
)

flag_prior : (w : ℕ) → prior_high_water (bit_or w exceptional_placement_flag) ≡ prior_high_water w
flag_prior w =
    let split : w ≡ w / 2 ^ 31 * 2 ^ 31 + w % 2 ^ 31 = omega arith in
    let whole =
      ap (λ (x : ℕ). bit_or x exceptional_placement_flag) split
      ∙ bit_or_split 31 (w / 2 ^ 31) (w % 2 ^ 31) 1 0 (omega arith) (omega arith) in
    let low = bit_or-zero (w % 2 ^ 31) in
    omega (arith, prior_value (bit_or w exceptional_placement_flag), prior_value w)

module _ {ℓ} {K V : Type ℓ} ⦃keys : Hashing K⦄ (t : ElasticTable K V) where
  -- A table with fewer entries than slots has a free slot.
  open_slot_there :
      IsValid t
      → t.len < t.total_slots
      → (level slot : ℕ) × (first_free_slot t ≡ some (level, slot)) × FreeSlot t.levels level slot
  unfolding first_free_slot
  open_slot_there v room = elim (level_from t.levels 0) [
    | inl (l, i, run, f) ↦ let z : 0 + l ≡ l = omega arith in (l, i, rw z at run, f)
    | inr all ↦ absurd (omega (arith, v.len, v.total, full_table t.levels (full all)))
  ]
    where
      full :
          AllTaken t.levels
          → (l i : ℕ) (at : Level K V) (found : Slot K V) → get_elem? t.levels l ≡ some at
          → get_elem? at.slots i ≡ some found
          → length (slot_entries found) ≡ 1
      full all l i at found there here = elim (v.cells l i at found there here) [
        | inl free ↦ absurd (cc (all l i at found there here, free))
        | inr live ↦
            let taken = all l i at found there here in
            let occupied : is_occupied found.control ≡ true =
              rw (is_occupied_free found.control, taken) refl in
            ap length (slot_entries-stored found occupied live.stored)
      ]

  -- An exceptional placement of a new key.
  pub place_exceptional_entry-Placed :
      (entry : SlotEntry K V)
      → IsValid t
      → t.len < t.total_slots
      → Absent entry.key (live_entries t.levels)
      → (t' : ElasticTable K V) × (place_exceptional_entry entry
            (prepared_key (keys.hash_one entry.key))
            (control_fingerprint (keys.hash_one entry.key))
            t
          ≡ some t')
        × Placed entry t t'
  unfolding place_exceptional_entry is_exceptional
  place_exceptional_entry-Placed entry v room absent =
      let (level, slot, run, open_slot) = open_slot_there v room in
      let w = t.probe_high_water in
      let flagged : ElasticTable K V = record t {
        probe_high_water = bit_or w exceptional_placement_flag;
      } in
      let s : Same t flagged = record { total = refl; limit = refl; reserve = refl } in
      let on : is_exceptional flagged ≡ true = ap (λ (x : ℕ). not (x == 0)) (flag_set w) in
      let c : Carries t flagged = record {
        flag = λ e. on;
        routes = λ r m. m;
        kept = λ key l k. k;
        shape = refl;
      } in
      let scheduled : Scheduled (capacities t.levels) (schedule_of flagged) =
        λ (l q upper : ℕ) there pos routed low.
          v.scheduled l q upper there pos routed (omega (arith, flag_prior w)) in
      let valid = IsValid-Carries t flagged v c s refl refl refl scheduled in
      let p = write-Placed flagged entry level slot valid open_slot (inr (inl on)) absent in
      (_, rw run refl, Placed-after t entry flagged _ s refl refl p)
