-- ===== src/Elastic/Room.antt =====
-- elastic.rs: a table has at most as many entries as slots.
use opthash_rs.Prelude.{
  ◌≤◌, inl, inr, arith, Bool-cases, Option-cases, List, [], ◌∷◌, length, length-append, sum,
}
use opthash_rs.Control.{is_occupied}
use opthash_rs.Elastic.Level.{Slot, Level, slot_entries, scan_entries}
use opthash_rs.Elastic.Resize.{live_entries}
use opthash_rs.Elastic.Valid.{capacities}

module _ {ℓ} {K V : Type ℓ} where
  slot_entries-le : (slot : Slot K V) → length (slot_entries slot) ≤ 1
  unfolding slot_entries
  slot_entries-le slot = elim (Bool-cases (is_occupied slot.control)) [
    | inr free ↦ rw (free, slot_entries) (omega arith)
    | inl occupied ↦ elim (Option-cases slot.entry) [
      | inl nothing ↦ rw (occupied, nothing, slot_entries) (omega arith)
      | inr (entry, there) ↦ rw (occupied, there, slot_entries) (omega arith)
    ]
  ]

  scan_entries-le : (slots : List (Slot K V)) → length (scan_entries slots) ≤ length slots
  unfolding scan_entries
  scan_entries-le [] = omega arith
  scan_entries-le (slot ∷ slots) = omega (
    arith,
    length-append (slot_entries slot) (scan_entries slots),
    slot_entries-le slot,
    scan_entries-le slots,
  )

  pub live_entries-le :
      (levels : List (Level K V)) → length (live_entries levels) ≤ sum (capacities levels)
  unfolding live_entries
  live_entries-le [] = omega arith
  live_entries-le (level ∷ levels) = omega (
    arith,
    length-append (scan_entries level.slots) (live_entries levels),
    scan_entries-le level.slots,
    live_entries-le levels,
  )
