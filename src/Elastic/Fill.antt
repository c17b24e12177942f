-- ===== src/Elastic/Fill.antt =====
-- elastic.rs: the counters of a level when a free slot is filled.
use opthash_rs.Prelude.{
  ℕ, zero, suc, ◌+◌, ◌-◌, ◌<◌, ◌≡◌, refl, ap, arith, true, false, none, some, List, [], ◌∷◌, ◌++◌,
  length, length-append, get_elem?, ◌==◌, if◌then◌else◌,
}
use opthash_rs.Control.{ctrl_tombstone, is_free, is_occupied, is_occupied_free}
use opthash_rs.Elastic.Filter.{modify}
use opthash_rs.Elastic.Level.{SlotEntry, Slot, Level, slot_entries, scan_entries, control_at}
use opthash_rs.Elastic.Place.{fill_slot}
use opthash_rs.Elastic.Entries.{split_slots, slot_entries-stored, slot_entries-free}
use opthash_rs.Elastic.Valid.{tombstone_count, Counted}

abbrev pub is_tombstone : ℕ → ℕ
is_tombstone control = if control == ctrl_tombstone then 1 else 0

released :
    (control old new : ℕ)
    → new + is_tombstone control ≡ old
    → (if control == ctrl_tombstone then old - 1 else old) ≡ new
released control old new e = ground arith

pub live_byte : (control : ℕ) → control < ctrl_tombstone → is_tombstone control ≡ 0
live_byte control h = ground arith

module _ {ℓ} {K V : Type ℓ} where
  pub length-change :
      (before middle behind : List (SlotEntry K V))
      → length (before ++ (middle ++ behind)) ≡ length before + length middle + length behind
  length-change before middle behind =
      omega (arith, length-append before (middle ++ behind), length-append middle behind)

  -- A change of one slot changes the counts by what the slot counts.
  pub scan_length-modify :
      (slots : List (Slot K V)) (i : ℕ) (found : Slot K V) (f : Slot K V → Slot K V)
      → get_elem? slots i ≡ some found
      → length (scan_entries (modify slots i f)) + length (slot_entries found)
        ≡ length (scan_entries slots) + length (slot_entries (f found))
  scan_length-modify slots i found f there =
      let s = split_slots slots i found there in
      let a = length-change s.before (slot_entries found) s.behind in
      let b = length-change s.before (slot_entries (f found)) s.behind in
      omega (arith, ap length s.whole, ap length (s.changed f))

  pub tombstone_count-modify :
      (slots : List (Slot K V)) (i : ℕ) (found : Slot K V) (f : Slot K V → Slot K V)
      → get_elem? slots i ≡ some found
      → tombstone_count (modify slots i f) + is_tombstone found.control
        ≡ tombstone_count slots + is_tombstone (f found).control
  tombstone_count-modify [] i found f there = absurd (cc there)
  tombstone_count-modify (slot ∷ slots) zero found f there =
      let same : found ≡ slot = cc in rw same (omega arith)
  tombstone_count-modify (slot ∷ slots) (suc i) found f there =
      omega (arith, tombstone_count-modify slots i found f there)

  pub fill_slot-Counted :
      (slot : ℕ) (entry : SlotEntry K V) (key_fingerprint : ℕ) (at : Level K V) (found : Slot K V)
      → get_elem? at.slots slot ≡ some found
      → is_free found.control ≡ true
      → is_occupied key_fingerprint ≡ true
      → is_tombstone key_fingerprint ≡ 0
      → Counted at
      → Counted (fill_slot slot entry key_fingerprint at)
  unfolding fill_slot control_at
  fill_slot-Counted slot entry key_fingerprint at found there free occupied byte (lens, tombs) =
      let f : Slot K V → Slot K V = λ x. record { control = key_fingerprint; entry = some entry } in
      let one = ap length (slot_entries-stored (f found) occupied refl) in
      let none_here : is_occupied found.control ≡ false =
        rw (is_occupied_free found.control, free) refl in
      let nothing = ap length (slot_entries-free found none_here) in
      let entries = scan_length-modify at.slots slot found f there in
      let stones = tombstone_count-modify at.slots slot found f there in
      let count : (elim (control_at at slot) [
        | none ↦ at.tombstones
        | some prev_ctrl ↦ if prev_ctrl == ctrl_tombstone then at.tombstones - 1 else at.tombstones
      ])
          ≡ tombstone_count (modify at.slots slot f) =
        rw there (
          released found.control at.tombstones (tombstone_count (modify at.slots slot f))
            (omega arith)) in
      (omega arith, count)
