-- ===== src/Elastic/Level.antt =====
-- elastic.rs: `Level`, one sub-array of the table, with raw/arena.rs: the accesses to its slots.
-- A slot is its control byte and the entry in it, if one has been written and not moved out.
use opthash_rs.Prelude.{
  ℕ, zero, suc, ◌-◌, Bool, true, false, Option, none, some, List, [], ◌∷◌, ◌++◌, length, get_elem?,
  map, ltb, ◌>>=◌,
}
use opthash_rs.Capacity.{tombstone_cleanup_threshold}
use opthash_rs.Control.{ctrl_empty, ctrl_tombstone, is_occupied}
use opthash_rs.Elastic.Filter.{modify}

pub record SlotEntry {ℓ} (K V : Type ℓ) : Type ℓ where
  pub key : K
  pub value : V

pub record Slot {ℓ} (K V : Type ℓ) : Type ℓ where
  pub control : ℕ
  pub entry : Option (SlotEntry K V)

pub record Level {ℓ} (K V : Type ℓ) : Type ℓ where
  pub slots : List (Slot K V)
  pub len : ℕ
  pub tombstones : ℕ

module _ {ℓ} {K V : Type ℓ} where
  abbrev pub empty_slot : Slot K V
  empty_slot = record { control = ctrl_empty; entry = none }

  abbrev pub empty_slots : ℕ → List (Slot K V)
  empty_slots zero = []
  empty_slots (suc n) = empty_slot ∷ empty_slots n

  -- A fresh level over control bytes that the arena has zeroed.
  unfoldable pub new_at : ℕ → Level K V
  new_at capacity = record { slots = empty_slots capacity; len = 0; tombstones = 0 }

  abbrev pub capacity : Level K V → ℕ
  capacity level = length level.slots

  unfoldable pub free_slots : Level K V → ℕ
  free_slots level = capacity level - level.len

  unfoldable pub needs_cleanup : ℕ → Level K V → Bool
  needs_cleanup group_size level =
      ltb (tombstone_cleanup_threshold group_size (capacity level)) level.tombstones

  -- The code reads within the capacity only.
  unfoldable pub control_at : Level K V → ℕ → Option ℕ
  control_at level index = get_elem? level.slots index >>= λ slot. some slot.control

  unfoldable pub get_ref : Level K V → ℕ → Option (SlotEntry K V)
  get_ref level index = get_elem? level.slots index >>= λ slot. slot.entry

  unfoldable pub set_control : ℕ → ℕ → Level K V → Level K V
  set_control index control level = record level {
    slots = modify level.slots index (λ slot. record slot { control = control });
  }

  unfoldable pub mark_tombstone : ℕ → Level K V → Level K V
  unfolding set_control
  mark_tombstone index level = set_control index ctrl_tombstone level

  unfoldable pub write_with_control : ℕ → SlotEntry K V → ℕ → Level K V → Level K V
  write_with_control index entry control level = record level {
    slots = modify level.slots index (λ slot. record { control = control; entry = some entry });
  }

  -- The value is moved out, its control byte stays.
  unfoldable pub take_entry : ℕ → Level K V → Level K V
  take_entry index level = record level {
    slots = modify level.slots index (λ slot. record slot { entry = none });
  }

  unfoldable pub clear_all_controls : Level K V → Level K V
  clear_all_controls level = record level {
    slots =
        map {A = Slot K V} {B = Slot K V} (λ slot. record slot { control = ctrl_empty })
          level.slots;
  }

  -- The entries of the occupied slots, in scan order.
  unfoldable pub slot_entries : Slot K V → List (SlotEntry K V)
  slot_entries slot = elim (is_occupied slot.control) [
    | false ↦ []
    | true ↦ elim slot.entry [ none ↦ [] | some entry ↦ entry ∷ [] ]
  ]

  unfoldable pub scan_entries : List (Slot K V) → List (SlotEntry K V)
  unfolding slot_entries
  scan_entries [] = []
  scan_entries (slot ∷ slots) = slot_entries slot ++ scan_entries slots
