-- ===== src/Elastic/Vacant.antt =====
-- elastic.rs: the search for any free slot.
use opthash_rs.Prelude.{
  ℕ, zero, suc, ◌+◌, ◌≡◌, ◌⊎◌, refl, ap, ◌∙◌, inl, inr, arith, Bool-cases, true, false, none, some,
  List, [], ◌∷◌, length, length-append, get_elem?, sum,
}
use mathlib.Core.Path.{subst}
use opthash_rs.Control.{is_free}
use opthash_rs.Elastic.Level.{Slot, Level, slot_entries, scan_entries, control_at}
use opthash_rs.Elastic.Chosen.{FreeSlot}
use opthash_rs.Elastic.Place.{free_slot_from, free_slot_in}
use opthash_rs.Elastic.Resize.{live_entries}
use opthash_rs.Elastic.Valid.{capacities}

module _ {ℓ} {K V : Type ℓ} where
  -- What the search for a free slot finds, or else every slot is occupied.
  slot_from :
      (slots : List (Slot K V)) (from : ℕ)
      → ((i : ℕ) × (free_slot_from slots from ≡ some (from + i))
          × (found : Slot K V) × (get_elem? slots i ≡ some found)
          × (is_free found.control ≡ true))
        ⊎ ((free_slot_from slots from ≡ none)
            × ((i : ℕ) (found : Slot K V)
                → get_elem? slots i ≡ some found
                → is_free found.control ≡ false))
  unfolding free_slot_from
  slot_from [] from = inr (refl, λ i found there. absurd (cc there))
  slot_from (slot ∷ slots) from = elim (Bool-cases (is_free slot.control)) [
    | inl free ↦
        let e : from ≡ from + 0 = omega arith in
        inl (0, rw (free, free_slot_from) (ap (λ (x : ℕ). some x) e), slot, refl, free)
    | inr taken ↦ elim (slot_from slots (from + 1)) [
      | inl (i, run, found, there, free) ↦
          let e : from + 1 + i ≡ from + suc i = omega arith in
          inl
            (suc i, rw (taken, free_slot_from) (run ∙ ap (λ (x : ℕ). some x) e), found, there, free)
      | inr (nowhere, all) ↦ inr (rw (taken, free_slot_from) nowhere, taken_at taken all)
    ]
  ]
    where
      taken_at :
          is_free slot.control ≡ false
          → ((i : ℕ) (found : Slot K V)
              → get_elem? slots i ≡ some found
              → is_free found.control ≡ false)
          → (i : ℕ) (found : Slot K V) → get_elem? (slot ∷ slots) i ≡ some found
          → is_free found.control ≡ false
      taken_at taken all zero found there =
          let same : slot ≡ found = cc in
          subst (λ (x : Slot K V). is_free x.control ≡ false) same taken
      taken_at taken all (suc i) found there = all i found there

  -- The same over the levels.
  abbrev pub AllTaken : List (Level K V) → Type ℓ
  AllTaken levels =
      (l i : ℕ) (at : Level K V) (found : Slot K V)
      → get_elem? levels l ≡ some at
      → get_elem? at.slots i ≡ some found
      → is_free found.control ≡ false

  pub level_from :
      (levels : List (Level K V)) (from : ℕ)
      → ((l i : ℕ) × (free_slot_in levels from ≡ some (from + l, i)) × FreeSlot levels l i)
        ⊎ AllTaken levels
  unfolding free_slot_in control_at
  level_from [] from = inr (λ l i at found there. absurd (cc there))
  level_from (level ∷ levels) from = elim (slot_from level.slots 0) [
    | inl (i, run, found, there, free) ↦
        let first : free_slot_in (level ∷ levels) from ≡ some (from + 0, i) =
          let e : from + 0 ≡ from = omega arith in
          let z : 0 + i ≡ i = omega arith in rw (run, free_slot_in, e, z) refl in
        inl (
          0,
          i,
          first,
          record {
            at = level;
            there = refl;
            control = found.control;
            held = rw there refl;
            free = free;
          },
        )
    | inr (nowhere, all) ↦ elim (level_from levels (from + 1)) [
      | inl (l, i, run, f) ↦
          let e : from + 1 + l ≡ from + suc l = omega arith in
          inl (
            suc l,
            i,
            rw (nowhere, free_slot_in) (run ∙ ap (λ (x : ℕ). some (x, i)) e),
            record {
              at = f.at;
              there = f.there;
              control = f.control;
              held = f.held;
              free = f.free;
            },
          )
      | inr rest ↦ inr (levels_taken all rest)
    ]
  ]
    where
      levels_taken :
          ((i : ℕ) (found : Slot K V)
            → get_elem? level.slots i ≡ some found
            → is_free found.control ≡ false)
          → AllTaken levels
          → AllTaken (level ∷ levels)
      levels_taken all rest zero i at found there here =
          let same : level ≡ at = cc in
          all i found (ap (λ (x : Level K V). get_elem? x.slots i) same ∙ here)
      levels_taken all rest (suc l) i at found there here = rest l i at found there here

  full_scan :
      (slots : List (Slot K V))
      → ((i : ℕ) (found : Slot K V)
          → get_elem? slots i ≡ some found
          → length (slot_entries found) ≡ 1)
      → length (scan_entries slots) ≡ length slots
  unfolding scan_entries
  full_scan [] all = refl
  full_scan (slot ∷ slots) all = omega (
    arith,
    length-append (slot_entries slot) (scan_entries slots),
    all 0 slot refl,
    full_scan slots (λ i found there. all (suc i) found there),
  )

  -- A table whose every slot has an entry has as many entries as slots.
  pub full_table :
      (levels : List (Level K V))
      → ((l i : ℕ) (at : Level K V) (found : Slot K V)
          → get_elem? levels l ≡ some at
          → get_elem? at.slots i ≡ some found
          → length (slot_entries found) ≡ 1)
      → length (live_entries levels) ≡ sum (capacities levels)
  unfolding live_entries
  full_table [] all = refl
  full_table (level ∷ levels) all = omega (
    arith,
    length-append (scan_entries level.slots) (live_entries levels),
    full_scan level.slots (λ i found there. all 0 i level found refl there),
    full_table levels (λ l i at found there here. all (suc l) i at found there here),
  )
