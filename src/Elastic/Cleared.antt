-- ===== src/Elastic/Cleared.antt =====
-- elastic.rs: a table after `clear` and after `wipe_all`.
use opthash_rs.Prelude.{
  ℕ, zero, suc, ◌+◌, ◌-◌, ◌≤◌, ◌≡◌, refl, ap, sym, ◌∙◌, inl, inr, arith, Option-cases,
  length-append, Bool-cases, true, some, List, [], ◌∷◌, length, get_elem?, map, All, ◌>>=◌,
}
use mathlib.Core.Path.{ap₂}
use opthash_rs.Control.{ctrl_empty, is_free, is_occupied}
use opthash_rs.Elastic.Key.{Hashing}
use opthash_rs.Elastic.Level.{Slot, Level, capacity, slot_entries, scan_entries, clear_all_controls}
use opthash_rs.Elastic.Table.{ElasticTable, find_entry}
use opthash_rs.Elastic.Resize.{live_entries}
use opthash_rs.Elastic.Delete.{
  reset_after_clear, drain_slots, occupied_count, occupied_in, drain_reset, clear_table, wipe_level,
  wipe_all,
}
use opthash_rs.Elastic.Assoc.{assoc}
use opthash_rs.Elastic.Refine.{find_entry-assoc}
use opthash_rs.Elastic.Refresh.{cleared_length, cleared-FourBins}
use opthash_rs.Elastic.Valid.{capacities, tombstone_count, Counted, IsValid}
use opthash_rs.Elastic.Fresh.{no_position, no_prior}
use opthash_rs.Elastic.Empty.{IsEmpty}

module _ {ℓ} {K V : Type ℓ} where
  abbrev AllEmpty : List (Slot K V) → Type 0
  AllEmpty slots = All (λ slot. slot.control ≡ ctrl_empty) slots

  empty_scan : (slots : List (Slot K V)) → AllEmpty slots → scan_entries slots ≡ []
  unfolding scan_entries slot_entries is_occupied
  empty_scan [] e = refl
  empty_scan (slot ∷ slots) e = rw (e.0) (empty_scan slots e.1)

  empty_tombs : (slots : List (Slot K V)) → AllEmpty slots → tombstone_count slots ≡ 0
  empty_tombs [] e = refl
  empty_tombs (slot ∷ slots) e = rw (e.0) (omega (arith, empty_tombs slots e.1))

  empty_free :
      (slots : List (Slot K V)) (i : ℕ) {found : Slot K V}
      → AllEmpty slots
      → get_elem? slots i ≡ some found
      → is_free found.control ≡ true
  unfolding is_free
  empty_free [] i e there = absurd (cc there)
  empty_free (slot ∷ slots) zero {found} e there =
      let same : slot ≡ found = cc in rw (sym same, e.0) refl
  empty_free (slot ∷ slots) (suc i) e there = empty_free slots i e.1 there

  -- A level that was emptied in place.
  record Wiped (level level' : Level K V) : Type 0 where
    shape : capacity level' ≡ capacity level
    count : level'.len ≡ 0
    tombs : level'.tombstones ≡ 0
    empty : AllEmpty level'.slots

  cleared-AllEmpty :
      (slots : List (Slot K V))
      → AllEmpty
          (map {A = Slot K V} {B = Slot K V} (λ slot. record slot { control = ctrl_empty }) slots)
  cleared-AllEmpty [] = tt
  cleared-AllEmpty (slot ∷ slots) = (refl, cleared-AllEmpty slots)

  cleared_shape :
      (slots : List (Slot K V))
      → length
          (map {A = Slot K V} {B = Slot K V} (λ slot. record slot { control = ctrl_empty }) slots)
        ≡ length slots
  cleared_shape [] = refl
  cleared_shape (slot ∷ slots) = ap suc (cleared_shape slots)

  drain_shape : (slots : List (Slot K V)) → length (drain_slots slots) ≡ length slots
  unfolding drain_slots
  drain_shape [] = refl
  drain_shape (slot ∷ slots) = elim (Bool-cases (is_occupied slot.control)) [
    | inl full ↦ rw (full, drain_slots) (ap suc (drain_shape slots))
    | inr free ↦ rw (free, drain_slots) (ap suc (drain_shape slots))
  ]

  scan_le : (slots : List (Slot K V)) → length (scan_entries slots) ≤ occupied_count slots
  unfolding scan_entries slot_entries
  scan_le [] = omega arith
  scan_le (slot ∷ slots) =
      let rest = scan_le slots in
      elim (Bool-cases (is_occupied slot.control)) [
        | inr free ↦ rw (free, scan_entries, slot_entries, occupied_count) rest
        | inl full ↦ elim (Option-cases slot.entry) [
          | inl nothing ↦
              rw (full, nothing, scan_entries, slot_entries, occupied_count) (omega (arith, rest))
          | inr (entry, there) ↦
              rw (full, there, scan_entries, slot_entries, occupied_count) (omega (arith, rest))
        ]
      ]

  live_le : (levels : List (Level K V)) → length (live_entries levels) ≤ occupied_in levels
  unfolding live_entries
  live_le [] = omega arith
  live_le (level ∷ levels) = omega (
    arith,
    length-append (scan_entries level.slots) (live_entries levels),
    scan_le level.slots,
    live_le levels,
  )

  drain_reset-Wiped : (level : Level K V) → Counted level → Wiped level (drain_reset level)
  unfolding drain_reset clear_all_controls
  drain_reset-Wiped level counted = record {
    shape = cleared_shape (drain_slots level.slots) ∙ drain_shape level.slots;
    count = omega (arith, counted.0, scan_le level.slots);
    tombs = refl;
    empty = cleared-AllEmpty (drain_slots level.slots);
  }

  wipe_level-Wiped : (level : Level K V) → Counted level → Wiped level (wipe_level level)
  unfolding wipe_level clear_all_controls
  wipe_level-Wiped level counted = record {
    shape = cleared_shape level.slots;
    count = refl;
    tombs = refl;
    empty = cleared-AllEmpty level.slots;
  }

  module _ (wipe : Level K V → Level K V)
      (wiped : (level : Level K V) → Counted level → Wiped level (wipe level)) where
    wiped_shape :
        (levels : List (Level K V))
        → All Counted levels
        → capacities (map wipe levels) ≡ capacities levels
    wiped_shape [] c = refl
    wiped_shape (level ∷ levels) c =
        ap₂ (λ (n : ℕ) (ns : List ℕ). n ∷ ns) (wiped level c.0).shape (wiped_shape levels c.1)

    wiped_live :
        (levels : List (Level K V)) → All Counted levels → live_entries (map wipe levels) ≡ []
    unfolding live_entries
    wiped_live [] c = refl
    wiped_live (level ∷ levels) c =
        rw (empty_scan (wipe level).slots (wiped level c.0).empty) (wiped_live levels c.1)

    wiped-Counted : (levels : List (Level K V)) → All Counted levels → All Counted (map wipe levels)
    wiped-Counted [] c = tt
    wiped-Counted (level ∷ levels) c =
        let w = wiped level c.0 in
        (
          (
            w.count ∙ sym (ap length (empty_scan (wipe level).slots w.empty)),
            w.tombs ∙ sym (empty_tombs (wipe level).slots w.empty),
          ),
          wiped-Counted levels c.1,
        )

    wiped_free :
        (levels : List (Level K V)) (l i : ℕ) {at : Level K V} {found : Slot K V}
        → All Counted levels
        → get_elem? (map wipe levels) l ≡ some at
        → get_elem? at.slots i ≡ some found
        → is_free found.control ≡ true
    wiped_free [] l i c there here = absurd (cc there)
    wiped_free (level ∷ levels) zero i {at} {found} c there here =
        let same : wipe level ≡ at = cc in
        empty_free (wipe level).slots i (wiped level c.0).empty (rw (sym same) at here)
    wiped_free (level ∷ levels) (suc l) i c there here = wiped_free levels l i c.1 there here

    wiped_length : (levels : List (Level K V)) → length (map wipe levels) ≡ length levels
    wiped_length [] = refl
    wiped_length (level ∷ levels) = ap suc (wiped_length levels)

-- The levels of a table emptied in place, and what follows.
abbrev emptied {ℓ} : {K V : Type ℓ} → (Level K V → Level K V) → ElasticTable K V → ElasticTable K V
emptied wipe t = reset_after_clear (record t { levels = map wipe t.levels; len = 0 })

emptied-IsEmpty {ℓ} :
    {K V : Type ℓ} ⦃keys : Hashing K⦄ (wipe : Level K V → Level K V)
    (wiped : (level : Level K V) → Counted level → Wiped level (wipe level)) (t : ElasticTable K V)
    → IsValid t
    → IsEmpty t.total_slots (emptied wipe t)
unfolding reset_after_clear find_entry assoc
emptied-IsEmpty wipe wiped t v =
    let shape = wiped_shape wipe wiped t.levels v.counted in
    let live = wiped_live wipe wiped t.levels v.counted in
    let valid : IsValid (emptied wipe t) = record {
      few = omega (arith, wiped_length wipe wiped t.levels, v.few);
      total = rw shape v.total;
      limit = v.limit;
      small = v.small;
      exponent = v.exponent;
      words = λ p. omega (arith, v.words p, cleared_length t.membership);
      four = cleared-FourBins t.membership;
      scheduled = λ level q upper there pos routed low.
          absurd (omega (arith, no_position (level + 1) q (omega arith), no_prior));
      cells =
          λ l i at found there here. inl (wiped_free wipe wiped t.levels l i v.counted there here);
      counted = wiped-Counted wipe wiped t.levels v.counted;
      len = sym (ap length live);
      distinct = rw live tt;
    } in
    record {
      valid = valid;
      total = refl;
      count = refl;
      values = λ q.
          ap (λ o. o >>= λ entry. some entry.value)
            (find_entry-assoc (emptied wipe t) q valid ∙ ap (assoc q) live);
    }

-- Both `clear` and `wipe_all` turn a well-formed table into a well-formed one of the same number of
-- slots, without entries, and with no value for any key.
pub clear-IsEmpty {ℓ} :
    {K V : Type ℓ} ⦃keys : Hashing K⦄ (t : ElasticTable K V)
    → IsValid t
    → IsEmpty t.total_slots (clear_table t) × IsEmpty t.total_slots (wipe_all t)
unfolding clear_table wipe_all
clear-IsEmpty t v =
    let none_left : t.len - occupied_in t.levels ≡ 0 = omega (arith, v.len, live_le t.levels) in
    (
      rw none_left (emptied-IsEmpty drain_reset drain_reset-Wiped t v),
      emptied-IsEmpty wipe_level wipe_level-Wiped t v,
    )
