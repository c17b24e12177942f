-- ===== src/Capacity.antt =====
-- capacity.rs: capacity and reserve arithmetic shared by both maps.
pub mod Laws
mod Tests
use opthash_rs.Prelude.{
  ℕ, zero, suc, ◌+◌, ◌-◌, ◌*◌, ◌/◌, ◌^◌, min, max, Option, none, some, true, false, leb, ltb, ◌==◌,
  if◌then◌else◌, ◌<<<◌, ◌>>=◌, checked, saturating, u64_mod, usize_bits,
}
use opthash_rs.Reserve.{ReserveFraction, floor_reserved}

unfoldable pub max_insertions : ℕ → ReserveFraction → ℕ
max_insertions capacity reserve = capacity - floor_reserved reserve capacity

-- The loop of `capacity_for`. The outer option is `none` if the fuel runs out, the inner one is the
-- function's own result.
unfoldable pub capacity_loop : ℕ → ℕ → ℕ → ReserveFraction → Option (Option ℕ)
capacity_loop zero capacity needed reserve = none
capacity_loop (suc fuel) capacity needed reserve =
    let rest : Option (Option ℕ) = elim (checked u64_mod (capacity * 2)) [
      | none ↦ some none
      | some doubled ↦ capacity_loop fuel doubled needed reserve
    ] in
    if ltb (max_insertions capacity reserve) needed then rest else some (some capacity)

-- A positive start is doubled at most 64 times before the product overflows.
unfoldable pub capacity_for : ℕ → ℕ → ReserveFraction → Option (Option ℕ)
unfolding capacity_loop
capacity_for start needed reserve = capacity_loop 65 start needed reserve

unfoldable pub exact_capacity_for : ℕ → ReserveFraction → Option ℕ
exact_capacity_for needed reserve =
    if needed == 0
    then some 0
    else if leb usize_bits reserve.exponent
    then some needed
    else checked u64_mod (needed + (needed - 1) / ((1 <<< reserve.exponent) - 1))

unfoldable pub tombstone_cleanup_threshold : ℕ → ℕ → ℕ
tombstone_cleanup_threshold group_size capacity =
    let half = capacity / 2 in
    let cap_three_quarters = saturating (capacity * 3) / 4 in
    let hysteresis = saturating (half + saturating (group_size * 4)) in
    max (min hysteresis cap_three_quarters) half
