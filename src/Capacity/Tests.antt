-- ===== src/Capacity/Tests.antt =====
-- Runs of capacity.rs, and the instances of its theorems.
use opthash_rs.Prelude.{ℕ, ◌*◌, ◌/◌, ◌≤◌, ◌<◌, ◌≡◌, refl, arith, Option, some, checked, u64_mod}
use opthash_rs.Reserve.{default, floor_reserved}
use opthash_rs.Geometry.Arith.{floor_div_pow2}
use opthash_rs.Capacity.{
  max_insertions, capacity_loop, capacity_for, exact_capacity_for, tombstone_cleanup_threshold,
}
use opthash_rs.Capacity.Laws.{
  IsDoubling, exact_capacity_for-least, capacity_for-IsDoubling, tombstone_cleanup_threshold_bounds,
}

capacity_run : capacity_for 16 100 default ≡ some (some 128)
unfolding capacity_for capacity_loop max_insertions floor_reserved floor_div_pow2
capacity_run = refl

exact_run : exact_capacity_for 100 default ≡ some 114
unfolding exact_capacity_for
exact_run = refl

exact_capacity_for-least_example :
    (least : ℕ) × (100 ≤ max_insertions least default)
    × ((c : ℕ) → c < least → max_insertions c default < 100)
    × (exact_capacity_for 100 default ≡ checked u64_mod least)
exact_capacity_for-least_example = exact_capacity_for-least 100 default (omega arith) (omega arith)

capacity_for-IsDoubling_example :
    (result : Option ℕ) × (capacity_for 16 100 default ≡ some result)
    × IsDoubling 16 100 default result
capacity_for-IsDoubling_example = capacity_for-IsDoubling 16 100 default (omega arith) (omega arith)

tombstone_cleanup_threshold_bounds_example :
    (100 / 2 ≤ tombstone_cleanup_threshold 16 100)
    × (tombstone_cleanup_threshold 16 100 ≤ 100 * 3 / 4)
tombstone_cleanup_threshold_bounds_example = tombstone_cleanup_threshold_bounds 16 100 (omega arith)
