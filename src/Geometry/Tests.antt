-- ===== src/Geometry/Tests.antt =====
-- Runs of exact/geometry.rs on a small table, and the instances of its theorems.
use opthash_rs.Prelude.{
  ◌+◌, ◌*◌, ◌^◌, ◌≤◌, ◌<◌, ◌≡◌, ◌↔◌, refl, arith, [], ◌∷◌, ok, err, All, sum, length, collect,
}
use opthash_rs.Prelude.Log.{bit_length}
use opthash_rs.Geometry.Arith.{
  ceil_div_pow2, floor_div_pow2, floor_three_div_pow2, base_two_loglog_ceiling, ceil_log2,
  ceil_three_quarters, minimum_next_bucket_count, maximum_next_bucket_count,
}
use opthash_rs.Geometry.Config.{
  PaperConfig, n_too_small, new, floor_delta_n, max_insertions, next_length, level_count,
  start_lengths, level_lengths, raw_quota, next_quota, batch_quotas,
}
use opthash_rs.Geometry.Funnel.{
  FunnelPlan, no_compatible_special_layout, funnel_plan, plan_layout,
  largest_compatible_special_layout, layout_between, layout_loop, greatest_common_divisor,
  divisor_loop, nearest_feasible_first_count, search_lower, search_upper, partition_or_none,
}
use opthash_rs.Geometry.Paths.{
  advance, next_bucket_count, select_largest_feasible_next, find_down, minimum_path_sum_at_most,
  minimum_sum_loop, maximum_path_sum_at_least, maximum_sum_loop,
}
use opthash_rs.Geometry.Layout.{IsFunnelPlan, funnel_plan-IsFunnelPlan}
use opthash_rs.Geometry.Rounding.{ceil_div_pow2_bounds, ceil_log2_bounds, next_bucket_count_iff}
use opthash_rs.Geometry.Levels.{Halving, level_lengths_plan}
use opthash_rs.Geometry.Quotas.{batch_quotas-sum}

abbrev sixty_four : PaperConfig
sixty_four = record { n = 64; reserve_exponent = 3 }

lengths_run : level_lengths sixty_four ≡ 32 ∷ 16 ∷ 8 ∷ 4 ∷ 2 ∷ 2 ∷ []
unfolding level_lengths start_lengths level_count ceil_log2 bit_length next_length collect
lengths_run = refl

quotas_run : batch_quotas sixty_four ≡ 24 ∷ 18 ∷ 9 ∷ 5 ∷ 0 ∷ 0 ∷ []
unfolding batch_quotas start_lengths level_count ceil_log2 bit_length next_length next_quota
    raw_quota ceil_three_quarters floor_div_pow2 floor_delta_n max_insertions collect
quotas_run = refl

new_refuses : new 1 3 ≡ err (n_too_small 1)
unfolding new
new_refuses = refl

ceil_div_pow2_bounds_example :
    (65 ≤ ceil_div_pow2 65 4 * 2 ^ 4) × (ceil_div_pow2 65 4 * 2 ^ 4 < 65 + 2 ^ 4)
ceil_div_pow2_bounds_example = ceil_div_pow2_bounds 65 4 (omega arith)

ceil_log2_bounds_example :
    (65 ≤ 2 ^ ceil_log2 65) × (2 ^ ceil_log2 65 < 2 * 65) × (0 < ceil_log2 65)
ceil_log2_bounds_example = ceil_log2_bounds 65 (omega arith)

next_bucket_count_iff_example :
    ((minimum_next_bucket_count 10 ≤ 8) × (8 ≤ maximum_next_bucket_count 10))
    ↔ ((1 ≤ 8) × (8 ≤ 10) × (4 * 8 ≤ 3 * 10 + 4) × (3 * 10 ≤ 4 * 8 + 4))
next_bucket_count_iff_example = next_bucket_count_iff 10 8 (omega arith)

level_lengths_plan_example :
    (length (level_lengths sixty_four) ≡ level_count sixty_four)
    × (sum (level_lengths sixty_four) ≡ 64)
    × All (λ x. 0 < x) (level_lengths sixty_four)
    × Halving (level_lengths sixty_four)
level_lengths_plan_example = level_lengths_plan sixty_four (omega arith)

batch_quotas-sum_example :
    (length (batch_quotas sixty_four) ≡ level_count sixty_four)
    × (sum (batch_quotas sixty_four) ≡ max_insertions sixty_four)
batch_quotas-sum_example = batch_quotas-sum sixty_four (omega arith) (omega arith)

abbrev large : PaperConfig
large = record { n = 1024; reserve_exponent = 3 }

abbrev large_plan : FunnelPlan
large_plan = record {
  config = large;
  alpha = 22;
  beta = 6;
  loglog_ceiling = 4;
  fallback_bucket_width = 8;
  special_len = 64;
  first_bucket_count = 40;
}

plan_run : funnel_plan large ≡ ok large_plan
unfolding funnel_plan plan_layout largest_compatible_special_layout layout_between layout_loop
    greatest_common_divisor divisor_loop nearest_feasible_first_count search_lower search_upper
    partition_or_none advance next_bucket_count select_largest_feasible_next find_down
    minimum_path_sum_at_most minimum_sum_loop maximum_path_sum_at_least maximum_sum_loop
    minimum_next_bucket_count maximum_next_bucket_count ceil_three_quarters ceil_div_pow2
    floor_three_div_pow2 base_two_loglog_ceiling ceil_log2 bit_length
plan_run = refl

plan_refuses : funnel_plan sixty_four ≡ err (no_compatible_special_layout 4 6 6 3 6)
unfolding funnel_plan plan_layout largest_compatible_special_layout ceil_div_pow2
    floor_three_div_pow2 base_two_loglog_ceiling ceil_log2 bit_length
plan_refuses = refl

funnel_plan-IsFunnelPlan_example : IsFunnelPlan large large_plan
funnel_plan-IsFunnelPlan_example = funnel_plan-IsFunnelPlan large plan_run
