-- ===== src/Geometry/Funnel.antt =====
-- exact/geometry.rs: the Funnel plan: the search for the special array's length and for the first
-- bucket count.
use opthash_rs.Prelude.{
  ℕ, zero, suc, ◌+◌, ◌-◌, ◌*◌, ◌/◌, ◌%◌, min, max, Bool, true, false, Option, none, some, List,
  Result, ok, err, ◌&&◌, not, ltb, leb, ◌==◌, if◌then◌else◌, ◌>>=◌, checked, checked_sub, u64_mod,
  u128_mod,
}
use opthash_rs.Geometry.Arith.{
  ceil_div_pow2, floor_three_div_pow2, base_two_loglog_ceiling, round_up,
}
use opthash_rs.Geometry.Config.{PaperConfig}
use opthash_rs.Geometry.Paths.{
  minimum_path_sum_at_most, maximum_path_sum_at_least, FunnelBucketCounts, next_bucket_count,
  advance, items,
}

pub data FunnelPlanParameter : Type 0 where
  alpha_parameter beta_parameter : FunnelPlanParameter

pub data FunnelPlanError : Type 0 where
  exponent_below_minimum : ℕ → ℕ → FunnelPlanError
  derived_parameter_overflow : FunnelPlanParameter → ℕ → FunnelPlanError
  no_compatible_special_layout : ℕ → ℕ → ℕ → ℕ → ℕ → FunnelPlanError

pub record FunnelPlan : Type 0 where
  pub config : PaperConfig
  pub alpha : ℕ
  pub beta : ℕ
  pub loglog_ceiling : ℕ
  pub fallback_bucket_width : ℕ
  pub special_len : ℕ
  pub first_bucket_count : ℕ

-- Euclid's loop; the right number falls, so that many steps are enough.
unfoldable pub divisor_loop : ℕ → ℕ → ℕ → ℕ
divisor_loop zero left right = left
divisor_loop (suc fuel) left right =
    let rest = divisor_loop fuel right (left % right) in if right == 0 then left else rest

unfoldable pub greatest_common_divisor : ℕ → ℕ → ℕ
unfolding divisor_loop
greatest_common_divisor left right = divisor_loop (suc right) left right

-- The two binary searches of `nearest_feasible_first_count`; 64 steps are enough for a `usize`.
unfoldable pub search_lower : (ℕ → Bool) → ℕ → ℕ → ℕ → ℕ
search_lower test zero left right = left
search_lower test (suc fuel) left right =
    let middle = left + (right - left) / 2 in
    elim (ltb left right) [
      | false ↦ left
      | true ↦ elim (test middle) [
        | true ↦ search_lower test fuel left middle
        | false ↦ search_lower test fuel (middle + 1) right
      ]
    ]

unfoldable pub search_upper : (ℕ → Bool) → ℕ → ℕ → ℕ → ℕ
search_upper test zero left right = left
search_upper test (suc fuel) left right =
    let middle = left + (right - left) / 2 + 1 in
    elim (ltb left right) [
      | false ↦ left
      | true ↦ elim (test middle) [
        | true ↦ search_upper test fuel middle right
        | false ↦ search_upper test fuel left (middle - 1)
      ]
    ]

abbrev pub clamp : ℕ → ℕ → ℕ → ℕ
clamp value lower upper =
    if ltb value lower then lower else if ltb upper value then upper else value

-- The last test: the iterator yields `level_count` items, then nothing, and leaves no bucket over.
abbrev pub accept : ℕ → Option ℕ × FunnelBucketCounts → Option ℕ
accept first (some item, counts) = none
accept first (none, counts) = if counts.remaining_sum == 0 then some first else none

unfoldable pub partition_or_none : ℕ → ℕ → ℕ → Option ℕ
partition_or_none total_buckets level_count first = do
  counts ← advance level_count (record {
    next_count = some first;
    remaining_sum = total_buckets;
    remaining_levels = level_count;
  })
  accept first (next_bucket_count counts)

-- `total_buckets / 4` to the nearest.
abbrev pub nearest_estimate : ℕ → ℕ
nearest_estimate total_buckets =
    let quotient = total_buckets / 4 in if leb (total_buckets % 4) 2 then quotient else quotient + 1

abbrev pub first_lower : ℕ → ℕ → ℕ → ℕ
first_lower maximum_first total_buckets level_count =
    search_lower (λ (first : ℕ). maximum_path_sum_at_least first level_count total_buckets) 64 1
      maximum_first

abbrev pub first_upper : ℕ → ℕ → ℕ → ℕ
first_upper maximum_first total_buckets level_count =
    search_upper (λ (first : ℕ). minimum_path_sum_at_most first level_count total_buckets) 64 1
      maximum_first

unfoldable pub nearest_feasible_first_count : ℕ → ℕ → Option ℕ
nearest_feasible_first_count total_buckets level_count = do
  later_levels ← checked_sub level_count 1
  maximum_first ← checked_sub total_buckets later_levels
  let lower = first_lower maximum_first total_buckets level_count in
      let upper = first_upper maximum_first total_buckets level_count in
      if not (maximum_path_sum_at_least maximum_first level_count total_buckets)
      then none
      else if not (minimum_path_sum_at_most 1 level_count total_buckets)
      then none
      else if ltb upper lower
      then none
      else partition_or_none total_buckets level_count
          (clamp (nearest_estimate total_buckets) lower upper)

-- The loop over the residues of the main length.
unfoldable pub layout_loop : ℕ → ℕ → ℕ → ℕ → ℕ → ℕ → ℕ → Option (ℕ × ℕ)
layout_loop n alpha beta width maximum_main zero main_len = none
layout_loop n alpha beta width maximum_main (suc count) main_len =
    let special_len = n - main_len in
    let fallback_len = special_len / 2 in
    let found =
      nearest_feasible_first_count (main_len / beta) alpha >>= λ first. some (special_len, first) in
    let rest : Option (ℕ × ℕ) = elim (checked u64_mod (main_len + beta)) [
      | none ↦ none
      | some next ↦ layout_loop n alpha beta width maximum_main count next
    ] in
    if ltb maximum_main main_len
    then none
    else if leb width fallback_len && fallback_len % width == 0
    then found
    else rest

-- The search once the least and the largest special length are known.
unfoldable pub layout_between : ℕ → ℕ → ℕ → ℕ → ℕ → ℕ → ℕ → Option (ℕ × ℕ)
layout_between n alpha beta width period minimum_special_len maximum_special_len =
    let maximum_main = n - minimum_special_len in
    let multiple = (n - maximum_special_len) / beta + round_up (n - maximum_special_len) beta in
    if ltb maximum_special_len minimum_special_len
    then none
    else if ltb (maximum_main / beta) multiple
    then none
    else checked u64_mod (multiple * beta)
      >>= layout_loop n alpha beta width maximum_main (period / greatest_common_divisor beta period)

unfoldable pub largest_compatible_special_layout : ℕ → ℕ → ℕ → ℕ → ℕ → ℕ → Option (ℕ × ℕ)
largest_compatible_special_layout n lower upper alpha beta width = do
  minimum_main_len ← checked u64_mod (alpha * beta)
  period ← checked u64_mod (width * 2)
  (if ltb n minimum_main_len
      then none
      else layout_between n alpha beta width period (max lower period)
          (min upper (n - minimum_main_len)))

abbrev pub plan_alpha : ℕ → Option ℕ
plan_alpha reserve_exponent = do
  product ← checked u128_mod (reserve_exponent * 4)
  value ← checked u128_mod (product + 10)
  checked u64_mod value

abbrev pub plan_beta : ℕ → Option ℕ
plan_beta reserve_exponent = do
  value ← checked u128_mod (reserve_exponent * 2)
  checked u64_mod value

-- The layout of a plan whose parameters are known.
unfoldable pub plan_layout : PaperConfig → ℕ → ℕ → Result FunnelPlan FunnelPlanError
plan_layout config alpha beta =
    let lower = ceil_div_pow2 config.n (config.reserve_exponent + 1) in
    let upper = floor_three_div_pow2 config.n (config.reserve_exponent + 2) in
    let loglog_ceiling = base_two_loglog_ceiling config.n in
    let width = 2 * loglog_ceiling in
    elim (largest_compatible_special_layout config.n lower upper alpha beta width) [
      | none ↦ err (no_compatible_special_layout lower upper beta loglog_ceiling width)
      | some (special_len, first_bucket_count) ↦ ok (record {
        config = config;
        alpha = alpha;
        beta = beta;
        loglog_ceiling = loglog_ceiling;
        fallback_bucket_width = width;
        special_len = special_len;
        first_bucket_count = first_bucket_count;
      })
    ]

unfoldable pub funnel_plan : PaperConfig → Result FunnelPlan FunnelPlanError
funnel_plan config =
    let exponent = config.reserve_exponent in
    let planned : Result FunnelPlan FunnelPlanError = elim (plan_alpha exponent) [
      | none ↦ err (derived_parameter_overflow alpha_parameter exponent)
      | some alpha ↦ elim (plan_beta exponent) [
        | none ↦ err (derived_parameter_overflow beta_parameter exponent)
        | some beta ↦ plan_layout config alpha beta
      ]
    ] in
    if ltb exponent 3 then err (exponent_below_minimum exponent 3) else planned

unfoldable pub special_primary_len : FunnelPlan → ℕ
special_primary_len plan = plan.special_len / 2 + plan.special_len % 2

unfoldable pub special_fallback_len : FunnelPlan → ℕ
special_fallback_len plan = plan.special_len / 2

unfoldable pub fallback_bucket_count : FunnelPlan → ℕ
unfolding special_fallback_len
fallback_bucket_count plan = special_fallback_len plan / plan.fallback_bucket_width

-- The iterator's start, and its items.
unfoldable pub start_counts : FunnelPlan → FunnelBucketCounts
start_counts plan = record {
  next_count = some plan.first_bucket_count;
  remaining_sum = (plan.config.n - plan.special_len) / plan.beta;
  remaining_levels = plan.alpha;
}

unfoldable pub ordinary_bucket_counts : FunnelPlan → List ℕ
unfolding start_counts items
ordinary_bucket_counts plan = items (suc plan.alpha) (start_counts plan)
