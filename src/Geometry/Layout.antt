-- ===== src/Geometry/Layout.antt =====
-- exact/geometry.rs: what `funnel_plan` returns.
use opthash_rs.Prelude.{
  ℕ, ◌+◌, ◌-◌, ◌*◌, ◌/◌, ◌%◌, ◌≤◌, ◌<◌, ◌≡◌, refl, inl, inr, arith, Bool-cases, Option, some,
  Option-cases, sum, ltb, ltb→le, ok,
}
use native.Mathlib.Nat.{div-add-mod'}
use mathlib.Core.Path.{subst}
use opthash_rs.Geometry.Arith.{ceil_div_pow2, floor_three_div_pow2, base_two_loglog_ceiling}
use opthash_rs.Geometry.Config.{PaperConfig}
use opthash_rs.Geometry.FirstCount.{IsPartition, nearest-IsPartition}
use opthash_rs.Geometry.Funnel.{
  FunnelPlan, largest_compatible_special_layout, plan_layout, plan_alpha, plan_beta, funnel_plan,
  special_fallback_len, fallback_bucket_count, start_counts, ordinary_bucket_counts,
}
use opthash_rs.Geometry.Search.{layout-Covered}

-- What the plan promises.
pub record IsFunnelPlan (config : PaperConfig) (plan : FunnelPlan) : Type 0 where
  pub alpha_lem : plan.alpha ≡ 4 * config.reserve_exponent + 10
  pub beta_lem : plan.beta ≡ 2 * config.reserve_exponent
  pub partition :
      IsPartition
        ((config.n - plan.special_len) / plan.beta)
        plan.alpha
        (ordinary_bucket_counts plan)
  pub covers : sum (ordinary_bucket_counts plan) * plan.beta + plan.special_len ≡ config.n
  pub lower : ceil_div_pow2 config.n (config.reserve_exponent + 1) ≤ plan.special_len
  pub upper : plan.special_len ≤ floor_three_div_pow2 config.n (config.reserve_exponent + 2)
  pub fallback : special_fallback_len plan ≡ fallback_bucket_count plan * plan.fallback_bucket_width
  pub fallback_buckets : 1 ≤ fallback_bucket_count plan

alpha-fits : (d : ℕ) {alpha : ℕ} → plan_alpha d ≡ some alpha → alpha ≡ 4 * d + 10
alpha-fits d e = ground arith

beta-fits : (d : ℕ) {beta : ℕ} → plan_beta d ≡ some beta → beta ≡ 2 * d
beta-fits d e = ground arith

plan-ok :
    (config : PaperConfig) {plan : FunnelPlan}
    → funnel_plan config ≡ ok plan
    → (3 ≤ config.reserve_exponent)
      × (plan_layout config (4 * config.reserve_exponent + 10) (2 * config.reserve_exponent)
          ≡ ok plan)
unfolding funnel_plan
plan-ok config e = elim (Option-cases (plan_alpha config.reserve_exponent)) [
  | inl big ↦ absurd (ground (arith, rw big at e))
  | inr (alpha, a) ↦ elim (Option-cases (plan_beta config.reserve_exponent)) [
    | inl big ↦ absurd (ground (arith, rw (a, big) at e))
    | inr (beta, b) ↦ elim (Bool-cases (ltb config.reserve_exponent 3)) [
      | inl few ↦ absurd (ground (arith, rw few at e))
      | inr enough ↦
          let av = alpha-fits config.reserve_exponent a in
          let bv = beta-fits config.reserve_exponent b in
          (ltb→le _ _ enough, rw (← av, ← bv) (rw (enough, a, b) at e))
    ]
  ]
]

-- The plan record that a layout gives.
abbrev planned : PaperConfig → ℕ → ℕ → ℕ → ℕ → FunnelPlan
planned config alpha beta special first = record {
  config = config;
  alpha = alpha;
  beta = beta;
  loglog_ceiling = base_two_loglog_ceiling config.n;
  fallback_bucket_width = 2 * base_two_loglog_ceiling config.n;
  special_len = special;
  first_bucket_count = first;
}

abbrev layout_of : PaperConfig → ℕ → ℕ → Option (ℕ × ℕ)
layout_of config alpha beta =
    largest_compatible_special_layout config.n
      (ceil_div_pow2 config.n (config.reserve_exponent + 1))
      (floor_three_div_pow2 config.n (config.reserve_exponent + 2)) alpha beta
      (2 * base_two_loglog_ceiling config.n)

plan_layout-planned :
    (config : PaperConfig) (alpha beta : ℕ) {plan : FunnelPlan}
    → plan_layout config alpha beta ≡ ok plan
    → (special first : ℕ) × (layout_of config alpha beta ≡ some (special, first))
      × (planned config alpha beta special first ≡ plan)
unfolding plan_layout
plan_layout-planned config alpha beta e = elim (Option-cases (layout_of config alpha beta)) [
  | inl no_layout ↦ absurd (ground (arith, rw (no_layout, plan_layout) at e))
  | inr ((special, first), found) ↦ (special, first, found, cc (rw (found, plan_layout) at e))
]

width-pos : (n : ℕ) → 1 ≤ 2 * base_two_loglog_ceiling n
unfolding base_two_loglog_ceiling
width-pos n = ground arith

-- A special length that holds a positive number of complete fallback buckets.
fallback_lem :
    (c width : ℕ)
    → 0 < width
    → width ≤ c
    → c % width ≡ 0
    → (c ≡ c / width * width) × (1 ≤ c / width)
fallback_lem c width pos h z =
    let whole = div-add-mod' c width in
    let e : c ≡ c / width * width = omega (arith, whole) in (e, grind (arith, e))

-- Every plan that `funnel_plan` returns is exact: the ordinary bucket counts, one for each of the
-- `4 * d + 10` levels, are positive, never rise, stay within one of three quarters of the count
-- before, and their buckets of `2 * d` slots together with the special array are the whole table;
-- the special length lies between its two bounds and its lower half is a positive number of
-- complete fallback buckets.
pub funnel_plan-IsFunnelPlan :
    (config : PaperConfig) {plan : FunnelPlan}
    → funnel_plan config ≡ ok plan
    → IsFunnelPlan config plan
funnel_plan-IsFunnelPlan config {plan} e =
    let (enough, laid) = plan-ok config e in
    let alpha = 4 * config.reserve_exponent + 10 in
    let beta = 2 * config.reserve_exponent in
    let width = 2 * base_two_loglog_ceiling config.n in
    let (special, first, found, same) = plan_layout-planned config alpha beta laid in
    let c =
      layout-Covered config.n (ceil_div_pow2 config.n (config.reserve_exponent + 1))
        (floor_three_div_pow2 config.n (config.reserve_exponent + 2)) alpha beta width (omega arith)
        found in
    let partition = nearest-IsPartition ((config.n - special) / beta) alpha c.starts in
    let fallback = fallback_lem (special / 2) width (width-pos config.n) c.wide c.complete in
    subst (λ p. IsFunnelPlan config p) same
      (unfold ordinary_bucket_counts start_counts special_fallback_len fallback_bucket_count in
        record {
          alpha_lem = refl;
          beta_lem = refl;
          partition = partition;
          covers = rw (partition.1) c.divides;
          lower = c.from;
          upper = c.to;
          fallback = fallback.0;
          fallback_buckets = fallback.1;
        })
