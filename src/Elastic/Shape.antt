-- ===== src/Elastic/Shape.antt =====
-- elastic.rs: `PlanBuffer` and `ElasticGeometry`. The outer option is `none` where the code panics.
use opthash_rs.Prelude.{
  ℕ, zero, suc, ◌^◌, ◌≤◌, ◌≡◌, refl, sym, ◌∙◌, inl, inr, arith, false, Bool-cases, Option, none,
  some, List, [], ◌∷◌, length, sum, ltb, ltb→lt, ltb→le, le→ltb, leb, le→leb, ◌==◌, if◌then◌else◌,
  ◌>>=◌, Result, ok, err,
}
use opthash_rs.Prelude.Log.{pow2_mono}
use opthash_rs.Reserve.{ReserveFraction}
use opthash_rs.Capacity.{capacity_for}
use opthash_rs.Geometry.Arith.{ceil_log2}
use opthash_rs.Geometry.Config.{
  PaperConfig, ConfigError, new, max_insertions, level_count, level_lengths, batch_quotas,
}
use opthash_rs.Geometry.Rounding.{ceil_log2_bounds}
use opthash_rs.Geometry.Levels.{level_lengths_plan}
use opthash_rs.Geometry.Quotas.{batch_quotas-sum}

abbrev pub max_elastic_slots : ℕ
max_elastic_slots = 2 ^ 32

abbrev pub max_levels : ℕ
max_levels = 32

-- The items that fit the buffer; more than `max_levels` of them panic.
unfoldable pub from_iter : List ℕ → Option (List ℕ)
from_iter items = if leb (length items) max_levels then some items else none

pub record ElasticGeometry : Type 0 where
  pub total_slots : ℕ
  pub max_insertions : ℕ
  pub level_capacities : List ℕ
  pub batch_plan : List ℕ

-- `expect` of a configuration.
abbrev pub expected : Result PaperConfig ConfigError → Option PaperConfig
expected (ok config) = some config
expected (err error) = none

unfoldable pub plan_geometry : ℕ → ReserveFraction → Option ElasticGeometry
unfolding from_iter
plan_geometry total_slots reserve = do
  config ← expected (new total_slots reserve.exponent)
  levels ← from_iter (level_lengths config)
  quotas ← from_iter (batch_quotas config)
  some (record {
    total_slots = total_slots;
    max_insertions = max_insertions config;
    level_capacities = levels;
    batch_plan = quotas;
  })

abbrev pub empty_geometry : ElasticGeometry
empty_geometry = record {
  total_slots = 0;
  max_insertions = 0;
  level_capacities = [];
  batch_plan = [];
}

abbrev pub single_geometry : ElasticGeometry
single_geometry = record {
  total_slots = 1;
  max_insertions = 1;
  level_capacities = 1 ∷ [];
  batch_plan = 1 ∷ [];
}

unfoldable pub for_slots : ℕ → ReserveFraction → Option (Option ElasticGeometry)
for_slots total_slots reserve =
    if ltb max_elastic_slots total_slots
    then some none
    else if total_slots == 0
    then some (some empty_geometry)
    else if total_slots == 1
    then some (some single_geometry)
    else plan_geometry total_slots reserve >>= λ geometry. some (some geometry)

-- The slot count of a request; `capacity_for` gives its own outer option for its fuel.
-- `INITIAL_CAPACITY` is 8 or 16 with the platform.
unfoldable pub for_insert_budget : ℕ → ℕ → ReserveFraction → Option (Option ElasticGeometry)
unfolding for_slots
for_insert_budget initial_capacity requested reserve =
    let slots : Option (Option ℕ) =
      if requested == 0 then some (some 0) else capacity_for initial_capacity requested reserve in
    slots >>= λ total. elim total [
      | none ↦ some none
      | some total_slots ↦ for_slots total_slots reserve
    ]

-- A shape whose levels share out the slots and whose quotas share out the budget.
pub record Shared (total_slots : ℕ) (g : ElasticGeometry) : Type 0 where
  pub slots : g.total_slots ≡ total_slots
  pub levels : sum g.level_capacities ≡ total_slots
  pub quotas : sum g.batch_plan ≡ g.max_insertions
  pub limit : g.max_insertions ≤ total_slots
  pub same_length : length g.batch_plan ≡ length g.level_capacities
  pub few : length g.level_capacities ≤ max_levels

ceil_log2-le : (v : ℕ) → 2 ≤ v → v ≤ 2 ^ 32 → ceil_log2 v ≤ 32
ceil_log2-le v h k = elim (Bool-cases (ltb 32 (ceil_log2 v))) [
  | inr few ↦ ltb→le _ _ few
  | inl many ↦
      let b = ceil_log2_bounds v h in
      let m = pow2_mono 33 (ceil_log2 v) (ltb→lt _ _ many) in absurd (omega (arith, b.1))
]

expected-new :
    (n : ℕ) (reserve : ReserveFraction)
    → 2 ≤ n
    → 1 ≤ reserve.exponent
    → expected (new n reserve.exponent)
      ≡ some (record { n = n; reserve_exponent = reserve.exponent })
unfolding new
expected-new n reserve h k = ground arith

from_iter-few : (items : List ℕ) → length items ≤ max_levels → from_iter items ≡ some items
unfolding from_iter
from_iter-few items h = let f = le→leb (length items) max_levels h in rw f refl

max_insertions-le : (config : PaperConfig) → max_insertions config ≤ config.n
unfolding max_insertions
max_insertions-le config = omega arith

plan_geometry-Shared :
    (n : ℕ) (reserve : ReserveFraction)
    → 2 ≤ n
    → n ≤ max_elastic_slots
    → 1 ≤ reserve.exponent
    → (g : ElasticGeometry) × (plan_geometry n reserve ≡ some g) × Shared n g
unfolding plan_geometry
plan_geometry-Shared n reserve h fits k =
    let config : PaperConfig = record { n = n; reserve_exponent = reserve.exponent } in
    let levels = level_lengths_plan config h in
    let quotas = batch_quotas-sum config h k in
    let count : level_count config ≤ max_levels = unfold level_count in ceil_log2-le n h fits in
    let few : length (level_lengths config) ≤ max_levels = omega (arith, levels.0) in
    let few' : length (batch_quotas config) ≤ max_levels = omega (arith, quotas.0) in
    let g : ElasticGeometry = record {
      total_slots = n;
      max_insertions = max_insertions config;
      level_capacities = level_lengths config;
      batch_plan = batch_quotas config;
    } in
    (
      g,
      rw
          (
            expected-new n reserve h k,
            from_iter-few (level_lengths config) few,
            from_iter-few (batch_quotas config) few',
          )
          refl,
      record {
        slots = refl;
        levels = levels.1;
        quotas = quotas.1;
        limit = max_insertions-le config;
        same_length = quotas.0 ∙ sym levels.0;
        few = few;
      },
    )

-- For a positive reserve exponent and up to `2 ^ 32` slots, `for_slots` does not panic and gives a
-- geometry of at most 32 levels that share out the slots, with as many quotas, which share out the
-- insertion budget, and that budget is at most the slots.
pub for_slots-Shared :
    (total_slots : ℕ) (reserve : ReserveFraction)
    → 1 ≤ reserve.exponent
    → total_slots ≤ max_elastic_slots
    → (g : ElasticGeometry) × (for_slots total_slots reserve ≡ some (some g)) × Shared total_slots g
unfolding for_slots
for_slots-Shared zero reserve k fits = (
  empty_geometry,
  refl,
  record {
    slots = refl;
    levels = refl;
    quotas = refl;
    limit = omega arith;
    same_length = refl;
    few = omega arith;
  },
)
for_slots-Shared (suc zero) reserve k fits = (
  single_geometry,
  refl,
  record {
    slots = refl;
    levels = refl;
    quotas = refl;
    limit = omega arith;
    same_length = refl;
    few = omega arith;
  },
)
for_slots-Shared (suc (suc m)) reserve k fits =
    let n = suc (suc m) in
    let (g, planned, shared) = plan_geometry-Shared n reserve (omega arith) fits k in
    let within : ltb max_elastic_slots n ≡ false = le→ltb _ _ fits in
    let two : (n == 0) ≡ false = ground arith in
    let three : (n == 1) ≡ false = ground arith in
    (g, rw (within, two, three, planned) refl, shared)
