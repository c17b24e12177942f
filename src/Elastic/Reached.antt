-- ===== src/Elastic/Reached.antt =====
-- elastic.rs: the slot that a search for a vacancy returns.
use opthash_rs.Prelude.{
  ℕ, zero, suc, ◌+◌, ◌*◌, ◌≤◌, ◌<◌, ◌≡◌, refl, inl, inr, arith, Bool-cases, false, Option, none,
  some, Option-cases, List, length, get_elem?, ltb, leb, ◌==◌, ltb→le, ◌>>=◌, bind_some, checked,
  min, Result, ok, err, u64_mod, saturating,
}
use mathlib.Core.Path.{subst}
use opthash_rs.Reserve.{ReserveFraction, floor_half_reserved}
use opthash_rs.Probe.Mix.{PreparedElasticProbe}
use opthash_rs.Probe.Phi.{ElasticProbeBudgetError, elastic_dyadic_probe_budget}
use opthash_rs.Probe.PhiValue.{phi_value}
use opthash_rs.Elastic.Modify.{get_below}
use opthash_rs.Elastic.Scheduler.{BatchTarget, bootstrap, level_pair}
use opthash_rs.Elastic.Schedule.{
  query_position_cap, route_count_loop, level_route_count, level_probe_limit,
}
use opthash_rs.Elastic.Search.{phi_there}
use opthash_rs.Elastic.Visits.{near_probe}
use opthash_rs.Elastic.Level.{Level, capacity, free_slots}
use opthash_rs.Elastic.Table.{vacancy}
use opthash_rs.Elastic.Choose.{
  elastic_probe_budget_c, Vacancy, find_vacancy, uniform_vacancy, budget_vacancy, pair_vacancy,
  target_vacancy,
}

route_count-le :
    (level left p count : ℕ) {n : ℕ}
    → level < 32
    → 0 < p
    → p ≤ 384
    → route_count_loop (level + 1) left p count ≡ some n
    → n + p ≤ count + 384
unfolding route_count_loop
route_count-le level zero p count {n} h pos few e = let same : count ≡ n = cc in omega arith
route_count-le level (suc left) p count {n} h pos few e =
    let there = phi_there level p h pos (omega arith) in
    elim (Bool-cases (ltb query_position_cap (phi_value (level + 1) p))) [
      | inl over ↦
          let stop = rw (there, over, route_count_loop) at e in
          let same : count ≡ n = cc in omega arith
      | inr within ↦
          let next = rw (there, within, route_count_loop) at e in
          let near = near_probe level p (ltb→le _ _ within) in
          omega (
            arith,
            route_count-le level left (p + 1) (count + 1) h (omega arith) (omega arith) next,
          )
    ]

limit-le : (level : ℕ) {limit : ℕ} → level < 32 → level_probe_limit level ≡ some limit → limit ≤ 383
unfolding level_probe_limit level_route_count
limit-le zero {limit} h e =
    let (n, counted, total) = bind_some (route_count_loop 1 4095 2 0) _ e in
    let bound = route_count-le 0 4095 2 0 h (omega arith) (omega arith) counted in
    let same : n + 1 ≡ limit = cc in omega arith
limit-le (suc level) {limit} h e =
    let deep : (suc level == 0) ≡ false = ground arith in
    let (n, counted, total) =
      bind_some (route_count_loop (suc level + 1) 4096 1 0) (λ n. some (n + 0)) (rw deep at e) in
    let bound = route_count-le (suc level) 4096 1 0 h (omega arith) (omega arith) counted in
    let same : n + 0 ≡ limit = cc in omega arith

module _ {ℓ} {K V : Type ℓ} where
  -- A free slot that a probe reached.
  pub record Reached (levels : List (Level K V)) (probe : PreparedElasticProbe) (found : Vacancy)
      : Type ℓ where
    pub index : ℕ
    pub numbered : found.paper_probe ≡ index + 1
    pub few : index < 383
    pub vacant : vacancy levels found.level probe index ≡ some found.slot

  find_vacancy-Reached :
      (levels : List (Level K V)) (probe : PreparedElasticProbe) (level count index : ℕ)
      {found : Vacancy}
      → index + count ≤ 383
      → find_vacancy levels probe level count index ≡ some found
      → Reached levels probe found
  unfolding find_vacancy
  find_vacancy-Reached levels probe level zero index few e = absurd (cc e)
  find_vacancy-Reached levels probe level (suc count) index {found} few e =
      elim (Option-cases (vacancy levels level probe index)) [
        | inl taken ↦
            find_vacancy-Reached levels probe level count (index + 1) (omega arith)
              (rw (taken, find_vacancy) at e)
        | inr (slot, vacant) ↦
            let found_here = rw (vacant, find_vacancy) at e in
            let same : record { level = level; slot = slot; paper_probe = index + 1 } ≡ found =
              cc in
            subst (Reached levels probe) same
              (record { index = index; numbered = refl; few = omega arith; vacant = vacant })
      ]

  uniform-Reached :
      (levels : List (Level K V)) (probe : PreparedElasticProbe) (level : ℕ) {found : Vacancy}
      → level < 32
      → uniform_vacancy levels probe level ≡ some found
      → Reached levels probe found
  unfolding uniform_vacancy
  uniform-Reached levels probe level h e =
      let (limit, counted, run) = bind_some (level_probe_limit level) _ e in
      find_vacancy-Reached levels probe level limit 0 (omega (arith, limit-le level h counted)) run

  budget-Reached :
      (reserve : ReserveFraction) (levels : List (Level K V)) (probe : PreparedElasticProbe)
      (current : ℕ) (level : Level K V) {found : Vacancy}
      → current + 1 < 32
      → budget_vacancy reserve levels probe current level ≡ some found
      → Reached levels probe found
  unfolding budget_vacancy
  budget-Reached reserve levels probe current level {found} h e =
      elim (elastic_dyadic_probe_budget (free_slots level) (capacity level) reserve.exponent
            elastic_probe_budget_c)
          as (λ b. budget_part b ≡ some found → Reached levels probe found) [
            | err error ↦ λ e. absurd (cc e)
            | ok budget ↦ λ e.
                let (limit, counted, run) = bind_some (level_probe_limit current) _ e in
                let few = limit-le current (omega arith) counted in
                elim (Option-cases (find_vacancy levels probe current (min budget limit) 0)) [
                  | inl full ↦ uniform-Reached levels probe (current + 1) h (rw full at run)
                  | inr (vacancy_found, there) ↦
                      let same : vacancy_found ≡ found = cc (rw there at run) in
                      subst (Reached levels probe) same (
                        find_vacancy-Reached levels probe current (min budget limit) 0 (omega arith)
                          there)
                ]
          ]
        e
    where
      budget_part : Result ℕ ElasticProbeBudgetError → Option Vacancy
      budget_part b = elim b [
        | err error ↦ none
        | ok budget ↦ level_probe_limit current >>= λ limit.
            elim (find_vacancy levels probe current (min budget limit) 0) [
              | some found ↦ some found
              | none ↦ uniform_vacancy levels probe (current + 1)
            ]
      ]

  pair-Reached :
      (reserve : ReserveFraction) (levels : List (Level K V)) (probe : PreparedElasticProbe)
      (current : ℕ) {found : Vacancy}
      → length levels ≤ 32
      → pair_vacancy reserve levels probe current ≡ some found
      → Reached levels probe found
  unfolding pair_vacancy
  pair-Reached reserve levels probe current few e =
      let (next, fits, e) = bind_some (checked u64_mod (current + 1)) _ e in
      let (level, there, e) = bind_some (get_elem? levels current) _ e in
      let (next_level, next_there, e) = bind_some (get_elem? levels next) _ e in
      let after : next ≡ current + 1 = ground (arith, fits) in
      let below = get_below levels next next_there in
      elim (Bool-cases (leb (free_slots level) (floor_half_reserved reserve (capacity level)))) [
        | inl low ↦ uniform-Reached levels probe next (omega arith) (rw low at e)
        | inr room ↦
            let e' = rw room at e in
            elim (Bool-cases (leb (saturating (free_slots next_level * 4)) (capacity next_level))) [
              | inl low ↦ uniform-Reached levels probe current (omega arith) (rw low at e')
              | inr more ↦
                  budget-Reached reserve levels probe current level (omega arith) (rw more at e')
            ]
      ]

  pub target-Reached :
      (reserve : ReserveFraction) (levels : List (Level K V)) (probe : PreparedElasticProbe)
      (batch_target : BatchTarget) {found : Vacancy}
      → length levels ≤ 32
      → target_vacancy reserve levels probe batch_target ≡ some found
      → Reached levels probe found
  unfolding target_vacancy
  target-Reached reserve levels probe bootstrap few e =
      uniform-Reached levels probe 0 (omega arith) e
  target-Reached reserve levels probe (level_pair current) few e =
      pair-Reached reserve levels probe current few e
