-- ===== src/Elastic/Visits.antt =====
-- elastic.rs: what the loop over a level's probes visits, and the routes pushed for it.
use opthash_rs.Prelude.{
  ℕ, zero, suc, ◌+◌, ◌-◌, ◌^◌, ◌≤◌, ◌<◌, ◌≡◌, ◌≢◌, ◌⊎◌, refl, ap, sym, inl, inr, arith, Bool-cases,
  some, List, [], ◌∷◌, ltb, ◌==◌, ==_iff, ltb→lt, ltb→le, if◌then◌else◌, ◌&&◌, All,
}
use mathlib.Core.List.{Memᴰ}
use opthash_rs.Prelude.Log.{bit_length, bit_length_bounds, pow2-suc}
use opthash_rs.Probe.PhiValue.{phi_value, pair_code}
use opthash_rs.Elastic.Schedule.{
  uniform_search_cap, query_position_cap, phi_routes, for_each_phi_route,
}
use opthash_rs.Elastic.Search.{phi_there, phi_mono}

-- A probe below the search cap, with its position.
abbrev pub Visited : ℕ → ℕ → ℕ × ℕ → Type 0
Visited level bound visit =
    (0 < visit.0)
    × (visit.0 ≤ uniform_search_cap)
    × (visit.1 ≡ phi_value (level + 1) visit.0)
    × (visit.1 ≤ bound)

-- The visits of a level from a probe on.
pub record Visits (level bound from end : ℕ) (visits : List (ℕ × ℕ)) : Type 0 where
  pub sound : All (Visited level bound) visits
  pub complete :
      (q : ℕ)
      → from ≤ q
      → q < end
      → phi_value (level + 1) q ≤ bound
      → Memᴰ (q, phi_value (level + 1) q) visits

phi_routes-Visits :
    (level bound left from : ℕ)
    → level < 32
    → 0 < from
    → from + left ≤ uniform_search_cap + 1
    → (visits : List (ℕ × ℕ)) × (phi_routes (level + 1) bound left from ≡ some visits)
      × Visits level bound from (from + left) visits
unfolding phi_routes
phi_routes-Visits level bound zero from h pos few =
    ([], refl, record { sound = tt; complete = λ q ge lt low. absurd (omega arith) })
phi_routes-Visits level bound (suc left) from h pos few =
    let there = phi_there level from h pos (omega arith) in
    elim (Bool-cases (ltb bound (phi_value (level + 1) from))) [
      | inl over ↦
          let above = ltb→lt _ _ over in
          (
            [],
            rw (there, over, phi_routes) refl,
            record {
              sound = tt;
              complete = λ q ge lt low. absurd (omega (arith, phi_mono (level + 1) from q pos ge));
            },
          )
      | inr within ↦
          let (visits, e, more) =
            phi_routes-Visits level bound left (from + 1) h (omega arith) (omega arith) in
          (
            (from, phi_value (level + 1) from) ∷ visits,
            rw (there, within, e, phi_routes) refl,
            record {
              sound = ((pos, omega arith, refl, ltb→le _ _ within), more.sound);
              complete = λ q ge lt low. elim (Bool-cases (from == q)) [
                | inl same ↦
                    let eq : q ≡ from = sym ((==_iff from q).0 same) in
                    Memᴰ.head (ap (λ (p : ℕ). (p, phi_value (level + 1) p)) eq)
                | inr other ↦
                    let ne : from ≢ q = λ eq. ground arith in
                    Memᴰ.tail (more.complete q (omega arith) (omega arith) low)
              ];
            },
          )
    ]

abbrev pub start_probe : ℕ → ℕ → ℕ
start_probe level from = if level == 0 && from == 1 then 2 else from

-- The first slot of level zero has no route: the lookup starts there.
abbrev pub Routed : ℕ → ℕ → Type 0
Routed level q = (0 < level) ⊎ (1 < q)

pub for_each-Visits :
    (level from bound : ℕ)
    → level < 32
    → 0 < from
    → from ≤ uniform_search_cap + 1
    → (visits : List (ℕ × ℕ)) × (for_each_phi_route level from bound ≡ some visits)
      × Visits level bound (start_probe level from) (uniform_search_cap + 1) visits
unfolding for_each_phi_route
for_each-Visits level from bound h pos few =
    let start = start_probe level from in
    let positive : 0 < start = ground arith in
    let capped : start ≤ uniform_search_cap + 1 = ground arith in
    let (visits, e, v) =
      phi_routes-Visits level bound (uniform_search_cap + 1 - start) start h positive
        (omega arith) in
    (
      visits,
      e,
      record { sound = v.sound; complete = λ q ge lt low. v.complete q ge (omega arith) low },
    )

-- Probes with a position up to the cap are few.
far_probe : (level q : ℕ) → 384 ≤ q → query_position_cap < phi_value (level + 1) q
unfolding phi_value bit_length
far_probe level q h =
    let i = level + 1 in
    let code : pair_code (bit_length 384) 384 ≡ 256682 = refl in
    let b = bit_length_bounds i (omega arith) in
    let four : 4 ≤ 2 ^ suc (bit_length i) = omega (arith, pow2-suc (bit_length i)) in
    let first : query_position_cap < phi_value i 384 = omega arith in
    omega (arith, phi_mono i 384 q (omega arith) h)

pub near_probe : (level q : ℕ) → phi_value (level + 1) q ≤ query_position_cap → q < 384
near_probe level q h = elim (Bool-cases (ltb q 384)) [
  | inl less ↦ ltb→lt _ _ less
  | inr ge ↦ absurd (omega (arith, far_probe level q (ltb→le _ _ ge)))
]
