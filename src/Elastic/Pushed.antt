-- ===== src/Elastic/Pushed.antt =====
-- elastic.rs: the routes that the loop over the levels pushes.
use opthash_rs.Prelude.{
  ℕ, zero, suc, ◌+◌, ◌-◌, ◌≤◌, ◌<◌, ◌≡◌, refl, ap, inl, inr, arith, Bool-cases, some, List, [], ◌∷◌,
  ◌++◌, map, ltb, ◌==◌, ==_iff, ltb→lt, ltb→le, lt→ltb, lt→leb, u32_mod, All,
}
use opthash_rs.Prelude.Bits.{bit_or-zero}
use mathlib.Core.List.Memᴰ
use mathlib.Core.List.{Memᴰ}
use mathlib.Core.Path.{subst}
use opthash_rs.Probe.Counter.{elastic_counter_base, try_pack_elastic_counter}
use opthash_rs.Probe.Packing.{try_pack_elastic-IsPacked, elastic_counter_level-pack}
use opthash_rs.Probe.PhiValue.{phi_value}
use opthash_rs.Elastic.Schedule.{
  PhiRoute, query_position_cap, route_level, pushed_route, push_all, new_routes,
  first_paper_probe_after, for_each_phi_route,
}
use opthash_rs.Elastic.Search.{first_paper_probe_after-FirstAfter}
use opthash_rs.Elastic.Visits.{Visited, Routed, start_probe, for_each-Visits, near_probe}

-- The route of a probe while it holds its position.
abbrev pub route_at : ℕ → ℕ × ℕ → PhiRoute
route_at level visit = record {
  range_upper = visit.1;
  counter_base = elastic_counter_base level (visit.0 - 1);
}

pack_there :
    (level index : ℕ)
    → level < 32
    → index < 384
    → try_pack_elastic_counter level index 0 ≡ some (elastic_counter_base level index)
unfolding try_pack_elastic_counter
pack_there level index h k =
    let a = lt→leb 32 level h in
    let b = lt→leb 8192 index (omega arith) in
    rw (a, b) (ap (λ (c : ℕ). some c) (bit_or-zero (elastic_counter_base level index)))

pub route_level-base :
    (level index : ℕ) (upper : ℕ)
    → level < 32
    → index < 384
    → route_level (record { range_upper = upper; counter_base = elastic_counter_base level index })
      ≡ level
unfolding route_level
route_level-base level index upper h k =
    elastic_counter_level-pack level index 0
      (try_pack_elastic-IsPacked level index 0 (pack_there level index h k))

pushed_route-at :
    (level bound : ℕ) (visit : ℕ × ℕ)
    → level < 32
    → bound ≤ query_position_cap
    → Visited level bound visit
    → pushed_route level visit ≡ some (route_at level visit)
unfolding pushed_route
pushed_route-at level bound (q, phi) h capped (pos, few, value, low) =
    let near = near_probe level q (omega arith) in
    let index = lt→leb 384 (q - 1) (omega arith) in
    let packed = pack_there level (q - 1) h (omega arith) in
    let fits = lt→ltb phi u32_mod (omega arith) in rw (index, packed, fits, pushed_route) refl

push_all-at :
    (level bound : ℕ) (visits : List (ℕ × ℕ))
    → level < 32
    → bound ≤ query_position_cap
    → All (Visited level bound) visits
    → push_all level visits ≡ some (map (route_at level) visits)
unfolding push_all
push_all-at level bound [] h capped all = refl
push_all-at level bound (visit ∷ visits) h capped all =
    let first = pushed_route-at level bound visit h capped all.0 in
    let rest = push_all-at level bound visits h capped all.1 in rw (first, rest, push_all) refl

Memᴰ-map :
    (level : ℕ) (visits : List (ℕ × ℕ)) {visit : ℕ × ℕ}
    → Memᴰ visit visits
    → Memᴰ (route_at level visit) (map (route_at level) visits)
Memᴰ-map level [] m = elim m [ ]
Memᴰ-map level (visit ∷ visits) (Memᴰ.head e) = Memᴰ.head (ap (route_at level) e)
Memᴰ-map level (visit ∷ visits) (Memᴰ.tail m) = Memᴰ.tail (Memᴰ-map level visits m)

-- The routes of some levels: each names its level, and none with a position between the two high
-- waters is missing.
pub record Routes (prior high from end : ℕ) (routes : List PhiRoute) : Type 0 where
  pub sound : All (λ route. route_level route < end) routes
  pub complete :
      (level q : ℕ)
      → from ≤ level
      → level < end
      → 0 < q
      → Routed level q
      → prior < phi_value (level + 1) q
      → phi_value (level + 1) q ≤ high
      → Memᴰ (route_at level (q, phi_value (level + 1) q)) routes

level_sound :
    (level end bound : ℕ) (visits : List (ℕ × ℕ))
    → level < 32
    → level < end
    → bound ≤ query_position_cap
    → All (Visited level bound) visits
    → All (λ route. route_level route < end) (map (route_at level) visits)
level_sound level end bound [] h k capped all = tt
level_sound level end bound ((q, phi) ∷ visits) h k capped ((pos, few, value, low), all) =
    let near = near_probe level q (omega arith) in
    (
      omega (arith, route_level-base level (q - 1) phi h (omega arith)),
      level_sound level end bound visits h k capped all,
    )

pub All-append :
    (P : PhiRoute → Type 0) (xs ys : List PhiRoute) → All P xs → All P ys → All P (xs ++ ys)
All-append P [] ys p q = q
All-append P (x ∷ xs) ys (p, ps) q = (p, All-append P xs ys ps q)

start_reached : (level from q : ℕ) → from ≤ q → Routed level q → start_probe level from ≤ q
start_reached level from q h (inl deep) = ground arith
start_reached level from q h (inr later) = ground arith

-- One level's part of the loop.
record LevelRoutes (prior high level end : ℕ) (routes : List PhiRoute) : Type 0 where
  from : ℕ
  searched : first_paper_probe_after (level + 1) prior ≡ some from
  visits : List (ℕ × ℕ)
  visited : for_each_phi_route level from high ≡ some visits
  pushed : push_all level visits ≡ some routes
  sound : All (λ route. route_level route < end) routes
  complete :
      (q : ℕ)
      → 0 < q
      → Routed level q
      → prior < phi_value (level + 1) q
      → phi_value (level + 1) q ≤ high
      → Memᴰ (route_at level (q, phi_value (level + 1) q)) routes

level_routes :
    (prior high level end : ℕ)
    → level < 32
    → level < end
    → high ≤ query_position_cap
    → (routes : List PhiRoute) × LevelRoutes prior high level end routes
level_routes prior high level end h k capped =
    let (from, searched, first) = first_paper_probe_after-FirstAfter level prior h in
    let (visits, visited, v) = for_each-Visits level from high h first.positive first.capped in
    (
      map (route_at level) visits,
      record {
        from = from;
        searched = searched;
        visits = visits;
        visited = visited;
        pushed = push_all-at level high visits h capped v.sound;
        sound = level_sound level end high visits h k capped v.sound;
        complete = λ q pos routed after low.
            let near = near_probe level q (omega arith) in
            let reached : from ≤ q = elim (Bool-cases (ltb q from)) [
              | inl before ↦ absurd (omega (arith, first.before q pos (ltb→lt _ _ before)))
              | inr ge ↦ ltb→le _ _ ge
            ] in
            Memᴰ-map level visits
              (v.complete q (start_reached level from q reached routed) (omega arith) low);
      },
    )

pub new_routes-Routes :
    (prior high level count : ℕ)
    → level + count ≤ 32
    → high ≤ query_position_cap
    → (routes : List PhiRoute) × (new_routes prior high level count ≡ some routes)
      × Routes prior high level (level + count) routes
unfolding new_routes
new_routes-Routes prior high level zero few capped =
    ([], refl, record { sound = tt; complete = λ l q ge lt. absurd (omega arith) })
new_routes-Routes prior high level (suc count) few capped =
    let end = level + suc count in
    let (here, one) = level_routes prior high level end (omega arith) (omega arith) capped in
    let (more, rest, r) = new_routes-Routes prior high (level + 1) count (omega arith) capped in
    let below : level + suc count ≡ level + 1 + count = omega arith in
    (
      here ++ more,
      rw (one.searched, one.visited, one.pushed, rest, new_routes) refl,
      record {
        sound =
            All-append (λ route. route_level route < end) here more one.sound (rw below r.sound);
        complete = λ l q ge lt pos routed after low. elim (Bool-cases (level == l)) [
          | inl same ↦
              let e = (==_iff level l).0 same in
              subst
                (λ (t : ℕ).
                  Routed t q
                  → prior < phi_value (t + 1) q
                  → phi_value (t + 1) q ≤ high
                  → Memᴰ (route_at t (q, phi_value (t + 1) q)) (here ++ more))
                e
                (λ routed' after' low'.
                  Memᴰ.append_left more (one.complete q pos routed' after' low'))
                routed after low
          | inr other ↦
              Memᴰ.append_right here
                (r.complete l q (ground arith) (omega arith) pos routed after low)
        ];
      },
    )
