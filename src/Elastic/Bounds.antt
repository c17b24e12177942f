-- ===== src/Elastic/Bounds.antt =====
-- elastic.rs: the sort of the new routes, and the loop that bounds them.
use opthash_rs.Prelude.{
  ℕ, ◌<◌, ◌≡◌, refl, ap, sym, ◌∙◌, inl, inr, Bool-cases, some, List, [], ◌∷◌, length, get_elem?,
  leb, All,
}
use mathlib.Core.List.{Memᴰ}
use mathlib.Core.Path.{ap₂}
use opthash_rs.Probe.Counter.{elastic_counter_base}
use opthash_rs.Elastic.Modify.{some_elem}
use opthash_rs.Elastic.Schedule.{PhiRoute, route_level, insert_route, sort_routes, bound_routes}
use opthash_rs.Elastic.Pushed.{route_level-base}

insert_route-mem :
    (route r : PhiRoute) (routes : List PhiRoute)
    → Memᴰ r (route ∷ routes)
    → Memᴰ r (insert_route route routes)
unfolding insert_route
insert_route-mem route r [] m = m
insert_route-mem route r (other ∷ routes) m =
    elim (Bool-cases (leb route.range_upper other.range_upper)) [
      | inl here ↦ rw here m
      | inr later ↦ rw later (elim m [
        | Memᴰ.head e ↦ Memᴰ.tail (insert_route-mem route r routes (Memᴰ.head e))
        | Memᴰ.tail n ↦ elim n [
          | Memᴰ.head e ↦ Memᴰ.head e
          | Memᴰ.tail k ↦ Memᴰ.tail (insert_route-mem route r routes (Memᴰ.tail k))
        ]
      ])
    ]

insert_route-All :
    (P : PhiRoute → Type 0) (route : PhiRoute) (routes : List PhiRoute)
    → P route
    → All P routes
    → All P (insert_route route routes)
unfolding insert_route
insert_route-All P route [] p ps = (p, ps)
insert_route-All P route (other ∷ routes) p ps =
    elim (Bool-cases (leb route.range_upper other.range_upper)) [
      | inl here ↦ rw here (p, ps)
      | inr later ↦ rw later (ps.0, insert_route-All P route routes p ps.1)
    ]

pub sort_routes-mem :
    (r : PhiRoute) (routes : List PhiRoute) → Memᴰ r routes → Memᴰ r (sort_routes routes)
unfolding sort_routes
sort_routes-mem r [] m = m
sort_routes-mem r (route ∷ routes) (Memᴰ.head e) =
    insert_route-mem route r (sort_routes routes) (Memᴰ.head e)
sort_routes-mem r (route ∷ routes) (Memᴰ.tail m) =
    insert_route-mem route r (sort_routes routes) (Memᴰ.tail (sort_routes-mem r routes m))

pub sort_routes-All :
    (P : PhiRoute → Type 0) (routes : List PhiRoute) → All P routes → All P (sort_routes routes)
unfolding sort_routes
sort_routes-All P [] ps = ps
sort_routes-All P (route ∷ routes) ps =
    insert_route-All P route (sort_routes routes) ps.0 (sort_routes-All P routes ps.1)

-- Every route is bounded by the capacity of the level it names.
abbrev pub Bounded : List ℕ → List PhiRoute → Type 0
Bounded capacities routes =
    All (λ route. get_elem? capacities (route_level route) ≡ some route.range_upper) routes

-- The routes after the last loop.
pub record BoundRoutes (capacities : List ℕ) (routes bounded : List PhiRoute) : Type 0 where
  pub sound : Bounded capacities bounded
  pub complete :
      (level index upper phi : ℕ)
      → level < 32
      → index < 384
      → get_elem? capacities level ≡ some upper
      → Memᴰ (record { range_upper = phi; counter_base = elastic_counter_base level index }) routes
      → Memᴰ
          (record { range_upper = upper; counter_base = elastic_counter_base level index })
          bounded

same_bound :
    (capacities : List ℕ) (route : PhiRoute) (level index u upper phi : ℕ)
    → level < 32
    → index < 384
    → record { range_upper = phi; counter_base = elastic_counter_base level index } ≡ route
    → get_elem? capacities level ≡ some u
    → get_elem? capacities (route_level route) ≡ some upper
    → record { range_upper = u; counter_base = elastic_counter_base level index }
      ≡ record route { range_upper = upper }
same_bound capacities route level index u upper phi h k same known there =
    let base = ap (λ (r : PhiRoute). r.counter_base) same in
    let named : route_level route ≡ level =
      sym (ap route_level same) ∙ route_level-base level index phi h k in
    let equal : some u ≡ some upper =
      sym known ∙ sym (ap (λ (l : ℕ). get_elem? capacities l) named) ∙ there in
    let bound : u ≡ upper = cc in
    ap₂ (λ (b c : ℕ). record { range_upper = b; counter_base = c }) bound base

pub bound_routes-BoundRoutes :
    (capacities : List ℕ) (routes : List PhiRoute)
    → All (λ route. route_level route < length capacities) routes
    → (bounded : List PhiRoute) × (bound_routes capacities routes ≡ some bounded)
      × BoundRoutes capacities routes bounded
unfolding bound_routes
bound_routes-BoundRoutes capacities [] all =
    ([], refl, record { sound = tt; complete = λ l i u p h k there m. elim m [ ] })
bound_routes-BoundRoutes capacities (route ∷ routes) (below, all) =
    let (upper, there) = some_elem capacities (route_level route) below in
    let (rest, e, b) = bound_routes-BoundRoutes capacities routes all in
    (
      record route { range_upper = upper } ∷ rest,
      rw (there, e, bound_routes) refl,
      record {
        sound = (there, b.sound);
        complete = λ level index u phi h k known m. elim m [
          | Memᴰ.head same ↦
              Memᴰ.head (same_bound capacities route level index u upper phi h k same known there)
          | Memᴰ.tail n ↦ Memᴰ.tail (b.complete level index u phi h k known n)
        ];
      },
    )
