-- ===== src/Elastic/Schedule.antt =====
-- elastic.rs: the lookup schedule. `none` is a panic of an `expect` or an `assert`.
use opthash_rs.Prelude.{
  ℕ, zero, suc, ◌+◌, ◌-◌, ◌/◌, ◌^◌, true, false, Option, none, some, List, [], ◌∷◌, ◌++◌, length,
  get_elem?, ok, err, ltb, leb, ◌==◌, ◌&&◌, if◌then◌else◌, ◌>>=◌, bit_and, bit_or, checked, u32_mod,
}
use opthash_rs.Probe.Phi.{elastic_phi}
use opthash_rs.Probe.Counter.{try_pack_elastic_counter, elastic_counter_level}

abbrev pub uniform_search_cap : ℕ
uniform_search_cap = 4096

abbrev pub query_position_cap : ℕ
query_position_cap = 1_000_000

abbrev pub query_probe_limit : ℕ
query_probe_limit = 384

abbrev pub exceptional_placement_flag : ℕ
exceptional_placement_flag = 2 ^ 31

pub record PhiRoute : Type 0 where
  pub range_upper : ℕ
  pub counter_base : ℕ

unfoldable pub route_level : PhiRoute → ℕ
unfolding elastic_counter_level
route_level route = elastic_counter_level route.counter_base

-- The loop from `paper_probe` on, with the probes up to `uniform_search_cap` left to visit.
unfoldable pub phi_routes : ℕ → ℕ → ℕ → ℕ → Option (List (ℕ × ℕ))
phi_routes paper_level position_cap zero paper_probe = some []
phi_routes paper_level position_cap (suc left) paper_probe =
    elim (elastic_phi paper_level paper_probe) [
      | err error ↦ none
      | ok phi ↦ elim (ltb position_cap phi) [
        | true ↦ some []
        | false ↦ phi_routes paper_level position_cap left (paper_probe + 1) >>= λ rest.
            some ((paper_probe, phi) ∷ rest)
      ]
    ]

-- What the closure of `for_each_phi_route` is called with.
unfoldable pub for_each_phi_route : ℕ → ℕ → ℕ → Option (List (ℕ × ℕ))
for_each_phi_route level from_probe position_cap =
    let paper_probe = if level == 0 && from_probe == 1 then 2 else from_probe in
    phi_routes (level + 1) position_cap (uniform_search_cap + 1 - paper_probe) paper_probe

-- The loop of `level_route_count`, and the constant tables it fills.
unfoldable pub route_count_loop : ℕ → ℕ → ℕ → ℕ → Option ℕ
route_count_loop paper_level zero paper_probe count = some count
route_count_loop paper_level (suc left) paper_probe count =
    elim (elastic_phi paper_level paper_probe) [
      | err error ↦ none
      | ok phi ↦ elim (ltb query_position_cap phi) [
        | true ↦ some count
        | false ↦ route_count_loop paper_level left (paper_probe + 1) (count + 1)
      ]
    ]

unfoldable pub level_route_count : ℕ → Option ℕ
level_route_count level =
    let paper_probe = if level == 0 then 2 else 1 in
    route_count_loop (level + 1) (uniform_search_cap + 1 - paper_probe) paper_probe 0

unfoldable pub level_probe_limit : ℕ → Option ℕ
level_probe_limit level =
    level_route_count level >>= λ count. some (count + (if level == 0 then 1 else 0))

-- The binary search; 13 steps are enough for 4096 probes.
unfoldable pub probe_search : ℕ → ℕ → ℕ → ℕ → ℕ → Option ℕ
probe_search paper_level position zero lower upper = some lower
probe_search paper_level position (suc fuel) lower upper =
    let middle = lower + (upper - lower) / 2 in
    elim (ltb lower upper) [
      | false ↦ some lower
      | true ↦ elim (elastic_phi paper_level middle) [
        | err error ↦ none
        | ok phi ↦ elim (leb phi position) [
          | true ↦ probe_search paper_level position fuel (middle + 1) upper
          | false ↦ probe_search paper_level position fuel lower middle
        ]
      ]
    ]

unfoldable pub first_paper_probe_after : ℕ → ℕ → Option ℕ
first_paper_probe_after paper_level position =
    probe_search paper_level position 13 1 (uniform_search_cap + 1)

-- The closure's body: a route that holds its position in `range_upper`.
unfoldable pub pushed_route : ℕ → ℕ × ℕ → Option PhiRoute
pushed_route level (paper_probe, phi) = elim (leb query_probe_limit (paper_probe - 1)) [
  | true ↦ none
  | false ↦ do
    counter_base ← try_pack_elastic_counter level (paper_probe - 1) 0
    range_upper ← checked u32_mod phi
    some (record { range_upper = range_upper; counter_base = counter_base })
]

unfoldable pub push_all : ℕ → List (ℕ × ℕ) → Option (List PhiRoute)
push_all level [] = some []
push_all level (visit ∷ visits) = do
  route ← pushed_route level visit
  routes ← push_all level visits
  some (route ∷ routes)

-- The routes of `count` levels from `level` on.
unfoldable pub new_routes : ℕ → ℕ → ℕ → ℕ → Option (List PhiRoute)
new_routes prior high_water level zero = some []
new_routes prior high_water level (suc count) = do
  from_probe ← first_paper_probe_after (level + 1) prior
  visits ← for_each_phi_route level from_probe high_water
  routes ← push_all level visits
  more ← new_routes prior high_water (level + 1) count
  some (routes ++ more)

-- `sort_unstable_by_key` on the position.
unfoldable pub insert_route : PhiRoute → List PhiRoute → List PhiRoute
insert_route route [] = route ∷ []
insert_route route (other ∷ routes) =
    let rest = insert_route route routes in
    if leb route.range_upper other.range_upper then route ∷ other ∷ routes else other ∷ rest

unfoldable pub sort_routes : List PhiRoute → List PhiRoute
unfolding insert_route
sort_routes [] = []
sort_routes (route ∷ routes) = insert_route route (sort_routes routes)

-- The last loop: each position gives way to the capacity of the route's level.
unfoldable pub bound_routes : List ℕ → List PhiRoute → Option (List PhiRoute)
unfolding route_level
bound_routes capacities [] = some []
bound_routes capacities (route ∷ routes) = do
  upper ← get_elem? capacities (route_level route)
  rest ← bound_routes capacities routes
  some (record route { range_upper = upper } ∷ rest)

-- The two fields that `extend_probe_schedule` changes.
pub record QuerySchedule : Type 0 where
  pub probe_high_water : ℕ
  pub probe_schedule : List PhiRoute

unfoldable pub prior_high_water : ℕ → ℕ
prior_high_water probe_high_water =
    bit_and probe_high_water (u32_mod - 1 - exceptional_placement_flag)

unfoldable pub extend_schedule : List ℕ → ℕ → QuerySchedule → Option QuerySchedule
extend_schedule capacities high_water s =
    let prior = prior_high_water s.probe_high_water in
    elim (ltb query_position_cap high_water) [
      | true ↦ none
      | false ↦ elim (leb high_water prior) [
        | true ↦ some s
        | false ↦ do
          routes ← new_routes prior high_water 0 (length capacities)
          bounded ← bound_routes capacities (sort_routes routes)
          some (record {
            probe_high_water =
                bit_or (bit_and s.probe_high_water exceptional_placement_flag) high_water;
            probe_schedule = s.probe_schedule ++ bounded;
          })
      ]
    ]
