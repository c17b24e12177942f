-- ===== src/Elastic/Extend.antt =====
-- elastic.rs: the schedule after `extend_probe_schedule`.
use opthash_rs.Prelude.{
  ℕ, ◌+◌, ◌-◌, ◌*◌, ◌/◌, ◌%◌, ◌^◌, max, ◌≤◌, ◌<◌, ◌≡◌, refl, inl, inr, arith, Bool-cases, some,
  List, ◌++◌, length, get_elem?, leb, le→ltb, leb→le, leb→lt, bit_and, bit_or,
}
use opthash_rs.Prelude.Bits.{bit_and_mask, bit_and_field, bit_or_fields}
use mathlib.Core.List.Memᴰ
use mathlib.Core.List.{Memᴰ}
use opthash_rs.Probe.Counter.{elastic_counter_base}
use opthash_rs.Probe.PhiValue.{phi_value}
use opthash_rs.Elastic.Modify.{get_below}
use opthash_rs.Elastic.Schedule.{
  PhiRoute, QuerySchedule, query_position_cap, exceptional_placement_flag, route_level, sort_routes,
  prior_high_water, extend_schedule,
}
use opthash_rs.Elastic.Bounds.{Bounded, sort_routes-mem, sort_routes-All, bound_routes-BoundRoutes}
use opthash_rs.Elastic.Visits.{Routed, near_probe}
use opthash_rs.Elastic.Pushed.{route_at, All-append, new_routes-Routes}

-- The two parts of the high-water word.
pub prior_value : (w : ℕ) → prior_high_water w ≡ w % 2 ^ 31
unfolding prior_high_water
prior_value w = bit_and_mask 31 w

pub flag_value : (w : ℕ) → bit_and w exceptional_placement_flag ≡ w / 2 ^ 31 % 2 * 2 ^ 31
flag_value w = bit_and_field 31 1 w

water_value :
    (w high : ℕ)
    → high < 2 ^ 31
    → bit_or (bit_and w exceptional_placement_flag) high ≡ w / 2 ^ 31 % 2 * 2 ^ 31 + high
water_value w high h = rw (flag_value w) (bit_or_fields 31 (w / 2 ^ 31 % 2) high h)

pub water_prior :
    (w high : ℕ)
    → high < 2 ^ 31
    → prior_high_water (bit_or (bit_and w exceptional_placement_flag) high) ≡ high
water_prior w high h =
    omega (
      arith,
      prior_value (bit_or (bit_and w exceptional_placement_flag) high),
      water_value w high h,
    )

pub water_flag :
    (w high : ℕ)
    → high < 2 ^ 31
    → bit_and (bit_or (bit_and w exceptional_placement_flag) high) exceptional_placement_flag
      ≡ bit_and w exceptional_placement_flag
water_flag w high h =
    let v = water_value w high h in
    omega (arith, flag_value (bit_or (bit_and w exceptional_placement_flag) high), flag_value w)

-- Every route of a position up to the high water is there.
abbrev pub Scheduled : List ℕ → QuerySchedule → Type 0
Scheduled capacities s =
    (level q upper : ℕ)
    → get_elem? capacities level ≡ some upper
    → 0 < q
    → Routed level q
    → phi_value (level + 1) q ≤ prior_high_water s.probe_high_water
    → Memᴰ (record { range_upper = upper; counter_base = elastic_counter_base level (q - 1) })
        s.probe_schedule

-- What an extension leaves and what it adds.
pub record Extended (capacities : List ℕ) (high : ℕ) (s s' : QuerySchedule) : Type 0 where
  pub water : prior_high_water s'.probe_high_water ≡ max (prior_high_water s.probe_high_water) high
  pub flag :
      bit_and s'.probe_high_water exceptional_placement_flag
      ≡ bit_and s.probe_high_water exceptional_placement_flag
  pub kept : (r : PhiRoute) → Memᴰ r s.probe_schedule → Memᴰ r s'.probe_schedule
  pub bounded : Bounded capacities s.probe_schedule → Bounded capacities s'.probe_schedule
  pub scheduled : Scheduled capacities s → Scheduled capacities s'

-- Extending the schedule of at most 32 levels to a position up to the cap does not panic. It leaves
-- the exceptional flag and every route, raises the high water to that position if it was lower,
-- gives each new route the capacity of the level it names as its bound, and if the schedule had a
-- route for each probe of a level with a position up to the high water before, but the first probe
-- of level zero, then so it has after.
pub extend_schedule-Extended :
    (capacities : List ℕ) (high : ℕ) (s : QuerySchedule)
    → length capacities ≤ 32
    → high ≤ query_position_cap
    → (s' : QuerySchedule) × (extend_schedule capacities high s ≡ some s')
      × Extended capacities high s s'
unfolding extend_schedule
extend_schedule-Extended capacities high s few capped =
    let over = le→ltb query_position_cap high capped in
    let prior = prior_high_water s.probe_high_water in
    elim (Bool-cases (leb high prior)) [
      | inl known ↦
          let low = leb→le high prior known in
          (
            s,
            rw (over, known, extend_schedule) refl,
            record {
              water = omega arith;
              flag = refl;
              kept = λ r m. m;
              bounded = λ b. b;
              scheduled = λ c. c;
            },
          )
      | inr further ↦
          let more = leb→lt high prior further in
          let all : 0 + length capacities ≡ length capacities = omega arith in
          let (routes, pushed, r') =
            new_routes-Routes prior high 0 (length capacities) (omega arith) capped in
          let r = rw all at r' in
          let (bounded, bound, b) =
            bound_routes-BoundRoutes capacities (sort_routes routes)
              (sort_routes-All (λ route. route_level route < length capacities) routes r.sound) in
          let water = water_prior s.probe_high_water high (omega arith) in
          (
            record {
              probe_high_water =
                  bit_or (bit_and s.probe_high_water exceptional_placement_flag) high;
              probe_schedule = s.probe_schedule ++ bounded;
            },
            rw (over, further, pushed, bound, extend_schedule) refl,
            record {
              water = omega arith;
              flag = water_flag s.probe_high_water high (omega arith);
              kept = λ route m. Memᴰ.append_left bounded m;
              bounded = λ old.
                  All-append
                    (λ route. get_elem? capacities (route_level route) ≡ some route.range_upper)
                    s.probe_schedule bounded old b.sound;
              scheduled = λ old level q upper there pos routed low.
                  elim (Bool-cases (leb (phi_value (level + 1) q) prior)) [
                    | inl before ↦
                        Memᴰ.append_left bounded
                          (old level q upper there pos routed (leb→le _ _ before))
                    | inr after ↦
                        let below = get_below capacities level there in
                        let low' : phi_value (level + 1) q ≤ high = omega arith in
                        let near = near_probe level q (omega arith) in
                        Memᴰ.append_right s.probe_schedule (
                          b.complete level (q - 1) upper (phi_value (level + 1) q) (omega arith)
                            (omega arith) there
                            (sort_routes-mem (route_at level (q, phi_value (level + 1) q)) routes (
                              r.complete level q (omega arith) below pos routed (leb→lt _ _ after)
                                low')))
                  ];
            },
          )
    ]
