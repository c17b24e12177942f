-- ===== src/Elastic/Walk.antt =====
-- elastic.rs: the lookup of a key that is there.
use opthash_rs.Prelude.{
  ℕ, ◌-◌, ◌<◌, ◌≡◌, refl, ap, sym, ◌∙◌, inl, inr, arith, Bool-cases, true, false, Option, none,
  some, Option-cases, List, [], ◌∷◌, get_elem?, ◌==◌, ◌<<<◌, bit_and,
}
use mathlib.Core.List.{Memᴰ}
use opthash_rs.Elastic.Filter.{PreparedElasticKey, expanded_level_mask, route_filter}
use opthash_rs.Elastic.Recorded.{Kept, route_filter-Kept}
use opthash_rs.Elastic.Schedule.{PhiRoute, route_level}
use opthash_rs.Elastic.Key.{Hashing}
use opthash_rs.Elastic.Level.{SlotEntry, Level, capacity}
use opthash_rs.Elastic.Table.{
  ElasticTable, Hit, h11_counter_base, route_prepared_counter_for_upper, entry_if_match,
  find_by_full_scan, walk_schedule, find_beyond_first, find_from_first, find_by_exact_schedule,
}
use opthash_rs.Elastic.Routed.{ByRoutes, Reachable, bit_masked}
use opthash_rs.Elastic.Match.{
  Matches, control_at-below, Matches-entry_if_match, scan_levels_complete,
}

module _ {ℓ} {K V : Type ℓ} ⦃keys : Hashing K⦄ (t : ElasticTable K V) (key : K)
    (prepared : PreparedElasticKey) (key_fingerprint : ℕ) where
  abbrev Finds : Option (Hit K V) → Type ℓ
  Finds found = (hit : Hit K V) × (found ≡ some hit)

  module _ (level slot : ℕ) (entry : SlotEntry K V)
      (m : Matches t.levels key_fingerprint key level slot entry) where
    full_scan_complete : Finds (find_by_full_scan t key key_fingerprint)
    unfolding find_by_full_scan
    full_scan_complete =
        let s = m.0 in
        let whole : level - 0 ≡ level = omega arith in
        scan_levels_complete t.levels key_fingerprint key t.levels 0 level slot s.at m
          (control_at-below s.at slot s.held) (omega arith) (rw whole s.there)

    -- A walk finds something if its routes lead to the location, or the full scan follows.
    walk_complete :
        (level_mask : ℕ) (routes : List PhiRoute)
        → (bit_and level_mask (1 <<< level) == 0) ≡ false
        → ByRoutes t prepared level slot routes
        → Finds (walk_schedule t key prepared key_fingerprint level_mask routes)
    unfolding walk_schedule
    walk_complete level_mask [] masked (inl exceptional) =
        let (hit, run) = full_scan_complete in (hit, rw (exceptional, walk_schedule) run)
    walk_complete level_mask [] masked (inr (route, there, _, _)) = elim there [ ]
    walk_complete level_mask (route ∷ routes) masked reach =
        elim (Bool-cases (bit_and level_mask (1 <<< route_level route) == 0)) [
          | inl skip ↦
              let (hit, run) = walk_complete level_mask routes masked (later skip reach) in
              (hit, rw (skip, walk_schedule) run)
          | inr visit ↦
              elim (Option-cases (
                route_prepared_counter_for_upper prepared.route route.counter_base
                  route.range_upper)) [
                    | inl rejected ↦
                        let (hit, run) = full_scan_complete in
                        (hit, rw (visit, rejected, walk_schedule) run)
                    | inr (s, routed) ↦
                        elim (Option-cases
                          (entry_if_match t.levels (route_level route) s key_fingerprint key)) [
                            | inr (e, there) ↦ (
                              record { level = route_level route; slot = s; entry = e },
                              rw (visit, routed, there, walk_schedule) refl,
                            )
                            | inl other ↦
                                let (hit, run) =
                                  walk_complete level_mask routes masked
                                    (passed s routed other reach) in
                                (hit, rw (visit, routed, other, walk_schedule) run)
                          ]
                  ]
        ]
      where
        later :
            (bit_and level_mask (1 <<< route_level route) == 0) ≡ true
            → ByRoutes t prepared level slot (route ∷ routes)
            → ByRoutes t prepared level slot routes
        later skip (inl exceptional) = inl exceptional
        later skip (inr (r, Memᴰ.tail there, named, routed')) = inr (r, there, named, routed')
        later skip (inr (r, Memᴰ.head same, named, routed')) =
            let at : route_level route ≡ level = sym (ap route_level same) ∙ named in
            absurd (cc (rw at at skip))

        passed :
            (s : ℕ)
            → route_prepared_counter_for_upper prepared.route route.counter_base route.range_upper
              ≡ some s
            → entry_if_match t.levels (route_level route) s key_fingerprint key ≡ none
            → ByRoutes t prepared level slot (route ∷ routes)
            → ByRoutes t prepared level slot routes
        passed s routed other (inl exceptional) = inl exceptional
        passed s routed other (inr (r, Memᴰ.tail there, named, routed')) =
            inr (r, there, named, routed')
        passed s routed other (inr (r, Memᴰ.head same, named, routed')) =
            let at : route_level route ≡ level = sym (ap route_level same) ∙ named in
            let to : route_prepared_counter_for_upper prepared.route route.counter_base
                  route.range_upper
                ≡ some slot =
              sym (
                ap
                  (λ (q : PhiRoute).
                    route_prepared_counter_for_upper prepared.route q.counter_base q.range_upper)
                  same)
              ∙ routed' in
            let slots : s ≡ slot = cc in
            absurd (
              cc (
                rw (at, slots, Matches-entry_if_match t.levels key_fingerprint key level slot m) at
                  other))

    beyond_complete :
        level < 32
        → Kept prepared level t.membership
        → ByRoutes t prepared level slot t.probe_schedule
        → Finds (find_beyond_first t key prepared key_fingerprint)
    unfolding find_beyond_first
    beyond_complete h kept reach =
        let (maybe, set) = route_filter-Kept prepared level t.membership h kept in
        let mask = expanded_level_mask (route_filter prepared t.membership) in
        let (hit, run) = walk_complete mask t.probe_schedule (bit_masked level mask set) reach in
        (hit, rw (maybe, find_beyond_first) run)

    first_complete :
        (first : Level K V) (rest : List (Level K V))
        → t.levels ≡ first ∷ rest
        → level < 32
        → Kept prepared level t.membership
        → Reachable t prepared level slot
        → Finds (find_from_first t key prepared key_fingerprint first)
    unfolding find_from_first
    first_complete first rest cons h kept reach =
        elim (Option-cases
          (route_prepared_counter_for_upper prepared.route h11_counter_base (capacity first))) [
            | inl rejected ↦
                let (hit, run) = full_scan_complete in (hit, rw (rejected, find_from_first) run)
            | inr (s, routed) ↦
                elim (Option-cases (entry_if_match t.levels 0 s key_fingerprint key)) [
                  | inr (e, there) ↦ (
                    record { level = 0; slot = s; entry = e },
                    rw (routed, there, find_from_first) refl,
                  )
                  | inl other ↦
                      let (hit, run) = beyond_complete h kept (not_first s routed other reach) in
                      (hit, rw (routed, other, find_from_first) run)
                ]
          ]
      where
        not_first :
            (s : ℕ)
            → route_prepared_counter_for_upper prepared.route h11_counter_base (capacity first)
              ≡ some s
            → entry_if_match t.levels 0 s key_fingerprint key ≡ none
            → Reachable t prepared level slot
            → ByRoutes t prepared level slot t.probe_schedule
        not_first s routed other (inr route) = route
        not_first s routed other (inl (zeroth, to)) =
            let there : get_elem? t.levels 0 ≡ some first = rw cons refl in
            let slots : slot ≡ s = cc (to first there, routed) in
            absurd (
              cc (
                rw
                  (
                    sym zeroth,
                    sym slots,
                    Matches-entry_if_match t.levels key_fingerprint key level slot m,
                  )
                  at other))

    pub find_by_complete :
        0 < t.len
        → level < 32
        → Kept prepared level t.membership
        → Reachable t prepared level slot
        → Finds (find_by_exact_schedule t key prepared key_fingerprint)
    unfolding find_by_exact_schedule
    find_by_complete live h kept reach =
        let some_entries : (t.len == 0) ≡ false = ground arith in
        let (hit, run) = of_levels t.levels refl in
        (hit, rw (some_entries, find_by_exact_schedule) run)
      where
        of_levels :
            (levels : List (Level K V))
            → t.levels ≡ levels
            → Finds (elim levels [
              | [] ↦ none
              | first ∷ rest ↦ find_from_first t key prepared key_fingerprint first
            ])
        of_levels [] empty =
            let there : get_elem? [] level ≡ some m.0.at = rw empty at m.0.there in
            absurd (cc there)
        of_levels (first ∷ rest) cons = first_complete first rest cons h kept reach
