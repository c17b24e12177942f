-- ===== src/Elastic/Placed.antt =====
-- elastic.rs: a table after the placement of a new entry.
use opthash_rs.Prelude.{
  ℕ, suc, ◌-◌, ◌≤◌, ◌≡◌, refl, ap, sym, ◌∙◌, inl, inr, arith, Bool-cases, not, some, List, [], ◌∷◌,
  length, get_elem?, map, ◌==◌, ltb, ltb→lt, ltb→le,
}
use mathlib.Core.Path.{subst, ap₂}
use opthash_rs.Control.{control_fingerprint}
use opthash_rs.Probe.Counter.{elastic_counter_base}
use opthash_rs.Elastic.Filter.{PreparedElasticKey, prepared_key}
use opthash_rs.Elastic.Modify.{map-get, get_below}
use opthash_rs.Elastic.Schedule.{query_position_cap, prior_high_water}
use opthash_rs.Elastic.Visits.{Routed, near_probe}
use opthash_rs.Elastic.Pushed.{route_level-base}
use opthash_rs.Elastic.Extend.{extend_schedule-Extended}
use opthash_rs.Elastic.Key.{Hashing}
use opthash_rs.Elastic.Level.{SlotEntry, Level, capacity}
use opthash_rs.Elastic.Table.{
  ElasticTable, is_exceptional, h11_counter_base, route_prepared_counter_for_upper,
}
use opthash_rs.Elastic.Choose.{ExactPlacement}
use opthash_rs.Elastic.Chosen.{Chosen, FreeSlot}
use opthash_rs.Elastic.Place.{write_new_entry, extend_probe_schedule, place_new_entry}
use opthash_rs.Elastic.Resize.{live_entries}
use opthash_rs.Elastic.Routed.{Reachable}
use opthash_rs.Elastic.Assoc.{Absent}
use opthash_rs.Elastic.Valid.{schedule_of, capacities, IsValid}
use opthash_rs.Elastic.Carries.{Carries, Same, IsValid-Carries}
use opthash_rs.Elastic.Write.{Added, write-IsValid}

module _ {ℓ} {K V : Type ℓ} ⦃keys : Hashing K⦄ where
  -- A new entry put in a table.
  pub record Placed (entry : SlotEntry K V) (t t' : ElasticTable K V) : Type ℓ where
    pub valid : IsValid t'
    pub added : Added entry (live_entries t.levels) (live_entries t'.levels)
    pub same : Same t t'
    pub one : t'.len ≡ suc t.len

module _ {ℓ} {K V : Type ℓ} ⦃keys : Hashing K⦄ (t : ElasticTable K V) (entry : SlotEntry K V) where
  pub write-Placed :
      (level slot : ℕ)
      → IsValid t
      → FreeSlot t.levels level slot
      → Reachable t (prepared_key (keys.hash_one entry.key)) level slot
      → Absent entry.key (live_entries t.levels)
      → Placed entry t (
          write_new_entry entry
            (prepared_key (keys.hash_one entry.key))
            (control_fingerprint (keys.hash_one entry.key))
            level
            slot
            t)
  unfolding write_new_entry
  write-Placed level slot v open_slot reach absent =
      let (valid, added) = write-IsValid t entry level slot v open_slot absent reach in
      record {
        valid = valid;
        added = added;
        same = record { total = refl; limit = refl; reserve = refl };
        one = omega arith;
      }

  -- A placement after a change of the other fields.
  pub Placed-after :
      (t1 t' : ElasticTable K V)
      → Same t t1
      → t1.levels ≡ t.levels
      → t1.len ≡ t.len
      → Placed entry t1 t'
      → Placed entry t t'
  Placed-after t1 t' s levels len p = record {
    valid = p.valid;
    added =
        subst (λ (x : List (Level K V)). Added entry (live_entries x) (live_entries t'.levels))
          levels p.added;
    same = record {
      total = p.same.total ∙ s.total;
      limit = p.same.limit ∙ s.limit;
      reserve = p.same.reserve ∙ s.reserve;
    };
    one = omega (arith, p.one);
  }

length-map {ℓ} : {A : Type ℓ} (m : A → ℕ) (xs : List A) → length (map m xs) ≡ length xs
length-map m [] = refl
length-map m (x ∷ xs) = ap suc (length-map m xs)

module _ {ℓ} {K V : Type ℓ} ⦃keys : Hashing K⦄ (t : ElasticTable K V) where
  -- The table after the extension of its schedule.
  record ExtendedTable (high : ℕ) (t' : ElasticTable K V) : Type ℓ where
    valid : IsValid t'
    levels : t'.levels ≡ t.levels
    len : t'.len ≡ t.len
    same : Same t t'
    water : high ≤ prior_high_water t'.probe_high_water

  extend-ExtendedTable :
      (high : ℕ)
      → IsValid t
      → high ≤ query_position_cap
      → (t' : ElasticTable K V) × (extend_probe_schedule high t ≡ some t') × ExtendedTable high t'
  unfolding extend_probe_schedule is_exceptional
  extend-ExtendedTable high v capped =
      let (s', run, e) =
        extend_schedule-Extended (capacities t.levels) high (schedule_of t)
          (omega (arith, length-map capacity t.levels, v.few)) capped in
      let t' : ElasticTable K V = record t {
        probe_high_water = s'.probe_high_water;
        probe_schedule = s'.probe_schedule;
      } in
      let s : Same t t' = record { total = refl; limit = refl; reserve = refl } in
      let c : Carries t t' = record {
        flag = λ on. ap (λ (w : ℕ). not (w == 0)) e.flag ∙ on;
        routes = e.kept;
        kept = λ key level k. k;
        shape = refl;
      } in
      (
        t',
        rw run refl,
        record {
          valid = IsValid-Carries t t' v c s refl refl refl (e.scheduled v.scheduled);
          levels = refl;
          len = refl;
          same = s;
          water = omega (arith, e.water);
        },
      )

  -- The lookup leads a key to the slot that was chosen for it, once the schedule reaches it.
  Chosen-Reachable :
      (prepared : PreparedElasticKey) (placement : ExactPlacement)
      → IsValid t
      → placement.phi ≤ prior_high_water t.probe_high_water
      → Chosen t.levels prepared.route placement
      → Reachable t prepared placement.level placement.slot
  Chosen-Reachable prepared placement v low c = elim (Bool-cases (ltb 0 placement.level)) [
    | inl deep ↦ by_route (inl (ltb→lt _ _ deep))
    | inr shallow ↦ elim (Bool-cases (ltb 1 c.paper_probe)) [
      | inl later ↦ by_route (inr (ltb→lt _ _ later))
      | inr first ↦
          let zeroth : placement.level ≡ 0 = omega (arith, ltb→le _ _ shallow) in
          let positive = c.positive in
          let index : c.paper_probe - 1 ≡ 0 = omega (arith, ltb→le _ _ first) in
          inl (
            zeroth,
            λ level there.
                let known : get_elem? t.levels 0 ≡ some c.open_slot.at =
                  ap (λ (l : ℕ). get_elem? t.levels l) (sym zeroth) ∙ c.open_slot.there in
                let same : level ≡ c.open_slot.at = cc in
                ap
                  (λ (x : Level K V).
                    route_prepared_counter_for_upper prepared.route h11_counter_base (capacity x))
                  same
                ∙ ap₂
                    (λ (l i : ℕ).
                      route_prepared_counter_for_upper prepared.route (elastic_counter_base l i)
                        (capacity c.open_slot.at))
                    (sym zeroth) (sym index)
                ∙ c.routed,
          )
    ]
  ]
    where
      by_route :
          Routed placement.level c.paper_probe → Reachable t prepared placement.level placement.slot
      by_route routed =
          let level = placement.level in
          let upper = capacity c.open_slot.at in
          let position = c.position in
          let capped = c.capped in
          let few = v.few in
          let below = get_below t.levels level c.open_slot.there in
          let near = near_probe level c.paper_probe (omega arith) in
          let m =
            v.scheduled level c.paper_probe upper
              (map-get capacity t.levels level c.open_slot.there) c.positive routed (omega arith) in
          inr (
            inr (
              record {
                range_upper = upper;
                counter_base = elastic_counter_base level (c.paper_probe - 1);
              },
              m,
              route_level-base level (c.paper_probe - 1) upper (omega arith) (omega arith),
              c.routed,
            ))

module _ {ℓ} {K V : Type ℓ} ⦃keys : Hashing K⦄ (t : ElasticTable K V) where
  -- A new key placed in a slot that was chosen for it.
  pub place_new_entry-Placed :
      (entry : SlotEntry K V) (placement : ExactPlacement)
      → IsValid t
      → Chosen t.levels (prepared_key (keys.hash_one entry.key)).route placement
      → Absent entry.key (live_entries t.levels)
      → (t' : ElasticTable K V) × (place_new_entry entry
            (prepared_key (keys.hash_one entry.key))
            (control_fingerprint (keys.hash_one entry.key))
            placement
            t
          ≡ some t')
        × Placed entry t t'
  unfolding place_new_entry
  place_new_entry-Placed entry placement v c absent =
      let hash = keys.hash_one entry.key in
      let (t1, run, e) = extend-ExtendedTable t placement.phi v c.capped in
      let c1 =
        subst (λ (x : List (Level K V)). Chosen x (prepared_key hash).route placement)
          (sym e.levels) c in
      let absent1 =
        subst (λ (x : List (Level K V)). Absent entry.key (live_entries x)) (sym e.levels) absent in
      let p =
        write-Placed t1 entry placement.level placement.slot e.valid c1.open_slot
          (Chosen-Reachable t1 (prepared_key hash) placement e.valid e.water c1) absent1 in
      (_, rw run refl, Placed-after t entry t1 _ e.same e.levels e.len p)
