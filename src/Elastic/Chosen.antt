-- ===== src/Elastic/Chosen.antt =====
-- elastic.rs: what a choice of a slot returns.
use opthash_rs.Prelude.{
  ℕ, ◌+◌, ◌-◌, ◌≤◌, ◌<◌, ◌≡◌, refl, ap, sym, ◌∙◌, inl, inr, arith, Bool, Bool-cases, true, false,
  not, ◌||◌, none, some, Option-cases, List, [], ◌∷◌, length, get_elem?, ltb, ◌==◌, ltb→le,
  if◌then◌else◌, bind_some, checked, u32_mod, u64_mod,
}
use mathlib.Core.Path.{subst}
use opthash_rs.Reserve.{ReserveFraction}
use opthash_rs.Control.{is_free}
use opthash_rs.Probe.Mix.{PreparedElasticProbe}
use opthash_rs.Probe.Counter.{elastic_counter_base}
use opthash_rs.Probe.Phi.{elastic_phi_bounded}
use opthash_rs.Probe.PhiValue.{phi_value}
use opthash_rs.Probe.PhiBounded.{elastic_phi_bounded-some}
use opthash_rs.Elastic.Scheduler.{BatchTarget}
use opthash_rs.Elastic.Schedule.{query_position_cap}
use opthash_rs.Elastic.Level.{Level, capacity, control_at}
use opthash_rs.Elastic.Reached.{Reached, target-Reached}
use opthash_rs.Elastic.Table.{
  route_prepared_counter_for_upper, route_prepared_counter, route_prepared, vacancy,
}
use opthash_rs.Elastic.Choose.{
  ExactPlacement, Vacancy, target_vacancy, placement_of, choose_slot_for_new_key, first_placement,
  choose_slot_on_other_targets, same_target, target_has_room,
}

-- A free slot of a level.
pub record FreeSlot {ℓ} {K V : Type ℓ} (levels : List (Level K V)) (level slot : ℕ) : Type ℓ where
  pub at : Level K V
  pub there : get_elem? levels level ≡ some at
  pub control : ℕ
  pub held : control_at at slot ≡ some control
  pub free : is_free control ≡ true

-- A slot that a probe of a level leads to, and its position.
pub record Chosen {ℓ} {K V : Type ℓ} (levels : List (Level K V)) (probe : PreparedElasticProbe)
    (placement : ExactPlacement) : Type ℓ where
  pub open_slot : FreeSlot levels placement.level placement.slot
  pub paper_probe : ℕ
  pub positive : 0 < paper_probe
  pub position : placement.phi ≡ phi_value (placement.level + 1) paper_probe
  pub capped : placement.phi ≤ query_position_cap
  pub routed :
      route_prepared_counter_for_upper probe
        (elastic_counter_base placement.level (paper_probe - 1))
        (capacity open_slot.at)
      ≡ some placement.slot

checked_same : (modulus value : ℕ) {w : ℕ} → checked modulus value ≡ some w → w ≡ value
checked_same modulus value e = ground arith

free_only :
    (free : Bool) (slot : ℕ) {s : ℕ}
    → (if free then some slot else none) ≡ some s
    → (free ≡ true) × (slot ≡ s)
free_only true slot e = (refl, cc e)
free_only false slot e = absurd (cc e)

module _ {ℓ} {K V : Type ℓ} (levels : List (Level K V)) (probe : PreparedElasticProbe) where
  -- The level a probe is routed in.
  abbrev RoutedIn : ℕ → ℕ → ℕ → Type ℓ
  RoutedIn level index slot =
      (at : Level K V) × (get_elem? levels level ≡ some at)
      × (route_prepared_counter_for_upper probe (elastic_counter_base level index) (capacity at)
          ≡ some slot)

  route_prepared-RoutedIn :
      (level index : ℕ) {slot : ℕ}
      → route_prepared levels level probe index ≡ some slot
      → RoutedIn level index slot
  unfolding route_prepared route_prepared_counter
  route_prepared-RoutedIn level index {slot} e =
      let (l, fits, e) = bind_some (checked u32_mod level) _ e in
      let found = bind_some (get_elem? levels l) _ e in
      subst (λ (t : ℕ). RoutedIn t index slot) (checked_same u32_mod level fits) found

  -- What a vacancy is.
  record VacantAt (level index slot : ℕ) : Type ℓ where
    open_slot : FreeSlot levels level slot
    routed :
        route_prepared_counter_for_upper probe
          (elastic_counter_base level index)
          (capacity open_slot.at)
        ≡ some slot

  vacancy-VacantAt :
      (level index : ℕ) {slot : ℕ}
      → vacancy levels level probe index ≡ some slot
      → VacantAt level index slot
  unfolding vacancy
  vacancy-VacantAt level index {slot} e =
      let (s, reached, e) = bind_some (route_prepared levels level probe index) _ e in
      let (at, there, routed) = route_prepared-RoutedIn level index reached in
      let (at', there', e) = bind_some (get_elem? levels level) _ e in
      let (control, held, e) = bind_some (control_at at' s) _ e in
      let (free, same) = free_only (is_free control) s e in
      let same_at : at' ≡ at = cc in
      record {
        open_slot = record {
          at = at;
          there = there;
          control = control;
          held = rw (sym same_at, sym same) held;
          free = free;
        };
        routed = routed ∙ ap (λ (t : ℕ). some t) same;
      }

  not_over :
      (phi : ℕ) (found : Vacancy) {placement : ExactPlacement}
      → (if ltb query_position_cap phi
          then none
          else some (record { level = found.level; slot = found.slot; phi = phi }))
        ≡ some placement
      → (phi ≤ query_position_cap)
        × (record { level = found.level; slot = found.slot; phi = phi } ≡ placement)
  not_over phi found e = elim (Bool-cases (ltb query_position_cap phi)) [
    | inl over ↦ absurd (cc (rw over at e))
    | inr within ↦ (ltb→le _ _ within, cc (rw within at e))
  ]

  placement-Chosen :
      (found : Vacancy) {placement : ExactPlacement}
      → Reached levels probe found
      → placement_of found ≡ some placement
      → Chosen levels probe placement
  unfolding placement_of
  placement-Chosen found {placement} r e =
      let (next, next_fits, e) = bind_some (checked u64_mod (found.level + 1)) _ e in
      let (paper_level, paper_fits, e) = bind_some (checked u32_mod next) _ e in
      let (phi, computed, e) = bind_some (elastic_phi_bounded paper_level found.paper_probe) _ e in
      let named : paper_level ≡ found.level + 1 =
        checked_same u32_mod next paper_fits ∙ checked_same u64_mod (found.level + 1) next_fits in
      let few = r.few in
      let numbered = r.numbered in
      let index : found.paper_probe - 1 ≡ r.index = omega arith in
      let value = elastic_phi_bounded-some paper_level found.paper_probe phi computed in
      let v = vacancy-VacantAt found.level r.index r.vacant in
      let (capped, same) = not_over phi found e in
      subst (Chosen levels probe) same (record {
        open_slot = v.open_slot;
        paper_probe = found.paper_probe;
        positive = omega arith;
        position = rw named at (sym value);
        capped = capped;
        routed = rw index v.routed;
      })

-- The slot chosen for a target, if there is one, is a free slot to which a probe of its level leads
-- the key, and its position is that of the probe and within the cap.
pub choose_slot-Chosen {ℓ} :
    {K V : Type ℓ} (reserve : ReserveFraction) (levels : List (Level K V))
    (probe : PreparedElasticProbe) (batch_target : BatchTarget) (placement : ExactPlacement)
    → length levels ≤ 32
    → choose_slot_for_new_key reserve levels probe batch_target ≡ some placement
    → Chosen levels probe placement
unfolding choose_slot_for_new_key
choose_slot-Chosen reserve levels probe batch_target placement few e =
    elim (Bool-cases (length levels == 0)) [
      | inl empty ↦ absurd (cc (rw (empty, choose_slot_for_new_key) at e))
      | inr some_levels ↦
          let (found, vacancy_found, e') =
            bind_some (target_vacancy reserve levels probe batch_target) placement_of
              (rw (some_levels, choose_slot_for_new_key) at e) in
          placement-Chosen levels probe found
            (target-Reached reserve levels probe batch_target few vacancy_found) e'
    ]

first_placement-Chosen {ℓ} :
    {K V : Type ℓ} (reserve : ReserveFraction) (levels : List (Level K V))
    (probe : PreparedElasticProbe) (failed : BatchTarget) (candidates : List BatchTarget)
    {placement : ExactPlacement}
    → length levels ≤ 32
    → first_placement reserve levels probe failed candidates ≡ some placement
    → Chosen levels probe placement
unfolding first_placement
first_placement-Chosen reserve levels probe failed [] few e = absurd (cc e)
first_placement-Chosen reserve levels probe failed (candidate ∷ candidates) {placement} few e =
    elim (Bool-cases (same_target candidate failed || not (target_has_room levels candidate))) [
      | inl skip ↦
          first_placement-Chosen reserve levels probe failed candidates few
            (rw (skip, first_placement) at e)
      | inr try ↦ elim (Option-cases (choose_slot_for_new_key reserve levels probe candidate)) [
        | inl full ↦
            first_placement-Chosen reserve levels probe failed candidates few
              (rw (try, full, first_placement) at e)
        | inr (found, there) ↦
            let same : found ≡ placement = cc (rw (try, there, first_placement) at e) in
            subst (Chosen levels probe) same
              (choose_slot-Chosen reserve levels probe candidate found few there)
      ]
    ]

-- So is a slot chosen on the other targets.
pub choose_other-Chosen {ℓ} :
    {K V : Type ℓ} (reserve : ReserveFraction) (levels : List (Level K V))
    (probe : PreparedElasticProbe) (failed : BatchTarget) (placement : ExactPlacement)
    → length levels ≤ 32
    → choose_slot_on_other_targets reserve levels probe failed ≡ some placement
    → Chosen levels probe placement
unfolding choose_slot_on_other_targets
choose_other-Chosen reserve levels probe failed placement few e =
    first_placement-Chosen reserve levels probe failed _ few e
