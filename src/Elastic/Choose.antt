-- ===== src/Elastic/Choose.antt =====
-- elastic.rs: the choice of a slot for a new key.
use opthash_rs.Prelude.{
  ℕ, zero, suc, ◌+◌, ◌-◌, ◌*◌, min, Bool, true, false, not, ◌||◌, Option, none, some, List, [], ◌∷◌,
  length, get_elem?, ok, err, ltb, leb, ◌==◌, if◌then◌else◌, ◌>>=◌, saturating, checked, u32_mod,
  u64_mod,
}
use opthash_rs.Reserve.{ReserveFraction, floor_half_reserved}
use opthash_rs.Probe.Mix.{PreparedElasticProbe}
use opthash_rs.Probe.Phi.{elastic_phi_bounded, elastic_dyadic_probe_budget}
use opthash_rs.Elastic.Scheduler.{BatchTarget, bootstrap, level_pair}
use opthash_rs.Elastic.Schedule.{query_position_cap, level_probe_limit}
use opthash_rs.Elastic.Level.{Level, capacity, free_slots}
use opthash_rs.Elastic.Table.{vacancy}

abbrev pub elastic_probe_budget_c : ℕ
elastic_probe_budget_c = 8

pub record ExactPlacement : Type 0 where
  pub level : ℕ
  pub slot : ℕ
  pub phi : ℕ

-- A slot with the paper's number of the probe that found it.
pub record Vacancy : Type 0 where
  pub level : ℕ
  pub slot : ℕ
  pub paper_probe : ℕ

-- The last lines of `choose_slot_for_new_key`.
unfoldable pub placement_of : Vacancy → Option ExactPlacement
placement_of found = do
  next ← checked u64_mod (found.level + 1)
  paper_level ← checked u32_mod next
  phi ← elastic_phi_bounded paper_level found.paper_probe
  if ltb query_position_cap phi
      then none
      else some (record { level = found.level; slot = found.slot; phi = phi })

abbrev pub same_target : BatchTarget → BatchTarget → Bool
same_target bootstrap bootstrap = true
same_target (level_pair a) (level_pair b) = a == b
same_target _ _ = false

-- The level pairs `current ..`, `count` of them, after the bootstrap.
abbrev pub other_pairs : ℕ → ℕ → List BatchTarget
other_pairs zero current = []
other_pairs (suc count) current = level_pair current ∷ other_pairs count (current + 1)

module _ {ℓ} {K V : Type ℓ} where
  -- The probes `logical_index ..` of a level, `count` of them.
  unfoldable pub find_vacancy : List (Level K V) → PreparedElasticProbe → ℕ → ℕ → ℕ → Option Vacancy
  find_vacancy levels probe level zero logical_index = none
  find_vacancy levels probe level (suc count) logical_index =
      elim (vacancy levels level probe logical_index) [
        | some slot ↦ some (record { level = level; slot = slot; paper_probe = logical_index + 1 })
        | none ↦ find_vacancy levels probe level count (logical_index + 1)
      ]

  -- The constant table has an entry for every level of a table.
  unfoldable pub uniform_vacancy : List (Level K V) → PreparedElasticProbe → ℕ → Option Vacancy
  uniform_vacancy levels probe level =
      level_probe_limit level >>= λ limit. find_vacancy levels probe level limit 0

  -- Case 1: a bounded number of probes in `current`, then `next`.
  unfoldable pub budget_vacancy :
      ReserveFraction → List (Level K V) → PreparedElasticProbe → ℕ → Level K V → Option Vacancy
  budget_vacancy reserve levels probe current current_level =
      elim (elastic_dyadic_probe_budget (free_slots current_level) (capacity current_level)
        reserve.exponent elastic_probe_budget_c) [
          | err error ↦ none
          | ok budget ↦ level_probe_limit current >>= λ limit.
              elim (find_vacancy levels probe current (min budget limit) 0) [
                | some found ↦ some found
                | none ↦ uniform_vacancy levels probe (current + 1)
              ]
        ]

  unfoldable pub pair_vacancy :
      ReserveFraction → List (Level K V) → PreparedElasticProbe → ℕ → Option Vacancy
  pair_vacancy reserve levels probe current = do
    next ← checked u64_mod (current + 1)
    current_level ← get_elem? levels current
    next_level ← get_elem? levels next
    elim (leb (free_slots current_level) (floor_half_reserved reserve (capacity current_level))) [
      | true ↦ uniform_vacancy levels probe next
      | false ↦ elim (leb (saturating (free_slots next_level * 4)) (capacity next_level)) [
        | true ↦ uniform_vacancy levels probe current
        | false ↦ budget_vacancy reserve levels probe current current_level
      ]
    ]

  unfoldable pub target_vacancy :
      ReserveFraction → List (Level K V) → PreparedElasticProbe → BatchTarget → Option Vacancy
  target_vacancy reserve levels probe bootstrap = uniform_vacancy levels probe 0
  target_vacancy reserve levels probe (level_pair current) =
      pair_vacancy reserve levels probe current

  unfoldable pub choose_slot_for_new_key :
      ReserveFraction
      → List (Level K V)
      → PreparedElasticProbe
      → BatchTarget
      → Option ExactPlacement
  choose_slot_for_new_key reserve levels probe batch_target = elim (length levels == 0) [
    | true ↦ none
    | false ↦ target_vacancy reserve levels probe batch_target >>= placement_of
  ]

  unfoldable pub has_room : List (Level K V) → ℕ → Bool
  has_room levels level = elim (get_elem? levels level) [
    | none ↦ false
    | some found ↦ ltb 0 (free_slots found)
  ]

  unfoldable pub target_has_room : List (Level K V) → BatchTarget → Bool
  target_has_room levels bootstrap = has_room levels 0
  target_has_room levels (level_pair current) =
      has_room levels current || has_room levels (current + 1)

  unfoldable pub first_placement :
      ReserveFraction
      → List (Level K V)
      → PreparedElasticProbe
      → BatchTarget
      → List BatchTarget
      → Option ExactPlacement
  first_placement reserve levels probe failed [] = none
  first_placement reserve levels probe failed (candidate ∷ candidates) =
      elim (same_target candidate failed || not (target_has_room levels candidate)) [
        | true ↦ first_placement reserve levels probe failed candidates
        | false ↦ elim (choose_slot_for_new_key reserve levels probe candidate) [
          | some placement ↦ some placement
          | none ↦ first_placement reserve levels probe failed candidates
        ]
      ]

  unfoldable pub choose_slot_on_other_targets :
      ReserveFraction
      → List (Level K V)
      → PreparedElasticProbe
      → BatchTarget
      → Option ExactPlacement
  choose_slot_on_other_targets reserve levels probe failed =
      first_placement reserve levels probe failed (bootstrap ∷ other_pairs (length levels - 1) 0)
