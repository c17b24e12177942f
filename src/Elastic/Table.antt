-- ===== src/Elastic/Table.antt =====
-- elastic.rs: `ElasticTable` and its lookup.
use opthash_rs.Prelude.{
  ℕ, zero, suc, ◌+◌, Bool, true, false, not, Option, none, some, List, [], ◌∷◌, get_elem?, ok, err,
  ◌==◌, if◌then◌else◌, ◌>>=◌, ◌<<<◌, bit_and, checked, u32_mod,
}
use opthash_rs.Reserve.{ReserveFraction}
use opthash_rs.Epoch.{EpochState}
use opthash_rs.Control.{is_free, control_fingerprint}
use opthash_rs.Membership.{MetadataWord}
use opthash_rs.Probe.Counter.{range_word_cap, elastic_counter_base}
use opthash_rs.Probe.Mix.{PreparedElasticProbe}
use opthash_rs.Probe.Range.{unbiased_prepared_elastic_probe_index}
use opthash_rs.Elastic.Filter.{PreparedElasticKey, prepared_key, expanded_level_mask, route_filter}
use opthash_rs.Elastic.Scheduler.{BatchScheduler}
use opthash_rs.Elastic.Schedule.{PhiRoute, route_level, exceptional_placement_flag}
use opthash_rs.Elastic.Key.{Hashing}
use opthash_rs.Elastic.Level.{SlotEntry, Level, capacity, control_at, get_ref}

-- The hasher, the allocator and the arena's pointers are not fields: the first two are parameters
-- of the operations, and the slots stand in their levels.
pub record ElasticTable {ℓ} (K V : Type ℓ) : Type ℓ where
  pub levels : List (Level K V)
  pub len : ℕ
  pub total_slots : ℕ
  pub max_insertions : ℕ
  pub reserve_fraction : ReserveFraction
  pub scheduler : BatchScheduler
  pub epoch : EpochState
  pub probe_high_water : ℕ
  pub probe_schedule : List PhiRoute
  pub membership : List MetadataWord
  pub stale_membership : ℕ

abbrev pub h11_counter_base : ℕ
h11_counter_base = elastic_counter_base 0 0

unfoldable pub route_prepared_counter_for_upper : PreparedElasticProbe → ℕ → ℕ → Option ℕ
route_prepared_counter_for_upper prepared counter_base upper =
    elim (unbiased_prepared_elastic_probe_index prepared counter_base upper range_word_cap) [
      | err error ↦ none
      | ok probe ↦ some probe.index
    ]

-- A location and the entry found there.
pub record Hit {ℓ} (K V : Type ℓ) : Type ℓ where
  pub level : ℕ
  pub slot : ℕ
  pub entry : SlotEntry K V

module _ {ℓ} {K V : Type ℓ} where
  unfoldable pub route_prepared_counter : List (Level K V) → ℕ → PreparedElasticProbe → ℕ → Option ℕ
  route_prepared_counter levels level probe counter_base = get_elem? levels level >>= λ found.
      route_prepared_counter_for_upper probe counter_base (capacity found)

  unfoldable pub route_prepared : List (Level K V) → ℕ → PreparedElasticProbe → ℕ → Option ℕ
  route_prepared levels level probe logical_index = do
    level ← checked u32_mod level
    route_prepared_counter levels level probe (elastic_counter_base level logical_index)

  unfoldable pub vacancy : List (Level K V) → ℕ → PreparedElasticProbe → ℕ → Option ℕ
  vacancy levels level probe logical_index = do
    slot ← route_prepared levels level probe logical_index
    found ← get_elem? levels level
    control ← control_at found slot
    if is_free control then some slot else none

  unfoldable pub is_exceptional : ElasticTable K V → Bool
  is_exceptional t = not (bit_and t.probe_high_water exceptional_placement_flag == 0)

  module _ ⦃keys : Hashing K⦄ where
    -- A matching control byte means an occupied slot, so the entry is there.
    unfoldable pub entry_if_match : List (Level K V) → ℕ → ℕ → ℕ → K → Option (SlotEntry K V)
    entry_if_match levels level slot key_fingerprint key = do
      found ← get_elem? levels level
      control ← control_at found slot
      entry ← get_ref found slot
      if control == key_fingerprint
          then (if keys.equivalent key entry.key then some entry else none)
          else none

    -- The slots `slot ..` of one level, and the levels `level ..` of the table.
    unfoldable pub scan_level : List (Level K V) → ℕ → ℕ → K → ℕ → ℕ → Option (Hit K V)
    scan_level levels level key_fingerprint key zero slot = none
    scan_level levels level key_fingerprint key (suc count) slot =
        elim (entry_if_match levels level slot key_fingerprint key) [
          | some entry ↦ some (record { level = level; slot = slot; entry = entry })
          | none ↦ scan_level levels level key_fingerprint key count (slot + 1)
        ]

    unfoldable pub scan_levels : List (Level K V) → ℕ → K → List (Level K V) → ℕ → Option (Hit K V)
    scan_levels levels key_fingerprint key [] level = none
    scan_levels levels key_fingerprint key (found ∷ rest) level =
        elim (scan_level levels level key_fingerprint key (capacity found) 0) [
          | some hit ↦ some hit
          | none ↦ scan_levels levels key_fingerprint key rest (level + 1)
        ]

    unfoldable pub find_by_full_scan : ElasticTable K V → K → ℕ → Option (Hit K V)
    find_by_full_scan t key key_fingerprint = scan_levels t.levels key_fingerprint key t.levels 0

    -- The loop over the schedule, and what follows it.
    unfoldable pub walk_schedule :
        ElasticTable K V → K → PreparedElasticKey → ℕ → ℕ → List PhiRoute → Option (Hit K V)
    walk_schedule t key prepared key_fingerprint level_mask [] = elim (is_exceptional t) [
      | true ↦ find_by_full_scan t key key_fingerprint
      | false ↦ none
    ]
    walk_schedule t key prepared key_fingerprint level_mask (route ∷ routes) =
        elim (bit_and level_mask (1 <<< route_level route) == 0) [
          | true ↦ walk_schedule t key prepared key_fingerprint level_mask routes
          | false ↦
              elim (route_prepared_counter_for_upper prepared.route route.counter_base
                route.range_upper) [
                  | none ↦ find_by_full_scan t key key_fingerprint
                  | some slot ↦
                      elim (entry_if_match t.levels (route_level route) slot key_fingerprint key) [
                        | some entry ↦
                            some (record { level = route_level route; slot = slot; entry = entry })
                        | none ↦ walk_schedule t key prepared key_fingerprint level_mask routes
                      ]
                ]
        ]

    -- The lookup after the first slot of level zero.
    unfoldable pub find_beyond_first :
        ElasticTable K V → K → PreparedElasticKey → ℕ → Option (Hit K V)
    find_beyond_first t key prepared key_fingerprint =
        let filter = route_filter prepared t.membership in
        elim filter.maybe_present [
          | false ↦ none
          | true ↦
              walk_schedule t key prepared key_fingerprint (expanded_level_mask filter)
                t.probe_schedule
        ]

    unfoldable pub find_from_first :
        ElasticTable K V → K → PreparedElasticKey → ℕ → Level K V → Option (Hit K V)
    find_from_first t key prepared key_fingerprint first =
        elim (route_prepared_counter_for_upper prepared.route h11_counter_base (capacity first)) [
          | none ↦ find_by_full_scan t key key_fingerprint
          | some slot ↦ elim (entry_if_match t.levels 0 slot key_fingerprint key) [
            | some entry ↦ some (record { level = 0; slot = slot; entry = entry })
            | none ↦ find_beyond_first t key prepared key_fingerprint
          ]
        ]

    unfoldable pub find_by_exact_schedule :
        ElasticTable K V → K → PreparedElasticKey → ℕ → Option (Hit K V)
    find_by_exact_schedule t key prepared key_fingerprint = elim (t.len == 0) [
      | true ↦ none
      | false ↦ elim t.levels [
        | [] ↦ none
        | first ∷ rest ↦ find_from_first t key prepared key_fingerprint first
      ]
    ]

    -- The location of the hit, with its entry.
    unfoldable pub find : ElasticTable K V → K → Option (Hit K V)
    find t key =
        let hash = keys.hash_one key in
        find_by_exact_schedule t key (prepared_key hash) (control_fingerprint hash)

    unfoldable pub find_entry : ElasticTable K V → K → Option (SlotEntry K V)
    unfolding find
    find_entry t key = find t key >>= λ hit. some hit.entry
