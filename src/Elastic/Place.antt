-- ===== src/Elastic/Place.antt =====
-- elastic.rs: the writes of a new entry. The outer option is `none` where the code panics.
use opthash_rs.Prelude.{
  ℕ, ◌+◌, ◌-◌, Bool, true, false, Option, none, some, List, [], ◌∷◌, map, ◌==◌, if◌then◌else◌,
  ◌>>=◌, bit_or,
}
use opthash_rs.Control.{ctrl_tombstone, is_free, control_fingerprint}
use opthash_rs.Elastic.Filter.{PreparedElasticKey, prepared_key, modify, record_membership}
use opthash_rs.Elastic.Scheduler.{target}
use opthash_rs.Elastic.Schedule.{extend_schedule, exceptional_placement_flag}
use opthash_rs.Elastic.Key.{Hashing}
use opthash_rs.Elastic.Level.{SlotEntry, Slot, Level, capacity, control_at, write_with_control}
use opthash_rs.Elastic.Table.{ElasticTable}
use opthash_rs.Elastic.Choose.{ExactPlacement, choose_slot_for_new_key}

module _ {ℓ} {K V : Type ℓ} where
  -- A level after a write at a slot whose control byte was `prev_ctrl`.
  unfoldable pub fill_slot : ℕ → SlotEntry K V → ℕ → Level K V → Level K V
  unfolding write_with_control
  fill_slot slot entry key_fingerprint level =
      let written = write_with_control slot entry key_fingerprint level in
      record written {
        len = level.len + 1;
        tombstones = elim (control_at level slot) [
          | none ↦ level.tombstones
          | some prev_ctrl ↦
              if prev_ctrl == ctrl_tombstone then level.tombstones - 1 else level.tombstones
        ];
      }

  unfoldable pub write_new_entry :
      SlotEntry K V → PreparedElasticKey → ℕ → ℕ → ℕ → ElasticTable K V → ElasticTable K V
  write_new_entry entry prepared key_fingerprint level slot t = record t {
    levels = modify t.levels level (fill_slot slot entry key_fingerprint);
    membership = record_membership prepared level t.membership;
    len = t.len + 1;
  }

  unfoldable pub extend_probe_schedule : ℕ → ElasticTable K V → Option (ElasticTable K V)
  extend_probe_schedule high_water t =
      extend_schedule (map capacity t.levels) high_water
        (record { probe_high_water = t.probe_high_water; probe_schedule = t.probe_schedule })
      >>= λ extended. some (record t {
        probe_high_water = extended.probe_high_water;
        probe_schedule = extended.probe_schedule;
      })

  unfoldable pub place_new_entry :
      SlotEntry K V
      → PreparedElasticKey
      → ℕ
      → ExactPlacement
      → ElasticTable K V
      → Option (ElasticTable K V)
  place_new_entry entry prepared key_fingerprint placement t =
      extend_probe_schedule placement.phi t >>= λ extended.
      some (write_new_entry entry prepared key_fingerprint placement.level placement.slot extended)

  -- The first free slot of one level, and of the levels `level ..`.
  unfoldable pub free_slot_from : List (Slot K V) → ℕ → Option ℕ
  free_slot_from [] slot = none
  free_slot_from (found ∷ slots) slot = elim (is_free found.control) [
    | true ↦ some slot
    | false ↦ free_slot_from slots (slot + 1)
  ]

  unfoldable pub free_slot_in : List (Level K V) → ℕ → Option (ℕ × ℕ)
  free_slot_in [] level = none
  free_slot_in (found ∷ levels) level = elim (free_slot_from found.slots 0) [
    | some slot ↦ some (level, slot)
    | none ↦ free_slot_in levels (level + 1)
  ]

  unfoldable pub first_free_slot : ElasticTable K V → Option (ℕ × ℕ)
  first_free_slot t = free_slot_in t.levels 0

  unfoldable pub place_exceptional_entry :
      SlotEntry K V → PreparedElasticKey → ℕ → ElasticTable K V → Option (ElasticTable K V)
  place_exceptional_entry entry prepared key_fingerprint t = first_free_slot t >>= λ location.
      some (
        write_new_entry entry prepared key_fingerprint location.0 location.1
          (record t { probe_high_water = bit_or t.probe_high_water exceptional_placement_flag }))

  module _ ⦃keys : Hashing K⦄ where
    -- Returns whether the placement was exceptional.
    unfoldable pub place_unique :
        SlotEntry K V → ℕ → ElasticTable K V → Option (Bool × ElasticTable K V)
    place_unique entry key_hash t =
        let prepared = prepared_key key_hash in
        let key_fingerprint = control_fingerprint key_hash in
        let (batch_target, scheduler) = target t.len t.scheduler in
        let t = record t { scheduler = scheduler } in
        elim (choose_slot_for_new_key t.reserve_fraction t.levels prepared.route batch_target) [
          | some placement ↦
              place_new_entry entry prepared key_fingerprint placement t >>= λ placed.
              some (false, placed)
          | none ↦ place_exceptional_entry entry prepared key_fingerprint t >>= λ placed.
              some (true, placed)
        ]
