-- ===== src/Elastic/Insert.antt =====
-- elastic.rs: insertion. The outer option is `none` where the code panics or aborts.
use opthash_rs.Prelude.{
  ℕ, ◌*◌, true, false, Option, none, some, List, leb, ◌==◌, if◌then◌else◌, ◌>>=◌, saturating,
}
use opthash_rs.Epoch.{growth, placement_recovery, note_placement_recovery}
use opthash_rs.Control.{control_fingerprint}
use opthash_rs.Elastic.Filter.{PreparedElasticKey, prepared_key}
use opthash_rs.Elastic.Scheduler.{BatchTarget, target}
use opthash_rs.Elastic.Key.{Hashing}
use opthash_rs.Elastic.Level.{SlotEntry}
use opthash_rs.Elastic.Table.{ElasticTable, is_exceptional, find}
use opthash_rs.Elastic.Choose.{choose_slot_for_new_key, choose_slot_on_other_targets}
use opthash_rs.Elastic.Place.{place_new_entry, place_exceptional_entry}
use opthash_rs.Elastic.Resize.{TryReserveError, resize_with_transition}
use opthash_rs.Elastic.Delete.{replace_value}

module _ {ℓ} {K V : Type ℓ} where
  -- `scheduler.target`, and the choice in the target it names.
  unfoldable pub place_in_target :
      SlotEntry K V
      → PreparedElasticKey
      → ℕ
      → (BatchTarget → ElasticTable K V → Option (ElasticTable K V))
      → ElasticTable K V
      → Option (ElasticTable K V)
  place_in_target entry prepared key_fingerprint on_failure t =
      let (batch_target, scheduler) = target t.len t.scheduler in
      let asked = record t { scheduler = scheduler } in
      elim (choose_slot_for_new_key t.reserve_fraction t.levels prepared.route batch_target) [
        | some placement ↦ place_new_entry entry prepared key_fingerprint placement asked
        | none ↦ on_failure batch_target asked
      ]

  module _ ⦃keys : Hashing K⦄ where
    unfoldable pub place_after_target_failure :
        (List ℕ → Option TryReserveError)
        → SlotEntry K V
        → PreparedElasticKey
        → ℕ
        → BatchTarget
        → ElasticTable K V
        → Option (ElasticTable K V)
    place_after_target_failure build_arena entry prepared key_fingerprint failed t =
        elim (choose_slot_on_other_targets t.reserve_fraction t.levels prepared.route failed) [
          | some placement ↦ place_new_entry entry prepared key_fingerprint placement t
          | none ↦ elim (is_exceptional t) [
            | true ↦
                place_exceptional_entry entry prepared key_fingerprint
                  (record t { epoch = note_placement_recovery t.epoch })
            | false ↦
                resize_with_transition build_arena t.total_slots placement_recovery t
                >>= place_in_target entry prepared key_fingerprint
                    (λ batch_target. place_exceptional_entry entry prepared key_fingerprint)
          ]
        ]

    -- `initial_capacity` is 8 or 16 with the platform.
    unfoldable pub grow_when_full :
        (List ℕ → Option TryReserveError) → ℕ → ElasticTable K V → Option (ElasticTable K V)
    grow_when_full build_arena initial_capacity t = elim (leb t.max_insertions t.len) [
      | true ↦
          resize_with_transition build_arena
            (if t.total_slots == 0 then initial_capacity else saturating (t.total_slots * 2)) growth
            t
      | false ↦ some t
    ]

    unfoldable pub insert_for_vacant_entry_prepared :
        (List ℕ → Option TryReserveError)
        → ℕ
        → SlotEntry K V
        → PreparedElasticKey
        → ℕ
        → ElasticTable K V
        → Option (ElasticTable K V)
    insert_for_vacant_entry_prepared build_arena initial_capacity entry prepared key_fingerprint t =
        grow_when_full build_arena initial_capacity t
        >>= place_in_target entry prepared key_fingerprint
            (place_after_target_failure build_arena entry prepared key_fingerprint)

    unfoldable pub insert_for_vacant_entry :
        (List ℕ → Option TryReserveError)
        → ℕ
        → SlotEntry K V
        → ℕ
        → ElasticTable K V
        → Option (ElasticTable K V)
    insert_for_vacant_entry build_arena initial_capacity entry key_hash t =
        insert_for_vacant_entry_prepared build_arena initial_capacity entry (prepared_key key_hash)
          (control_fingerprint key_hash) t

    -- The value that was replaced, and the table.
    unfoldable pub insert :
        (List ℕ → Option TryReserveError)
        → ℕ
        → K
        → V
        → ElasticTable K V
        → Option (Option V × ElasticTable K V)
    insert build_arena initial_capacity key value t =
        let hash = keys.hash_one key in
        elim (find t key) [
          | some hit ↦ some (replace_value hit value t)
          | none ↦
              insert_for_vacant_entry build_arena initial_capacity
                (record { key = key; value = value }) hash t
              >>= λ inserted. some (none, inserted)
        ]
