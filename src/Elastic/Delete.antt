-- ===== src/Elastic/Delete.antt =====
-- elastic.rs: replacement, removal and clearing. The outer option is `none` where the code panics or
-- aborts.
use opthash_rs.Prelude.{
  ℕ, suc, ◌+◌, ◌-◌, Bool, true, false, ◌||◌, Option, none, some, List, [], ◌∷◌, get_elem?, map, ltb,
  ◌>>=◌,
}
use opthash_rs.Epoch.{tombstone_cleanup, clear, start, note_delete}
use opthash_rs.Control.{ctrl_empty, is_occupied}
use opthash_rs.Membership.{MetadataWord, refresh_deletes}
use opthash_rs.Elastic.Filter.{prepared_key, modify, record_membership, clear_membership}
use opthash_rs.Elastic.Scheduler.{reset}
use opthash_rs.Elastic.Key.{Hashing}
use opthash_rs.Elastic.Level.{
  SlotEntry, Slot, Level, get_ref, mark_tombstone, take_entry, clear_all_controls, needs_cleanup,
  scan_entries,
}
use opthash_rs.Elastic.Table.{ElasticTable, Hit}
use opthash_rs.Elastic.Resize.{TryReserveError, resize_with_transition}

module _ {ℓ} {K V : Type ℓ} where
  -- The entry at a location.
  unfoldable pub slot_ref : ElasticTable K V → ℕ → ℕ → Option (SlotEntry K V)
  slot_ref t level slot = get_elem? t.levels level >>= λ found. get_ref found slot

  -- A write of the value at a location.
  unfoldable pub set_value : ℕ → V → Level K V → Level K V
  set_value slot value level = record level {
    slots = modify level.slots slot (λ found. record found {
      entry = found.entry >>= λ entry. some (record entry { value = value });
    });
  }

  unfoldable pub replace_value : Hit K V → V → ElasticTable K V → Option V × ElasticTable K V
  replace_value hit value t = (
    some hit.entry.value,
    record t { levels = modify t.levels hit.level (set_value hit.slot value) },
  )

  unfoldable pub extract_slot : ℕ → Level K V → Level K V
  extract_slot slot level = record (mark_tombstone slot level) {
    len = level.len - 1;
    tombstones = level.tombstones + 1;
  }

  unfoldable pub extract_finish : ℕ → ℕ → ElasticTable K V → ElasticTable K V
  extract_finish level slot t = record t {
    levels = modify t.levels level (extract_slot slot);
    len = t.len - 1;
    stale_membership = t.stale_membership + 1;
    epoch = note_delete t.epoch;
  }

  unfoldable pub reset_after_clear : ElasticTable K V → ElasticTable K V
  reset_after_clear t = record t {
    scheduler = reset t.scheduler;
    probe_high_water = 0;
    probe_schedule = [];
    membership = clear_membership t.membership;
    stale_membership = 0;
    epoch = start clear t.epoch;
  }

  -- The entries of a level moved out, one after the other.
  unfoldable pub drain_slots : List (Slot K V) → List (Slot K V)
  drain_slots [] = []
  drain_slots (slot ∷ slots) = elim (is_occupied slot.control) [
    | false ↦ slot ∷ drain_slots slots
    | true ↦ record { control = ctrl_empty; entry = none } ∷ drain_slots slots
  ]

  abbrev pub occupied_count : List (Slot K V) → ℕ
  occupied_count [] = 0
  occupied_count (slot ∷ slots) = elim (is_occupied slot.control) [
    | false ↦ occupied_count slots
    | true ↦ suc (occupied_count slots)
  ]

  unfoldable pub drain_reset : Level K V → Level K V
  unfolding clear_all_controls drain_slots
  drain_reset level =
      record (clear_all_controls (record level { slots = drain_slots level.slots })) {
        len = level.len - occupied_count level.slots;
        tombstones = 0;
      }

  abbrev pub occupied_in : List (Level K V) → ℕ
  occupied_in [] = 0
  occupied_in (level ∷ levels) = occupied_count level.slots + occupied_in levels

  unfoldable pub clear_table : ElasticTable K V → ElasticTable K V
  clear_table t =
      reset_after_clear
        (record t { levels = map drain_reset t.levels; len = t.len - occupied_in t.levels })

  unfoldable pub wipe_level : Level K V → Level K V
  wipe_level level = record (clear_all_controls level) { len = 0; tombstones = 0 }

  unfoldable pub wipe_all : ElasticTable K V → ElasticTable K V
  wipe_all t = reset_after_clear (record t { levels = map wipe_level t.levels; len = 0 })

  abbrev pub any_needs_cleanup : ℕ → List (Level K V) → Bool
  any_needs_cleanup group_size [] = false
  any_needs_cleanup group_size (level ∷ levels) =
      needs_cleanup group_size level || any_needs_cleanup group_size levels

  module _ ⦃keys : Hashing K⦄ where
    -- The records of one level's occupied slots, and of the levels `level ..`.
    unfoldable pub record_entries : ℕ → List (SlotEntry K V) → List MetadataWord → List MetadataWord
    record_entries level [] filter = filter
    record_entries level (entry ∷ entries) filter =
        record_entries level entries
          (record_membership (prepared_key (keys.hash_one entry.key)) level filter)

    unfoldable pub record_levels : ℕ → List (Level K V) → List MetadataWord → List MetadataWord
    unfolding record_entries scan_entries
    record_levels level [] filter = filter
    record_levels level (found ∷ levels) filter =
        record_levels (level + 1) levels (record_entries level (scan_entries found.slots) filter)

    unfoldable pub refresh_membership : ElasticTable K V → ElasticTable K V
    unfolding record_levels
    refresh_membership t = record t {
      membership = record_levels 0 t.levels (clear_membership t.membership);
      stale_membership = 0;
    }

    -- `group_size` is the width of a control group of the platform.
    unfoldable pub settle_after_deletes :
        (List ℕ → Option TryReserveError) → Bool → ElasticTable K V → Option (ElasticTable K V)
    settle_after_deletes build_arena cleanup t = elim cleanup [
      | true ↦ resize_with_transition build_arena t.total_slots tombstone_cleanup t
      | false ↦ elim (ltb (refresh_deletes t.max_insertions) t.stale_membership) [
        | true ↦ some (refresh_membership t)
        | false ↦ some t
      ]
    ]

    unfoldable pub finish_deferred_removals :
        (List ℕ → Option TryReserveError) → ℕ → ElasticTable K V → Option (ElasticTable K V)
    finish_deferred_removals build_arena group_size t =
        settle_after_deletes build_arena (any_needs_cleanup group_size t.levels) t

    unfoldable pub remove :
        (List ℕ → Option TryReserveError)
        → ℕ
        → ℕ
        → ℕ
        → ElasticTable K V
        → Option (SlotEntry K V × ElasticTable K V)
    remove build_arena group_size level slot t = slot_ref t level slot >>= λ removed.
        let taken = record t { levels = modify t.levels level (take_entry slot) } in
        let extracted = extract_finish level slot taken in
        get_elem? extracted.levels level >>= λ found.
        settle_after_deletes build_arena (needs_cleanup group_size found) extracted >>= λ settled.
        some (removed, settled)
