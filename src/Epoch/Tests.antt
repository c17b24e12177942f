-- ===== src/Epoch/Tests.antt =====
-- A run of epoch.rs over a growth, two deletes and a recovery, and the instance of its theorem.
use opthash_rs.Prelude.{◌≡◌, refl, List, [], ◌∷◌, true, false}
use opthash_rs.Epoch.{
  growth, placement_recovery, initial_state, snapshot, generation, placement_recoveries,
  note_delete, start, start_with_placement_recovery, note_placement_recovery, start_epoch,
  transition_bits, transition_from_bits,
}
use opthash_rs.Epoch.Refine.{
  Event, delete, recover, begin, step, run, initial_view, run_view, snapshot_view, snapshot-run,
}

abbrev history : List Event
history = begin growth false ∷ begin placement_recovery true ∷ delete ∷ delete ∷ recover ∷ []

history-run : snapshot (run history initial_state) 5 ≡ record {
  generation = 2;
  distinct_insertions = 7;
  had_delete = true;
  placement_recoveries = 2;
  transition = placement_recovery;
}
unfolding snapshot run step start_epoch start_with_placement_recovery start note_placement_recovery
    note_delete generation placement_recoveries transition_bits transition_from_bits
history-run = refl

snapshot-run_example :
    snapshot (run history initial_state) 5 ≡ snapshot_view (run_view history initial_view) 5
snapshot-run_example = snapshot-run history 5
