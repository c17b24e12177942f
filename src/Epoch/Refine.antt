-- ===== src/Epoch/Refine.antt =====
-- The lifecycle word refines a record of separate counters.
use opthash_rs.Prelude.{
  ℕ, ◌*◌, ◌+◌, ◌-◌, ◌^◌, min, ◌≡◌, refl, ap, ◌∙◌, arith, Bool, true, false, List, [], ◌∷◌,
  saturating, not, ◌==◌,
}
use opthash_rs.Epoch.{
  EpochState, EpochSnapshot, EpochTransition, initial, initial_state, note_delete, start_epoch,
  note_placement_recovery, snapshot, transition_bits, transition_from_bits,
}
use opthash_rs.Epoch.View.{
  Holds, generation-Holds, placement_recoveries-Holds, transition_field, delete_field,
  note_delete-Holds, start-Holds, note_placement_recovery-Holds,
  transition_from_bits-transition_bits,
}

-- The counters apart.
pub record EpochView : Type 0 where
  pub generation : ℕ
  pub deletions : ℕ
  pub had_delete : Bool
  pub recoveries : ℕ
  pub transition : EpochTransition

abbrev pub initial_view : EpochView
initial_view = record {
  generation = 0;
  deletions = 0;
  had_delete = false;
  recoveries = 0;
  transition = initial;
}

-- What a table does to its epoch.
pub data Event : Type 0 where
  delete : Event
  recover : Event
  begin : EpochTransition → Bool → Event

unfoldable pub step : Event → EpochState → EpochState
step delete s = note_delete s
step recover s = note_placement_recovery s
step (begin transition recovered) s = start_epoch transition recovered s

abbrev count_recovery : EpochView → EpochView
count_recovery v = record v { recoveries = min (v.recoveries + 1) (2 ^ 28 - 1) }

abbrev begin_view : EpochTransition → EpochView → EpochView
begin_view transition v = record {
  generation = min (v.generation + 1) (2 ^ 32 - 1);
  deletions = 0;
  had_delete = false;
  recoveries = v.recoveries;
  transition = transition;
}

abbrev pub step_view : Event → EpochView → EpochView
step_view delete v = record v { deletions = saturating (v.deletions + 1); had_delete = true }
step_view recover v = count_recovery v
step_view (begin transition true) v = begin_view transition (count_recovery v)
step_view (begin transition false) v = begin_view transition v

unfoldable pub run : List Event → EpochState → EpochState
unfolding step
run [] s = s
run (e ∷ es) s = run es (step e s)

abbrev pub run_view : List Event → EpochView → EpochView
run_view [] v = v
run_view (e ∷ es) v = run_view es (step_view e v)

abbrev pub snapshot_view : EpochView → ℕ → EpochSnapshot
snapshot_view v live = record {
  generation = v.generation;
  distinct_insertions = saturating (live + v.deletions);
  had_delete = v.had_delete;
  placement_recoveries = v.recoveries;
  transition = v.transition;
}

abbrev flag : Bool → ℕ
flag true = 1
flag false = 0

-- The word of `s` holds the counters of `v`.
record Represents (v : EpochView) (s : EpochState) : Type 0 where
  word :
      Holds v.generation v.recoveries (transition_bits v.transition) (flag v.had_delete) s.lifecycle
  deleted : s.deletions ≡ v.deletions

initial-Represents : Represents initial_view initial_state
unfolding transition_bits
initial-Represents = record {
  word = record {
    whole = refl;
    gen_fits = omega arith;
    rec_fits = omega arith;
    tr_fits = omega arith;
    del_fits = omega arith;
  };
  deleted = refl;
}

step-Represents :
    (e : Event) (v : EpochView) (s : EpochState)
    → Represents v s
    → Represents (step_view e v) (step e s)
unfolding step
step-Represents delete v s r = record {
  word = note_delete-Holds s r.word;
  deleted = unfold note_delete in ap (λ t. saturating (t + 1)) r.deleted;
}
step-Represents recover v s r = record {
  word = note_placement_recovery-Holds s r.word;
  deleted = unfold note_placement_recovery in r.deleted;
}
step-Represents (begin transition true) v s r = record {
  word =
      unfold start_epoch in
      start-Holds (note_placement_recovery s) (note_placement_recovery-Holds s r.word) transition;
  deleted = unfold start_epoch in refl;
}
step-Represents (begin transition false) v s r = record {
  word = unfold start_epoch in start-Holds s r.word transition;
  deleted = unfold start_epoch in refl;
}

flag_nonzero : (b : Bool) → not (flag b * 2 ^ 63 == 0) ≡ b
flag_nonzero true = refl
flag_nonzero false = refl

snapshot-Represents :
    (v : EpochView) (s : EpochState) (live : ℕ)
    → Represents v s
    → snapshot s live ≡ snapshot_view v live
unfolding snapshot
snapshot-Represents v s live r =
    let g = generation-Holds s r.word in
    let d = ap (λ t. saturating (live + t)) r.deleted in
    let h = ap (λ t. not (t == 0)) (delete_field s r.word) ∙ flag_nonzero v.had_delete in
    let p = placement_recoveries-Holds s r.word in
    let t =
      ap transition_from_bits (transition_field s r.word)
      ∙ transition_from_bits-transition_bits v.transition in
    λ i. record {
      generation = g i;
      distinct_insertions = d i;
      had_delete = h i;
      placement_recoveries = p i;
      transition = t i;
    }

run-Represents :
    (es : List Event) (v : EpochView) (s : EpochState)
    → Represents v s
    → Represents (run_view es v) (run es s)
unfolding run
run-Represents [] v s r = r
run-Represents (e ∷ es) v s r =
    run-Represents es (step_view e v) (step e s) (step-Represents e v s r)

-- After any sequence of deletes, recoveries and new epochs, the snapshot that is unpacked from the
-- lifecycle word is that of separate counters: the generation saturates at 32 bits, the recoveries
-- at 28, a new epoch clears the deletes and keeps the recoveries, and no field disturbs another.
pub snapshot-run :
    (es : List Event) (live : ℕ)
    → snapshot (run es initial_state) live ≡ snapshot_view (run_view es initial_view) live
snapshot-run es live =
    snapshot-Represents (run_view es initial_view) (run es initial_state) live
      (run-Represents es initial_view initial_state initial-Represents)
