-- ===== src/Epoch.antt =====
-- epoch.rs: the compact lifecycle word of a table, and the snapshot read from it.
pub mod View
pub mod Refine
mod Tests
use opthash_rs.Prelude.{
  ℕ, ◌+◌, ◌-◌, ◌*◌, ◌/◌, ◌^◌, min, Bool, true, false, not, ◌==◌, if◌then◌else◌, ◌<<<◌, ◌>>>◌,
  bit_and, bit_or, saturating, u64_mod, u32_mod,
}

abbrev pub generation_mask : ℕ
generation_mask = u32_mod - 1

abbrev pub recovery_shift : ℕ
recovery_shift = 32

abbrev pub recovery_mask : ℕ
recovery_mask = (2 ^ 28 - 1) * 2 ^ 32

abbrev pub transition_shift : ℕ
transition_shift = 60

abbrev pub transition_mask : ℕ
transition_mask = (2 ^ 3 - 1) * 2 ^ 60

abbrev pub had_delete_mask : ℕ
had_delete_mask = (2 ^ 1 - 1) * 2 ^ 63

pub data EpochTransition : Type 0 where
  initial growth tombstone_cleanup explicit_resize clear placement_recovery : EpochTransition

pub record EpochSnapshot : Type 0 where
  pub generation : ℕ
  pub distinct_insertions : ℕ
  pub had_delete : Bool
  pub placement_recoveries : ℕ
  pub transition : EpochTransition

pub record EpochState : Type 0 where
  pub deletions : ℕ
  pub lifecycle : ℕ

-- `transition as u64`.
unfoldable pub transition_bits : EpochTransition → ℕ
transition_bits initial = 0
transition_bits growth = 1
transition_bits tombstone_cleanup = 2
transition_bits explicit_resize = 3
transition_bits clear = 4
transition_bits placement_recovery = 5

unfoldable pub transition_from_bits : ℕ → EpochTransition
transition_from_bits bits =
    if bits == 1
    then growth
    else if bits == 2
    then tombstone_cleanup
    else if bits == 3
    then explicit_resize
    else if bits == 4
    then clear
    else if bits == 5
    then placement_recovery
    else initial

abbrev pub initial_state : EpochState
initial_state = record { deletions = 0; lifecycle = 0 }

unfoldable pub generation : EpochState → ℕ
generation s = bit_and s.lifecycle generation_mask

unfoldable pub placement_recoveries : EpochState → ℕ
placement_recoveries s = bit_and s.lifecycle recovery_mask >>> recovery_shift

unfoldable pub note_delete : EpochState → EpochState
note_delete s = record {
  deletions = saturating (s.deletions + 1);
  lifecycle = bit_or s.lifecycle had_delete_mask;
}

unfoldable pub start : EpochTransition → EpochState → EpochState
unfolding generation transition_bits
start transition s =
    let next = min (generation s + 1) (u32_mod - 1) in
    record {
      deletions = 0;
      lifecycle =
          bit_or (bit_or (bit_and s.lifecycle recovery_mask) next)
            (transition_bits transition <<< transition_shift);
    }

unfoldable pub note_placement_recovery : EpochState → EpochState
unfolding placement_recoveries
note_placement_recovery s =
    let recoveries = min (placement_recoveries s + 1) (recovery_mask >>> recovery_shift) in
    record s {
      lifecycle =
          bit_or (bit_and s.lifecycle (u64_mod - 1 - recovery_mask))
            (recoveries <<< recovery_shift);
    }

unfoldable pub start_with_placement_recovery : EpochTransition → EpochState → EpochState
unfolding start note_placement_recovery
start_with_placement_recovery transition s = start transition (note_placement_recovery s)

unfoldable pub start_epoch : EpochTransition → Bool → EpochState → EpochState
unfolding start_with_placement_recovery
start_epoch transition recovered s =
    if recovered then start_with_placement_recovery transition s else start transition s

unfoldable pub snapshot : EpochState → ℕ → EpochSnapshot
unfolding generation placement_recoveries transition_from_bits
snapshot s live_entries = record {
  generation = generation s;
  distinct_insertions = saturating (live_entries + s.deletions);
  had_delete = not (bit_and s.lifecycle had_delete_mask == 0);
  placement_recoveries = placement_recoveries s;
  transition = transition_from_bits (bit_and s.lifecycle transition_mask >>> transition_shift);
}
