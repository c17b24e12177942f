-- ===== src/Elastic/Tests.antt =====
-- A run of the filter, and the instance of its theorem.
use opthash_rs.Prelude.{
  ◌+◌, ◌/◌, ◌^◌, ◌≤◌, ◌<◌, ◌≡◌, refl, arith, max, some, none, true, false, List, [], ◌∷◌,
}
use opthash_rs.Prelude.Bits.{bit}
use opthash_rs.Probe.Mix.{prepare_elastic, routing_signature}
use opthash_rs.Membership.{MetadataWord, from_signature, set_fields, word, word_count}
use opthash_rs.Elastic.Filter.{
  prepared_key, summary_bin, expanded_level_mask, summary_level, cleared_word, record_membership,
  route_filter,
}
use opthash_rs.Elastic.Scheduler.{
  bootstrap, level_pair, running_ends, batch_at, sync, reset, new_scheduler, target_of, target,
}
use opthash_rs.Elastic.Batch.{ask_target, ask_reset, asked, target-asked}
use opthash_rs.Elastic.Shape.{ElasticGeometry, for_slots, Shared, for_slots-Shared}
use opthash_rs.Reserve.{default}
use opthash_rs.Control.{
  ctrl_empty, ctrl_tombstone, is_occupied, is_free, control_fingerprint, control_fingerprint_lem,
}
use opthash_rs.Elastic.Recorded.{record_all, record_membership-no_false_negative}

abbrev three_words : List MetadataWord
three_words = cleared_word ∷ cleared_word ∷ cleared_word ∷ []

words_run : word_count 25 ≡ 3
unfolding word_count
words_run = refl

absent_run : (route_filter (prepared_key 7) three_words).maybe_present ≡ false
unfolding route_filter prepared_key prepare_elastic routing_signature from_signature set_fields word
    summary_bin
absent_run = refl

-- Level 20 sets the shared summary bit, which stands for every level from 15.
mask_run :
    expanded_level_mask
      (route_filter (prepared_key 7) (record_membership (prepared_key 7) 20 three_words))
    ≡ 0xffff_8000
unfolding expanded_level_mask route_filter record_membership summary_level prepared_key
    prepare_elastic routing_signature from_signature set_fields word summary_bin
mask_run = refl

record_membership-no_false_negative_example :
    ((route_filter (prepared_key 7) (
        record_all
          ((prepared_key 9, 3) ∷ [])
          (record_membership (prepared_key 7) 20 three_words))).maybe_present
      ≡ true)
    × (bit 20 (
          expanded_level_mask (
            route_filter (prepared_key 7) (
              record_all
                ((prepared_key 9, 3) ∷ [])
                (record_membership (prepared_key 7) 20 three_words))))
        ≡ 1)
record_membership-no_false_negative_example =
    record_membership-no_false_negative 7 20 three_words ((prepared_key 9, 3) ∷ []) (omega arith)
      (omega arith) (refl, (refl, (refl, tt)))

-- A zero quota is never selected, and the last batch stays active.
targets_run :
    ((target 0 (new_scheduler (2 ∷ 0 ∷ 3 ∷ []))).0 ≡ bootstrap)
    × ((target 2 (new_scheduler (2 ∷ 0 ∷ 3 ∷ []))).0 ≡ level_pair 1)
    × ((target 9 (new_scheduler (2 ∷ 0 ∷ 3 ∷ []))).0 ≡ level_pair 1)
unfolding target new_scheduler running_ends reset sync
targets_run = (refl, refl, refl)

target-asked_example :
    (target 4
      (asked (ask_target 1 ∷ ask_reset ∷ ask_target 9 ∷ []) (new_scheduler (2 ∷ 0 ∷ 3 ∷ [])))).0
    ≡ target_of (batch_at (running_ends 0 (2 ∷ 0 ∷ 3 ∷ [])) 4)
target-asked_example =
    target-asked (2 ∷ 0 ∷ 3 ∷ []) (ask_target 1 ∷ ask_reset ∷ ask_target 9 ∷ []) 4

for_slots-Shared_example :
    (g : ElasticGeometry) × (for_slots 64 default ≡ some (some g)) × Shared 64 g
for_slots-Shared_example = for_slots-Shared 64 default (omega arith) (omega arith)

too_large : for_slots (2 ^ 32 + 1) default ≡ some none
unfolding for_slots
too_large = refl

control_fingerprint_lem_example :
    (control_fingerprint 9 ≡ max (9 / 2 ^ 57) 1)
    × (1 ≤ control_fingerprint 9)
    × (control_fingerprint 9 < ctrl_tombstone)
    × (is_occupied (control_fingerprint 9) ≡ true)
    × (is_free (control_fingerprint 9) ≡ false)
    × (is_free ctrl_empty ≡ true)
    × (is_free ctrl_tombstone ≡ true)
control_fingerprint_lem_example = control_fingerprint_lem 9 (omega arith)
