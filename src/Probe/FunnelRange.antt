-- ===== src/Probe/FunnelRange.antt =====
-- exact/probe.rs: the Funnel index, whose first word is read ahead of the loop.
use opthash_rs.Prelude.{ℕ, zero, suc, ◌≤◌, ◌<◌, ◌≡◌, arith, Bool-cases, inl, inr, ok, ◌==◌}
use opthash_rs.Probe.Mix.{PreparedFastFunnelDomainProbe, word_from_indices}
use opthash_rs.Probe.Range.{
  PreparedProbeRange, new_range, threshold, reduce_from, reduce_probe_words,
  reduce_prepared_funnel_retries, unbiased_prepared_funnel_probe_index_in_range,
}

module _ (probe : PreparedFastFunnelDomainProbe) (logical upper : ℕ) where
  abbrev prepared_range : PreparedProbeRange
  prepared_range = record { upper = upper; rejection_threshold = threshold upper }

  in_range :
      (max_random_words : ℕ)
      → max_random_words ≤ 256
      → 0 < upper
      → unbiased_prepared_funnel_probe_index_in_range probe logical prepared_range max_random_words
        ≡ reduce_probe_words upper max_random_words (word_from_indices probe logical)
  unfolding unbiased_prepared_funnel_probe_index_in_range reduce_prepared_funnel_retries
      reduce_probe_words reduce_from
  in_range zero h pos = ground arith
  in_range (suc m) h pos = ground arith

-- For a range that `new` prepares and up to 256 words, the Funnel's index is that of the reduction
-- by rejection over the words of its domain.
pub funnel_probe_index-reduce :
    (probe : PreparedFastFunnelDomainProbe) (logical upper max_random_words : ℕ)
    {range : PreparedProbeRange}
    → max_random_words ≤ 256
    → new_range upper ≡ ok range
    → unbiased_prepared_funnel_probe_index_in_range probe logical range max_random_words
      ≡ reduce_probe_words upper max_random_words (word_from_indices probe logical)
unfolding new_range
funnel_probe_index-reduce probe logical upper max_random_words {range} h e =
    elim (Bool-cases (upper == 0)) [
      | inl none_left ↦ absurd (ground (arith, rw none_left at e))
      | inr some_left ↦
          let same : prepared_range probe logical upper ≡ range = cc (rw some_left at e) in
          rw (← same) (in_range probe logical upper max_random_words h (ground arith))
    ]
