-- ===== src/Probe/Range.antt =====
-- exact/probe.rs: exact reduction of random words to an index below a bound.
use opthash_rs.Prelude.{
  ℕ, zero, suc, ◌+◌, ◌-◌, ◌*◌, ◌/◌, ◌%◌, Bool, Result, ok, err, ltb, leb, ◌==◌, if◌then◌else◌,
  wrapping_neg, u64_mod, ◌>>>◌,
}
use opthash_rs.Prelude.Log.{is_power_of_two, trailing_zeros}
use opthash_rs.Probe.Counter.{elastic_rejection_limit}
use opthash_rs.Probe.Mix.{
  PreparedElasticProbe, PreparedFastFunnelDomainProbe, word_from_counter_base, word_from_indices,
}

pub record ProbeIndex : Type 0 where
  pub index : ℕ
  pub random_word_count : ℕ

pub data RangeReductionError : Type 0 where
  zero_upper_bound : RangeReductionError
  rejection_limit_exceeded : ℕ → RangeReductionError

pub record PreparedProbeRange : Type 0 where
  pub upper : ℕ
  pub rejection_threshold : ℕ

abbrev pub threshold : ℕ → ℕ
threshold upper = wrapping_neg upper % upper

unfoldable pub new_range : ℕ → Result PreparedProbeRange RangeReductionError
new_range upper =
    if upper == 0
    then err zero_upper_bound
    else ok (record { upper = upper; rejection_threshold = threshold upper })

-- One word is accepted if the low half of its product reaches the threshold; its index is the
-- high half.
abbrev pub accepts : ℕ → ℕ → ℕ → Bool
accepts upper rejection_threshold word = leb rejection_threshold (word * upper % u64_mod)

abbrev pub high_half : ℕ → ℕ → ℕ
high_half upper word = word * upper / u64_mod

-- The loop over the retries from `rejection_index` on, with `left` of them to go.
unfoldable pub reduce_from : ℕ → ℕ → (ℕ → ℕ) → ℕ → ℕ → Result ProbeIndex RangeReductionError
reduce_from upper rejection_threshold word zero rejection_index =
    err (rejection_limit_exceeded rejection_index)
reduce_from upper rejection_threshold word (suc left) rejection_index =
    let rest = reduce_from upper rejection_threshold word left (rejection_index + 1) in
    if accepts upper rejection_threshold (word rejection_index)
    then ok (record {
      index = high_half upper (word rejection_index);
      random_word_count = rejection_index + 1;
    })
    else rest

unfoldable pub reduce_probe_words : ℕ → ℕ → (ℕ → ℕ) → Result ProbeIndex RangeReductionError
unfolding reduce_from
reduce_probe_words upper max_random_words word =
    if upper == 0
    then err zero_upper_bound
    else reduce_from upper (threshold upper) word max_random_words 0

unfoldable pub reduce_prepared_elastic_non_power :
    PreparedElasticProbe → ℕ → ℕ → ℕ → Result ProbeIndex RangeReductionError
reduce_prepared_elastic_non_power probe counter_base upper max_random_words =
    reduce_probe_words upper max_random_words (word_from_counter_base probe counter_base)

unfoldable pub unbiased_prepared_elastic_probe_index :
    PreparedElasticProbe → ℕ → ℕ → ℕ → Result ProbeIndex RangeReductionError
unbiased_prepared_elastic_probe_index probe counter_base upper max_random_words =
    if ltb elastic_rejection_limit max_random_words
    then err (rejection_limit_exceeded 0)
    else if is_power_of_two upper
    then if max_random_words == 0
      then err (rejection_limit_exceeded 0)
      else ok (record {
        index =
            if upper == 1
            then 0
            else word_from_counter_base probe counter_base 0 >>> (64 - trailing_zeros upper);
        random_word_count = 1;
      })
    else reduce_prepared_elastic_non_power probe counter_base upper max_random_words

-- The retries of the Funnel path, from the second word on.
unfoldable pub reduce_prepared_funnel_retries :
    PreparedFastFunnelDomainProbe
    → ℕ
    → PreparedProbeRange
    → ℕ
    → Result ProbeIndex RangeReductionError
unfolding reduce_from word_from_indices
reduce_prepared_funnel_retries probe logical_probe_index range last_rejection_index =
    reduce_from range.upper range.rejection_threshold (word_from_indices probe logical_probe_index)
      last_rejection_index 1

unfoldable pub unbiased_prepared_funnel_probe_index_in_range :
    PreparedFastFunnelDomainProbe
    → ℕ
    → PreparedProbeRange
    → ℕ
    → Result ProbeIndex RangeReductionError
unfolding reduce_prepared_funnel_retries
unbiased_prepared_funnel_probe_index_in_range probe logical_probe_index range max_random_words =
    if max_random_words == 0
    then err (rejection_limit_exceeded 0)
    else if leb 256 (max_random_words - 1)
    then err (rejection_limit_exceeded 0)
    else if accepts range.upper range.rejection_threshold
        (word_from_indices probe logical_probe_index 0)
    then ok (record {
      index = high_half range.upper (word_from_indices probe logical_probe_index 0);
      random_word_count = 1;
    })
    else reduce_prepared_funnel_retries probe logical_probe_index range (max_random_words - 1)
