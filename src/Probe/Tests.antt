-- ===== src/Probe/Tests.antt =====
-- Runs of exact/probe.rs on concrete words, and the instances of its theorems.
use opthash_rs.Prelude.{
  ℕ, ◌+◌, ◌*◌, ◌%◌, ◌≤◌, ◌<◌, ◌≡◌, ◌↔◌, refl, arith, some, none, ok, true, ◌||◌, leb, if◌then◌else◌,
  u64_mod,
}
use opthash_rs.Prelude.{min, checked, ◌^◌}
use opthash_rs.Probe.Mix.{PreparedFastFunnelDomainProbe, word_from_indices}
use opthash_rs.Probe.Range.{
  PreparedProbeRange, new_range, unbiased_prepared_funnel_probe_index_in_range,
}
use opthash_rs.Probe.PhiBounded.{elastic_phi_bounded-value}
use opthash_rs.Probe.PhiValue.{phi_value}
use opthash_rs.Probe.FunnelRange.{funnel_probe_index-reduce}
use opthash_rs.Probe.Phi.{or_budget_overflow}
use opthash_rs.Probe.Budget.{elastic_dyadic_probe_budget_exact}
use opthash_rs.Prelude.Log.{bit_length}
use opthash_rs.Probe.Counter.{
  funnel_ordinary, try_pack_elastic_counter, elastic_counter_base, try_pack_funnel_counter,
  domain_fields, funnel_counter,
}
use opthash_rs.Probe.Packing.{try_pack_elastic_injective, try_pack_funnel_injective}
use opthash_rs.Probe.Mix.{CounterPrf, PreparedElasticProbe, word_from_counter_base}
use opthash_rs.Probe.Permutation.{mix64_injective, elastic_word_injective}
use opthash_rs.Probe.Range.{
  ProbeIndex, accepts, threshold, high_half, reduce_probe_words, reduce_from,
  unbiased_prepared_elastic_probe_index,
}
use opthash_rs.Probe.Reduced.{Reduced, reduce_probe_words-Reduced}
use opthash_rs.Probe.Unbiased.{first_word, share, reduce_unbiased}
use opthash_rs.Probe.Shortcut.{elastic_probe_index-reduce}
use opthash_rs.Probe.Phi.{
  append_bit, append_bits, append_pairs, elastic_phi, elastic_phi_bounded, spread_low_16,
  ratio_ceiling, elastic_dyadic_probe_budget,
}
use opthash_rs.Probe.PhiQuery.{elastic_phi_injective, elastic_phi_mono, elastic_phi-bounded}

abbrev two : ℕ
two = 2

abbrev three : ℕ
three = 3

abbrev five : ℕ
five = 5

abbrev seven : ℕ
seven = 7

packed : try_pack_elastic_counter 3 5 2 ≡ some 0x3002a
unfolding try_pack_elastic_counter elastic_counter_base
packed = refl

packed_funnel : try_pack_funnel_counter (funnel_ordinary 3) 5 2 ≡ some 0x30502
unfolding try_pack_funnel_counter domain_fields funnel_counter
packed_funnel = refl

try_pack_elastic_injective_example : (three ≡ three) × (five ≡ five) × (two ≡ two)
try_pack_elastic_injective_example =
    try_pack_elastic_injective 3 5 2 3 5 2 {counter = 0x3002a} packed packed

try_pack_funnel_injective_example :
    (funnel_ordinary 3 ≡ funnel_ordinary 3) × (five ≡ five) × (two ≡ two)
try_pack_funnel_injective_example =
    try_pack_funnel_injective (funnel_ordinary 3) (funnel_ordinary 3) 5 2 5 2 {counter = 0x30502}
      packed_funnel packed_funnel

mix64_injective_example : seven ≡ seven
mix64_injective_example = mix64_injective 7 7 (omega arith) (omega arith) refl

abbrev prf : CounterPrf
prf = record { seed = 0xa076_1d64_78bd_642f }

elastic_word_injective_example : (three ≡ three) × (five ≡ five) × (two ≡ two)
elastic_word_injective_example =
    elastic_word_injective prf 42 3 5 2 3 5 2 {counter = 0x3002a} {counter' = 0x3002a} packed packed
      refl

-- A source of words: multiples of a large odd constant.
abbrev words : ℕ → ℕ
words j = (j + 1) * 0x9e37_79b9_7f4a_7c15 % u64_mod

words-lt : (j : ℕ) → words j < u64_mod
words-lt j = omega arith

reduced_run : reduce_probe_words 10 8 words ≡ ok (record { index = 6; random_word_count = 1 })
unfolding reduce_probe_words reduce_from
reduced_run = refl

reduce_probe_words-Reduced_example :
    Reduced 10 (threshold 10) words 0 8 (reduce_probe_words 10 8 words)
    × ((p : ProbeIndex) → reduce_probe_words 10 8 words ≡ ok p → p.index < 10)
reduce_probe_words-Reduced_example = reduce_probe_words-Reduced 10 8 words (omega arith) words-lt

reduce_unbiased_example :
    ((accepts 10 (threshold 10) 12345 ≡ true) × (high_half 10 12345 ≡ 0))
    ↔ ((first_word 10 0 ≤ 12345) × (12345 < first_word 10 0 + share 10))
reduce_unbiased_example = reduce_unbiased 10 0 12345 (omega arith) (omega arith)

abbrev probe : PreparedElasticProbe
probe = record { key = 0x1234_5678_9abc_def0 }

elastic_probe_index-reduce_example :
    unbiased_prepared_elastic_probe_index probe 0x30028 16 8
    ≡ reduce_probe_words 16 8 (word_from_counter_base probe 0x30028)
elastic_probe_index-reduce_example =
    elastic_probe_index-reduce probe 0x30028 8 (omega arith) 16 (omega arith) (omega arith)
      (omega arith)

phi_two_three : elastic_phi 2 3 ≡ ok 122
unfolding elastic_phi append_pairs append_bits append_bit bit_length
phi_two_three = refl

phi_bounded_agrees : elastic_phi_bounded 2 3 ≡ some 122
unfolding elastic_phi_bounded spread_low_16 bit_length
phi_bounded_agrees = refl

elastic_phi_bounded-value_example :
    elastic_phi_bounded 32 511
    ≡ (if leb (2 ^ 16) 511 || leb u64_mod (phi_value 32 511) then none else some (phi_value 32 511))
elastic_phi_bounded-value_example = elastic_phi_bounded-value 32 511

phi_two_four : elastic_phi 2 4 ≡ ok 466
unfolding elastic_phi append_pairs append_bits append_bit bit_length
phi_two_four = refl

elastic_phi_injective_example : (two ≡ two) × (three ≡ three)
elastic_phi_injective_example = elastic_phi_injective 2 3 2 3 122 phi_two_three phi_two_three

elastic_phi_mono_example : 122 < 466
elastic_phi_mono_example = elastic_phi_mono 2 3 4 122 466 phi_two_three phi_two_four (omega arith)

elastic_phi-bounded_example : (v : ℕ) × (elastic_phi 2 3 ≡ ok v) × (v < 16 * 2 * (3 * 3))
elastic_phi-bounded_example = elastic_phi-bounded 2 3 (omega arith) (omega arith) (omega arith)

budget_run : elastic_dyadic_probe_budget 10 64 4 8 ≡ ok 32
unfolding elastic_dyadic_probe_budget ratio_ceiling bit_length
budget_run = refl

elastic_dyadic_probe_budget_exact_example :
    (l : ℕ) × (64 ≤ 2 ^ l * 10)
    × ((m : ℕ) → m < l → 2 ^ m * 10 < 64)
    × (elastic_dyadic_probe_budget 10 64 4 8
        ≡ or_budget_overflow (checked u64_mod (8 * min (l * l) 4)))
elastic_dyadic_probe_budget_exact_example =
    elastic_dyadic_probe_budget_exact 10 64 4 8 (omega arith) (omega arith) (omega arith)
      (omega arith)

abbrev domain_probe : PreparedFastFunnelDomainProbe
domain_probe = record { key_in = 17; key_out = 99; counter_base = 0x30000 }

abbrev ten_range : PreparedProbeRange
ten_range = record { upper = 10; rejection_threshold = 6 }

ten_prepared : new_range 10 ≡ ok ten_range
unfolding new_range
ten_prepared = refl

funnel_probe_index-reduce_example :
    unbiased_prepared_funnel_probe_index_in_range domain_probe 5 ten_range 8
    ≡ reduce_probe_words 10 8 (word_from_indices domain_probe 5)
funnel_probe_index-reduce_example =
    funnel_probe_index-reduce domain_probe 5 10 8 {range = ten_range} (omega arith) ten_prepared
