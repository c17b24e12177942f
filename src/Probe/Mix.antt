-- ===== src/Probe/Mix.antt =====
-- exact/probe.rs: the keyed permutations and the probe words.
use opthash_rs.Prelude.{ℕ, ◌<<<◌, ◌>>>◌, bit_or, bit_xor, wrapping_add, wrapping_mul}

pub record CounterPrf : Type 0 where
  pub seed : ℕ

pub record FunnelPrf : Type 0 where
  pub seed : ℕ

pub record PreparedElasticProbe : Type 0 where
  pub key : ℕ

pub record PreparedFastFunnelProbe : Type 0 where
  pub key_in : ℕ
  pub key_out : ℕ

pub record PreparedFastFunnelDomainProbe : Type 0 where
  pub key_in : ℕ
  pub key_out : ℕ
  pub counter_base : ℕ

abbrev pub initial_lane : ℕ
initial_lane = 0x9e37_79b9_7f4a_7c15

abbrev pub key_lane : ℕ
key_lane = 0x2D35_8DCC_AA6C_78A5

abbrev pub domain_kind_lane : ℕ
domain_kind_lane = 0x8BB8_4B93_962E_ACC9

unfoldable pub xor_shift : ℕ → ℕ → ℕ
xor_shift k value = bit_xor value (value >>> k)

unfoldable pub mix64 : ℕ → ℕ
unfolding xor_shift
mix64 value =
    let first = wrapping_mul (xor_shift 30 value) 0xbf58_476d_1ce4_e5b9 in
    let second = wrapping_mul (xor_shift 27 first) 0x94d0_49bb_1331_11eb in xor_shift 31 second

unfoldable pub prepare_elastic : CounterPrf → ℕ → PreparedElasticProbe
prepare_elastic prf key_hash = record {
  key = wrapping_add (wrapping_add key_hash prf.seed) initial_lane;
}

unfoldable pub prepare : FunnelPrf → ℕ → PreparedFastFunnelProbe
unfolding mix64
prepare prf key_hash =
    let keyed = wrapping_add key_hash prf.seed in
    record {
      key_in = wrapping_add keyed key_lane;
      key_out = mix64 (wrapping_add keyed domain_kind_lane);
    }

unfoldable pub routing_signature : PreparedElasticProbe → ℕ
routing_signature probe = probe.key

unfoldable pub word_from_packed : PreparedElasticProbe → ℕ → ℕ
unfolding mix64
word_from_packed probe counter = bit_xor (mix64 (bit_xor counter probe.key)) probe.key

unfoldable pub word_from_counter_base : PreparedElasticProbe → ℕ → ℕ → ℕ
unfolding word_from_packed
word_from_counter_base probe counter_base rejection_index =
    word_from_packed probe (bit_or counter_base rejection_index)

unfoldable pub prepare_counter_base : PreparedFastFunnelProbe → ℕ → PreparedFastFunnelDomainProbe
prepare_counter_base probe counter_base = record {
  key_in = probe.key_in;
  key_out = probe.key_out;
  counter_base = counter_base;
}

unfoldable pub word_from_indices : PreparedFastFunnelDomainProbe → ℕ → ℕ → ℕ
unfolding mix64
word_from_indices probe logical_probe_index rejection_index =
    let counter = bit_or (bit_or probe.counter_base (logical_probe_index <<< 8)) rejection_index in
    bit_xor (mix64 (bit_xor counter probe.key_in)) probe.key_out
