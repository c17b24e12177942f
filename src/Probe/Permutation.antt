-- ===== src/Probe/Permutation.antt =====
-- The mixer permutes the 64-bit words, so distinct counters give distinct probe words.
use opthash_rs.Prelude.{
  ℕ, zero, suc, ◌+◌, ◌*◌, ◌/◌, ◌%◌, ◌^◌, ◌≤◌, ◌<◌, ◌≡◌, ap, sym, ◌∙◌, arith, bit_xor, u64_mod,
  wrapping_mul, some,
}
use opthash_rs.Prelude.Bits.{bit, bit-xor, bit_xor-lt, bit_ext, bit_xor_cancel, flip}
use opthash_rs.Prelude.Log.{pow2_mono, pow2-add}
use native.Mathlib.Nat.{div-eq_of_lt, div-le_self, div-div-eq-div-mul, mod-lt}
use opthash_rs.Probe.Counter.{try_pack_elastic_counter}
use opthash_rs.Probe.Packing.{try_pack_elastic-IsPacked}
use opthash_rs.Probe.Mix.{
  xor_shift, mix64, word_from_packed, PreparedElasticProbe, CounterPrf, prepare_elastic,
}

xor_shift-lt : (k x : ℕ) → x < u64_mod → xor_shift k x < u64_mod
unfolding xor_shift
xor_shift-lt k x h = bit_xor-lt 64 x (x / 2 ^ k) h (omega (arith, div-le_self x (2 ^ k)))

bit_beyond : (i x : ℕ) → x < u64_mod → 64 ≤ i → bit i x ≡ 0
bit_beyond i x h k =
    let m = pow2_mono 64 i k in
    let e = div-eq_of_lt {n = x} {m = 2 ^ i} (omega arith) in omega arith

bit_shifted : (k i x : ℕ) → bit i (x / 2 ^ k) ≡ bit (k + i) x
bit_shifted k i x = rw (pow2-add k i, div-div-eq-div-mul)

module _ (k a b : ℕ) (pos : 1 ≤ k) (fa : a < u64_mod) (fb : b < u64_mod)
    (same : xor_shift k a ≡ xor_shift k b) where
  bit_same : (i : ℕ) → flip (bit i a) (bit (k + i) a) ≡ flip (bit i b) (bit (k + i) b)
  unfolding xor_shift
  bit_same i =
      rw (← bit_shifted k i a, ← bit_shifted k i b)
        (sym (bit-xor i a (a / 2 ^ k)) ∙ ap (λ (t : ℕ). bit i t) same ∙ bit-xor i b (b / 2 ^ k))

  -- From the top bit down.
  bits_from : (m i : ℕ) → 64 ≤ i + m → bit i a ≡ bit i b
  bits_from zero i h = bit_beyond i a fa (omega arith) ∙ sym (bit_beyond i b fb (omega arith))
  bits_from (suc m) i h = omega (arith, bit_same i, bits_from m (k + i) (omega arith))

  xor_shift_injective : a ≡ b
  xor_shift_injective = bit_ext 64 a b fa fb (λ i below. bits_from 64 i (omega arith))

-- The multipliers are odd: here with their inverses modulo `2 ^ 64`.
first_mul_injective :
    (a b : ℕ)
    → a < u64_mod
    → b < u64_mod
    → wrapping_mul a 0xbf58_476d_1ce4_e5b9 ≡ wrapping_mul b 0xbf58_476d_1ce4_e5b9
    → a ≡ b
first_mul_injective a b fa fb e =
    let back : (x : ℕ)
        → x < u64_mod
        → x * 0xbf58_476d_1ce4_e5b9 % u64_mod * 10871156337175269513 % u64_mod ≡ x =
      λ x h. omega arith in
    sym (back a fa) ∙ ap (λ (t : ℕ). t * 10871156337175269513 % u64_mod) e ∙ back b fb

second_mul_injective :
    (a b : ℕ)
    → a < u64_mod
    → b < u64_mod
    → wrapping_mul a 0x94d0_49bb_1331_11eb ≡ wrapping_mul b 0x94d0_49bb_1331_11eb
    → a ≡ b
second_mul_injective a b fa fb e =
    let back : (x : ℕ)
        → x < u64_mod
        → x * 0x94d0_49bb_1331_11eb % u64_mod * 3573116690164977347 % u64_mod ≡ x =
      λ x h. omega arith in
    sym (back a fa) ∙ ap (λ (t : ℕ). t * 3573116690164977347 % u64_mod) e ∙ back b fb

-- Two 64-bit words that `mix64` maps to the same word are the same word.
pub mix64_injective : (a b : ℕ) → a < u64_mod → b < u64_mod → mix64 a ≡ mix64 b → a ≡ b
unfolding mix64
mix64_injective a b fa fb e =
    let m = λ (x : ℕ). wrapping_mul (xor_shift 30 x) 0xbf58_476d_1ce4_e5b9 in
    let s = λ (x : ℕ). wrapping_mul (xor_shift 27 (m x)) 0x94d0_49bb_1331_11eb in
    let third = xor_shift_injective 31 (s a) (s b) (omega arith) (omega arith) (omega arith) e in
    let second =
      second_mul_injective (xor_shift 27 (m a)) (xor_shift 27 (m b))
        (xor_shift-lt 27 (m a) (omega arith)) (xor_shift-lt 27 (m b) (omega arith)) third in
    let second' =
      xor_shift_injective 27 (m a) (m b) (omega arith) (omega arith) (omega arith) second in
    let first =
      first_mul_injective (xor_shift 30 a) (xor_shift 30 b) (xor_shift-lt 30 a fa)
        (xor_shift-lt 30 b fb) second' in
    xor_shift_injective 30 a b (omega arith) fa fb first

pub mix64-lt : (x : ℕ) → mix64 x < u64_mod
unfolding mix64
mix64-lt x = xor_shift-lt 31 _ (mod-lt _ (omega arith))

prepare_elastic-lt :
    (prf : CounterPrf) (key_hash : ℕ) → (prepare_elastic prf key_hash).key < u64_mod
unfolding prepare_elastic
prepare_elastic-lt prf key_hash = mod-lt _ (omega arith)

word_injective :
    (probe : PreparedElasticProbe) (c d : ℕ)
    → probe.key < u64_mod
    → c < u64_mod
    → d < u64_mod
    → word_from_packed probe c ≡ word_from_packed probe d
    → c ≡ d
unfolding word_from_packed
word_injective probe c d fk fc fd e =
    let outer =
      bit_xor_cancel 64 (mix64 (bit_xor c probe.key)) (mix64 (bit_xor d probe.key)) probe.key
        (mix64-lt (bit_xor c probe.key)) (mix64-lt (bit_xor d probe.key)) e in
    let inner =
      mix64_injective (bit_xor c probe.key) (bit_xor d probe.key) (bit_xor-lt 64 c probe.key fc fk)
        (bit_xor-lt 64 d probe.key fd fk) outer in
    bit_xor_cancel 64 c d probe.key fc fd inner

-- For one key, two Elastic requests that are given the same probe word are the same request:
-- level, logical probe and retry.
pub elastic_word_injective :
    (prf : CounterPrf) (key_hash : ℕ) (level logical rejection level' logical' rejection' : ℕ)
    {counter counter' : ℕ}
    → try_pack_elastic_counter level logical rejection ≡ some counter
    → try_pack_elastic_counter level' logical' rejection' ≡ some counter'
    → word_from_packed (prepare_elastic prf key_hash) counter
      ≡ word_from_packed (prepare_elastic prf key_hash) counter'
    → (level ≡ level') × (logical ≡ logical') × (rejection ≡ rejection')
elastic_word_injective prf key_hash level logical rejection level' logical' rejection' {counter}
      {counter'} e e' same =
    let p = try_pack_elastic-IsPacked level logical rejection e in
    let q = try_pack_elastic-IsPacked level' logical' rejection' e' in
    let equal =
      word_injective (prepare_elastic prf key_hash) counter counter'
        (prepare_elastic-lt prf key_hash) (omega arith) (omega arith) same in
    omega arith
