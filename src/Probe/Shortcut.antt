-- ===== src/Probe/Shortcut.antt =====
-- exact/probe.rs: the shortcut of the Elastic index for a power of two.
use opthash_rs.Prelude.{
  ℕ, zero, suc, ◌+◌, ◌-◌, ◌*◌, ◌/◌, ◌%◌, ◌^◌, ◌≤◌, ◌<◌, ◌≡◌, inl, inr, refl, ap, sym, ◌∙◌, arith,
  bit_or, bit_xor, false, Result, ok, err, Bool-cases, ltb, ◌==◌, u64_mod, le→ltb, if◌then◌else◌,
}
use mathlib.Core.Path.{subst}
use opthash_rs.Prelude.Log.{
  is_power_of_two, is_power_of_two_exponent, is_power_of_two_pow2, pow2-suc, trailing_zeros-pow2,
  bit_length, mod_unique, pow2_reflect, pow2-pos, pow2_strict, pow2-add,
}
use opthash_rs.Prelude.Bits.{bit_xor-lt}
use opthash_rs.Probe.Mix.{PreparedElasticProbe, mix64, word_from_counter_base}
use opthash_rs.Probe.Permutation.{mix64-lt}
use opthash_rs.Probe.Range.{
  ProbeIndex, RangeReductionError, rejection_limit_exceeded, high_half, threshold, reduce_from,
  reduce_probe_words, unbiased_prepared_elastic_probe_index, reduce_prepared_elastic_non_power,
}
use native.Mathlib.Nat.{mul-div-mul_right}

-- A power of two rejects no word, and the high half is the word's leading bits.
power_threshold : (k : ℕ) → k ≤ 63 → threshold (2 ^ k) ≡ 0
power_threshold k h =
    let m = pow2-pos k in
    let n = pow2-pos (64 - k) in
    let top = pow2_strict k 64 (omega arith) in
    let e : 64 - k + k ≡ 64 = omega arith in
    let whole : u64_mod ≡ 2 ^ (64 - k) * 2 ^ k =
      ap (λ (x : ℕ). 2 ^ x) (sym e) ∙ pow2-add (64 - k) k in
    let less : 2 ^ (64 - k) ≡ 2 ^ (64 - k) - 1 + 1 = omega arith in
    let product = ap (λ (x : ℕ). x * 2 ^ k) less in
    let same : (u64_mod - 2 ^ k) % u64_mod ≡ u64_mod - 2 ^ k = omega arith in
    rw same (mod_unique (2 ^ k) (2 ^ (64 - k) - 1) 0 (u64_mod - 2 ^ k) (omega arith) m)

power_high : (k word : ℕ) → k ≤ 63 → high_half (2 ^ k) word ≡ word / 2 ^ (64 - k)
power_high k word h =
    let e : 64 - k + k ≡ 64 = omega arith in
    let whole = ap (λ (x : ℕ). 2 ^ x) (sym e) ∙ pow2-add (64 - k) k in
    ap (λ (x : ℕ). word * 2 ^ k / x) whole ∙ mul-div-mul_right word (2 ^ (64 - k)) (pow2-pos k)

-- The words of a prepared probe are 64-bit words.
pub word_from_counter_base-lt :
    (probe : PreparedElasticProbe) (base j : ℕ)
    → probe.key < u64_mod
    → word_from_counter_base probe base j < u64_mod
unfolding word_from_counter_base
word_from_counter_base-lt probe base j h =
    bit_xor-lt 64 (mix64 (bit_xor (bit_or base j) probe.key)) probe.key (mix64-lt _) h

module _ (probe : PreparedElasticProbe) (base max_random_words : ℕ)
    (few : max_random_words ≤ 8) where
  index_other :
      (upper : ℕ)
      → is_power_of_two upper ≡ false
      → unbiased_prepared_elastic_probe_index probe base upper max_random_words
        ≡ reduce_probe_words upper max_random_words (word_from_counter_base probe base)
  unfolding unbiased_prepared_elastic_probe_index reduce_prepared_elastic_non_power
  index_other upper other = ground arith

  abbrev first_index : ℕ → Result ProbeIndex RangeReductionError
  first_index i = ok (record { index = i; random_word_count = 1 })

  reduce_power :
      (k : ℕ)
      → k ≤ 63
      → reduce_probe_words (2 ^ k) max_random_words (word_from_counter_base probe base) ≡ (
          if max_random_words == 0
          then err (rejection_limit_exceeded 0)
          else first_index (word_from_counter_base probe base 0 / 2 ^ (64 - k)))
  reduce_power k h =
      let z : (2 ^ k == 0) ≡ false = let m = pow2-pos k in ground arith in
      unfold reduce_probe_words in rw (z, power_threshold k h) (go max_random_words)
    where
      go :
          (m : ℕ)
          → reduce_from (2 ^ k) 0 (word_from_counter_base probe base) m 0 ≡ (
              if m == 0
              then err (rejection_limit_exceeded 0)
              else first_index (word_from_counter_base probe base 0 / 2 ^ (64 - k)))
      go zero = unfold reduce_from in refl
      go (suc m) =
          unfold reduce_from in ground (arith, power_high k (word_from_counter_base probe base 0) h)

  index_power :
      (k : ℕ)
      → k ≤ 63
      → probe.key < u64_mod
      → unbiased_prepared_elastic_probe_index probe base (2 ^ k) max_random_words ≡ (
          if max_random_words == 0
          then err (rejection_limit_exceeded 0)
          else first_index (word_from_counter_base probe base 0 / 2 ^ (64 - k)))
  unfolding unbiased_prepared_elastic_probe_index
  index_power k h hk =
      let few' : ltb 8 max_random_words ≡ false = le→ltb _ _ few in
      let word = word_from_counter_base probe base 0 in
      let w = word_from_counter_base-lt probe base 0 hk in
      rw (few', is_power_of_two_pow2 k, trailing_zeros-pow2 k) (index k)
    where
      index :
          (k : ℕ)
          → (if max_random_words == 0
              then err (rejection_limit_exceeded 0)
              else first_index
                  (if 2 ^ k == 1 then 0 else word_from_counter_base probe base 0 / 2 ^ (64 - k)))
            ≡ (if max_random_words == 0
                then err (rejection_limit_exceeded 0)
                else first_index (word_from_counter_base probe base 0 / 2 ^ (64 - k)))
      index zero =
          let w = word_from_counter_base-lt probe base 0 hk in
          let none_left : word_from_counter_base probe base 0 / 2 ^ (64 - zero) ≡ 0 = omega arith in
          rw none_left
      index (suc k) =
          let m = pow2-pos k in
          let s = pow2-suc k in let more : (2 ^ suc k == 1) ≡ false = ground arith in rw more

  -- The shortcut for a power of two and the loop for every other bound compute one function, the
  -- reduction by rejection: for a key below `2 ^ 64`, a positive bound below `2 ^ 64` and up to
  -- eight words.
  pub elastic_probe_index-reduce :
      (upper : ℕ)
      → probe.key < u64_mod
      → 0 < upper
      → upper < u64_mod
      → unbiased_prepared_elastic_probe_index probe base upper max_random_words
        ≡ reduce_probe_words upper max_random_words (word_from_counter_base probe base)
  elastic_probe_index-reduce upper hk pos fits = elim (Bool-cases (is_power_of_two upper)) [
    | inr other ↦ index_other upper other
    | inl power ↦
        let k = bit_length upper - 1 in
        let e = is_power_of_two_exponent upper power in
        let below : k < 64 = pow2_reflect k 64 (omega arith) in
        let at = index_power k (omega arith) hk ∙ sym (reduce_power k (omega arith)) in
        subst
          (λ u.
            unbiased_prepared_elastic_probe_index probe base u max_random_words
            ≡ reduce_probe_words u max_random_words (word_from_counter_base probe base))
          (sym e) at
  ]
