-- ===== src/Geometry/Rounding.antt =====
-- What the rounding formulas of `Geometry.Arith` compute.
use opthash_rs.Prelude.{
  ℕ, zero, suc, ◌+◌, ◌-◌, ◌*◌, ◌/◌, ◌%◌, ◌^◌, ◌≤◌, ◌<◌, ◌≡◌, ◌↔◌, inl, inr, arith, leb, leb→le,
  ◌==◌, u64_mod, usize_bits, Bool-cases, sym,
}
use opthash_rs.Prelude.Log.{bit_length_bounds, pow2-pos, pow2_mono}
use opthash_rs.Geometry.Arith.{
  round_up, ceil_div_pow2, floor_three_div_pow2, floor_div_pow2, ceil_log2, ceil_three_quarters,
  minimum_next_bucket_count, maximum_next_bucket_count,
}
use native.Mathlib.Nat.{div-eq_of_lt, mod-eq_of_lt, div-lt_iff_lt-mul}

pub floor_div_pow2_lem : (v e : ℕ) → v < u64_mod → floor_div_pow2 v e ≡ v / 2 ^ e
unfolding floor_div_pow2
floor_div_pow2_lem v e h = elim (Bool-cases (leb usize_bits e)) [
  | inl big ↦
      let m = pow2_mono 64 e (leb→le _ _ big) in
      rw big (sym (div-eq_of_lt {n = v} {m = 2 ^ e} (omega arith)))
  | inr small ↦ rw small
]

-- Rounding a quotient up: the least multiple of `p` at or above `v`, and it does not wrap.
round_up_bounds :
    (v p : ℕ)
    → 0 < p
    → 0 < v
    → (v ≤ (v / p + round_up v p) * p)
      × ((v / p + round_up v p) * p < v + p)
      × (v / p + round_up v p ≤ v)
round_up_bounds v p h k = elim (Bool-cases (v % p == 0)) [
  | inl even ↦ rw even (grind arith)
  | inr odd ↦ rw odd (grind arith)
]

-- For a value below `2 ^ 64`, `ceil_div_pow2` times the power of two is at least the value, and
-- exceeds it by less than the power: it is the exact ceiling.
pub ceil_div_pow2_bounds :
    (v e : ℕ)
    → v < u64_mod
    → (v ≤ ceil_div_pow2 v e * 2 ^ e) × (ceil_div_pow2 v e * 2 ^ e < v + 2 ^ e)
unfolding ceil_div_pow2
ceil_div_pow2_bounds zero e h = let p = pow2-pos e in omega arith
ceil_div_pow2_bounds (suc v) e h = elim (Bool-cases (leb 128 e)) [
  | inl big ↦ let m = pow2_mono 128 e (leb→le _ _ big) in rw big (ground arith)
  | inr small ↦
      let b = round_up_bounds (suc v) (2 ^ e) (pow2-pos e) (omega arith) in
      let fits : (suc v / 2 ^ e + round_up (suc v) (2 ^ e)) % u64_mod
          ≡ suc v / 2 ^ e + round_up (suc v) (2 ^ e) =
        mod-eq_of_lt (omega arith) in
      rw (small, fits) (ground (arith, b))
]

-- `floor_three_div_pow2` is the floor where the exponent leaves the quotient below `2 ^ 64`.
pub floor_three_div_pow2_lem :
    (v e : ℕ) → v < u64_mod → 2 ≤ e → floor_three_div_pow2 v e ≡ v * 3 / 2 ^ e
unfolding floor_three_div_pow2
floor_three_div_pow2_lem v e h k = elim (Bool-cases (leb 128 e)) [
  | inl big ↦
      let m = pow2_mono 128 e (leb→le _ _ big) in
      rw big (sym (div-eq_of_lt {n = v * 3} {m = 2 ^ e} (omega arith)))
  | inr small ↦
      let q = div-lt_iff_lt-mul {k = 2 ^ e} {x = v * 3} {y = u64_mod} (pow2-pos e) in
      let m = pow2_mono 2 e k in rw small (mod-eq_of_lt (q.1 (grind arith)))
]

-- For a value of at least two, `2 ^ ceil_log2` is at least the value and below twice the value, and
-- `ceil_log2` is positive.
pub ceil_log2_bounds :
    (v : ℕ) → 2 ≤ v → (v ≤ 2 ^ ceil_log2 v) × (2 ^ ceil_log2 v < 2 * v) × (0 < ceil_log2 v)
unfolding ceil_log2
ceil_log2_bounds v h = let b = bit_length_bounds (v - 1) (omega arith) in ground (arith, b)

-- After a positive count, the next counts between the two bounds of the code are exactly those that
-- are positive, not larger, and within one of three quarters.
pub next_bucket_count_iff :
    (current next : ℕ)
    → 0 < current
    → ((minimum_next_bucket_count current ≤ next) × (next ≤ maximum_next_bucket_count current)) ↔ (
        (1 ≤ next) × (next ≤ current) × (4 * next ≤ 3 * current + 4) × (3 * current ≤ 4 * next + 4))
unfolding minimum_next_bucket_count maximum_next_bucket_count ceil_three_quarters
next_bucket_count_iff current next h = ground arith
