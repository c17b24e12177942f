-- ===== src/Geometry/Arith.antt =====
-- exact/geometry.rs: the rounding formulas. Arguments are `usize` values, below `2 ^ 64`; the
-- intermediate `u128` values do not wrap.
use opthash_rs.Prelude.{
  ℕ, ◌+◌, ◌-◌, ◌*◌, ◌/◌, ◌%◌, ◌^◌, leb, ltb, ◌==◌, if◌then◌else◌, ◌>>>◌, usize_bits, u64_mod,
}
use opthash_rs.Prelude.Log.{bit_length}

-- `value.is_multiple_of(divisor)` counted as the 0 or 1 that the callers add.
abbrev pub round_up : ℕ → ℕ → ℕ
round_up value divisor = if value % divisor == 0 then 0 else 1

unfoldable pub ceil_div_pow2 : ℕ → ℕ → ℕ
ceil_div_pow2 value exponent =
    if value == 0
    then 0
    else if leb 128 exponent
    then 1
    else (value / 2 ^ exponent + round_up value (2 ^ exponent)) % u64_mod

unfoldable pub floor_three_div_pow2 : ℕ → ℕ → ℕ
floor_three_div_pow2 value exponent =
    if leb 128 exponent then 0 else ((value * 3) >>> exponent) % u64_mod

unfoldable pub floor_div_pow2 : ℕ → ℕ → ℕ
floor_div_pow2 value exponent = if leb usize_bits exponent then 0 else value >>> exponent

-- `usize::BITS - (value - 1).leading_zeros()` is the bit length of `value - 1`.
unfoldable pub ceil_log2 : ℕ → ℕ
ceil_log2 value = if leb value 1 then 0 else bit_length (value - 1)

unfoldable pub base_two_loglog_ceiling : ℕ → ℕ
unfolding ceil_log2
base_two_loglog_ceiling n =
    let loglog_ceiling = ceil_log2 (ceil_log2 n) in
    if loglog_ceiling == 0 then 1 else loglog_ceiling

unfoldable pub ceil_three_quarters : ℕ → ℕ
ceil_three_quarters value = value - value / 4

unfoldable pub minimum_next_bucket_count : ℕ → ℕ
unfolding ceil_three_quarters
minimum_next_bucket_count current =
    let minimum = ceil_three_quarters current - 1 in if minimum == 0 then 1 else minimum

unfoldable pub maximum_next_bucket_count : ℕ → ℕ
maximum_next_bucket_count current =
    let ceil_quarter = current / 4 + round_up current 4 in
    let maximum = current - ceil_quarter + 1 in if ltb current maximum then current else maximum
