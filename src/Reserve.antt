-- ===== src/Reserve.antt =====
-- reserve.rs: `ReserveFraction`, an exact `1 / 2^d`. An `f64` is given by its bits, `to_bits()`,
-- a number below `2 ^ 64`; the comparisons are those of IEEE 754 on such bits.
pub mod Float
mod Tests
use opthash_rs.Prelude.{
  ℕ, ◌+◌, ◌-◌, ◌*◌, ◌/◌, ◌%◌, ◌^◌, Option, none, some, Bool, not, ◌||◌, Result, ok, err, ltb, leb,
  ◌==◌, if◌then◌else◌, ◌>>>◌, ◌<<<◌, bit_and,
}
use opthash_rs.Prelude.Log.{trailing_zeros, is_power_of_two}
use opthash_rs.Geometry.Arith.{floor_div_pow2}

pub record ReserveFraction : Type 0 where
  pub exponent : ℕ

pub data ReserveFractionError : Type 0 where
  exponent_zero non_finite non_positive not_below_one not_inverse_power_of_two :
      ReserveFractionError

abbrev pub f64_exponent_bias : ℕ
f64_exponent_bias = 1023

abbrev pub f64_mantissa_bits : ℕ
f64_mantissa_bits = 52

abbrev pub f64_min_subnormal_exponent : ℕ
f64_min_subnormal_exponent = f64_exponent_bias + f64_mantissa_bits - 1

abbrev pub default : ReserveFraction
default = record { exponent = 3 }

unfoldable pub from_exponent : ℕ → Result ReserveFraction ReserveFractionError
from_exponent exponent =
    if exponent == 0 then err exponent_zero else ok (record { exponent = exponent })

unfoldable pub floor_reserved : ReserveFraction → ℕ → ℕ
floor_reserved r n = floor_div_pow2 n r.exponent

unfoldable pub floor_half_reserved : ReserveFraction → ℕ → ℕ
floor_half_reserved r n = floor_div_pow2 n (r.exponent + 1)

unfoldable pub to_f64 : ReserveFraction → Option ℕ
to_f64 r =
    if leb 1 r.exponent
    then if ltb r.exponent f64_exponent_bias
      then some ((f64_exponent_bias - r.exponent) <<< f64_mantissa_bits)
      else if leb r.exponent f64_min_subnormal_exponent
      then some (1 <<< (f64_min_subnormal_exponent - r.exponent))
      else none
    else none

-- `value.is_finite()`, `value <= 0.0` of a finite value and `value >= 1.0` of a positive one.
abbrev pub is_finite : ℕ → Bool
is_finite bits = not ((bits >>> 52) % 2048 == 2047)

abbrev pub at_most_zero : ℕ → Bool
at_most_zero bits = bits == 0 || leb (2 ^ 63) bits

abbrev pub at_least_one : ℕ → Bool
at_least_one bits = leb (1023 <<< 52) bits

unfoldable pub exponent_of : ℕ → ℕ → Result ReserveFraction ReserveFractionError
unfolding from_exponent
exponent_of biased_exponent significand =
    if biased_exponent == 0
    then if is_power_of_two significand
      then from_exponent (f64_min_subnormal_exponent - trailing_zeros significand)
      else err not_inverse_power_of_two
    else if significand == 0
    then from_exponent (f64_exponent_bias - biased_exponent)
    else err not_inverse_power_of_two

unfoldable pub try_from : ℕ → Result ReserveFraction ReserveFractionError
unfolding exponent_of
try_from bits =
    if not (is_finite bits)
    then err non_finite
    else if at_most_zero bits
    then err non_positive
    else if at_least_one bits
    then err not_below_one
    else exponent_of (bit_and (bits >>> f64_mantissa_bits) 0x7ff)
        (bit_and bits ((1 <<< f64_mantissa_bits) - 1))
