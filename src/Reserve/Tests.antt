-- ===== src/Reserve/Tests.antt =====
-- Conversions of reserve.rs on concrete bits, and the instances of its theorems.
use opthash_rs.Prelude.{ℕ, ◌≡◌, refl, arith, some, ok, err}
use opthash_rs.Reserve.{
  not_inverse_power_of_two, default, from_exponent, to_f64, exponent_of, try_from,
}
use opthash_rs.Reserve.Float.{try_from-to_f64, to_f64-try_from}

-- The bits of `0.125` and of `0.75`.
default_bits : to_f64 default ≡ some 0x3fc0_0000_0000_0000
unfolding to_f64
default_bits = refl

read_bits : try_from 0x3fc0_0000_0000_0000 ≡ ok default
unfolding try_from exponent_of from_exponent
read_bits = refl

three_quarters : try_from 0x3fe8_0000_0000_0000 ≡ err not_inverse_power_of_two
unfolding try_from exponent_of from_exponent
three_quarters = refl

try_from-to_f64_example : (bits : ℕ) × (to_f64 default ≡ some bits) × (try_from bits ≡ ok default)
try_from-to_f64_example = try_from-to_f64 default (omega arith) (omega arith)

to_f64-try_from_example : to_f64 default ≡ some 0x3fc0_0000_0000_0000
to_f64-try_from_example =
    to_f64-try_from 0x3fc0_0000_0000_0000 {r = default} (omega arith) read_bits
