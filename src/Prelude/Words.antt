-- ===== src/Prelude/Words.antt =====
-- Machine words as native numbers. A value of a w-bit type is below `2 ^ w`; `usize` has 64 bits.
use Prim.Native.Nat.{ℕ, ◌+◌, ◌-◌, ◌*◌, ◌/◌, ◌%◌, ◌^◌, min}
use mathlib.Core.Option.{Option, none, some}
use opthash_rs.Prelude.Tests.{ltb, leb, if◌then◌else◌}

abbrev pub usize_bits : ℕ
usize_bits = 64

-- `usize::MAX` and `u64::MAX`, plus one.
abbrev pub u64_mod : ℕ
u64_mod = 2 ^ 64

abbrev pub u32_mod : ℕ
u32_mod = 2 ^ 32

abbrev pub u128_mod : ℕ
u128_mod = 2 ^ 128

-- `wrapping_add`, `wrapping_mul` and `wrapping_neg` on `u64`.
abbrev pub wrapping_add : ℕ → ℕ → ℕ
wrapping_add a b = (a + b) % u64_mod

abbrev pub wrapping_mul : ℕ → ℕ → ℕ
wrapping_mul a b = a * b % u64_mod

abbrev pub wrapping_neg : ℕ → ℕ
wrapping_neg a = (u64_mod - a) % u64_mod

-- `checked_add`, `checked_mul`, `checked_sub` at the modulus of the type.
abbrev pub checked : ℕ → ℕ → Option ℕ
checked modulus value = if ltb value modulus then some value else none

abbrev pub checked_sub : ℕ → ℕ → Option ℕ
checked_sub a b = if leb b a then some (a - b) else none

-- `saturating_add` and `saturating_mul` on `usize`.
abbrev pub saturating : ℕ → ℕ
saturating value = min value (u64_mod - 1)

infixl 75 ◌<<<◌ ◌>>>◌
-- `x << k` before the cast to its type, and `x >> k`.
abbrev pub ◌<<<◌ : ℕ → ℕ → ℕ
x <<< k = x * 2 ^ k

abbrev pub ◌>>>◌ : ℕ → ℕ → ℕ
x >>> k = x / 2 ^ k

-- `usize::div_ceil` by a positive divisor.
abbrev pub div_ceil : ℕ → ℕ → ℕ
div_ceil a d = a / d + min (a % d) 1
