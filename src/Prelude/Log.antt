-- ===== src/Prelude/Log.antt =====
-- Quotients and remainders by a variable, powers of two, and the bit length of a word.
use Prim.Native.Nat.{ℕ, zero, suc, ◌+◌, ◌-◌, ◌*◌, ◌/◌, ◌%◌, ◌^◌, ◌≤◌, ◌<◌}
use mathlib.Core.Logic.{inl, inr}
use mathlib.Core.Path.{◌≡◌, refl, ap}
use native.Mathlib.Nat.{le-div_iff_mul-le, div-mul-le_self, pow-suc, one-le-pow, pow-le-pow_right}
use native.Mathlib.Omega.{arith}
use mathlib.Core.Bool.{Bool, true, false}
use opthash_rs.Prelude.Tests.{◌==◌, ==_refl, ==_iff, ltb, ltb→lt, ltb→le, Bool-cases}

pub mod_unique : (m q r a : ℕ) → a ≡ q * m + r → r < m → a % m ≡ r
mod_unique m q r a e h = grind arith

pub div_unique : (m q r a : ℕ) → a ≡ q * m + r → r < m → a / m ≡ q
div_unique m q r a e h = grind arith

pub mod_double : (p a : ℕ) → 0 < p → a % (2 * p) ≡ 2 * (a / 2 % p) + a % 2
mod_double p a h =
    mod_unique (2 * p) (a / 2 / p) (2 * (a / 2 % p) + a % 2) a (grind arith) (grind arith)

pub div_double : (p a : ℕ) → 0 < p → a / (2 * p) ≡ a / 2 / p
div_double p a h =
    div_unique (2 * p) (a / 2 / p) (2 * (a / 2 % p) + a % 2) a (grind arith) (grind arith)

pub div-add_le : (p a b : ℕ) → 0 < p → a / p + b / p ≤ (a + b) / p
div-add_le p a b h =
    (le-div_iff_mul-le {k = p} {x = a / p + b / p} {y = a + b} h).1
      (omega (arith, div-mul-le_self a p, div-mul-le_self b p))

pub div-double_le : (p a : ℕ) → 0 < p → a / (2 * p) ≤ a / p
div-double_le p a h =
    (le-div_iff_mul-le {k = p} {x = a / (2 * p)} {y = a} h).1
      (omega (arith, div-mul-le_self a (2 * p)))

pub pow2-pos : (k : ℕ) → 0 < 2 ^ k
pow2-pos k = one-le-pow k 2 (omega arith)

pub pow2-suc : (k : ℕ) → 2 ^ suc k ≡ 2 * 2 ^ k
pow2-suc k = omega (arith, pow-suc 2 k)

pub pow2-add : (j k : ℕ) → 2 ^ (j + k) ≡ 2 ^ j * 2 ^ k
pow2-add zero k = let e : zero + k ≡ k = omega arith in omega (arith, ap (λ (t : ℕ). 2 ^ t) e)
pow2-add (suc j) k =
    let e : suc j + k ≡ suc (j + k) = omega arith in
    let step = ap (λ (t : ℕ). t * 2 ^ k) (pow2-suc j) in
    omega (arith, ap (λ (t : ℕ). 2 ^ t) e, pow2-suc (j + k), pow2-add j k, step)

pub pow2_mono : (j k : ℕ) → j ≤ k → 2 ^ j ≤ 2 ^ k
pow2_mono j k h = pow-le-pow_right (omega arith) h

pub pow2_strict : (j k : ℕ) → j < k → 2 ^ j < 2 ^ k
pow2_strict j k h = omega (arith, pow2-suc j, pow2-pos j, pow2_mono (suc j) k h)

pub pow2_reflect : (j k : ℕ) → 2 ^ j < 2 ^ k → j < k
pow2_reflect j k h = elim (Bool-cases (ltb j k)) [
  | inl lt ↦ ltb→lt j k lt
  | inr ge ↦ absurd (omega (arith, pow2_mono k j (ltb→le j k ge)))
]

-- `w - x.leading_zeros()` for a w-bit `x`: the digits of its binary representation.
bit_length_fuel : ℕ → ℕ → ℕ
bit_length_fuel zero x = 0
bit_length_fuel (suc f) zero = 0
bit_length_fuel (suc f) (suc x) = suc (bit_length_fuel f (suc x / 2))

unfoldable pub bit_length : ℕ → ℕ
unfolding bit_length_fuel
bit_length x = bit_length_fuel x x

bit_length_enough : (n m x : ℕ) → x ≤ n → x ≤ m → bit_length_fuel n x ≡ bit_length_fuel m x
unfolding bit_length_fuel
bit_length_enough zero zero x p q = refl
bit_length_enough zero (suc m) zero p q = refl
bit_length_enough zero (suc m) (suc x) p q = absurd (omega arith)
bit_length_enough (suc n) zero zero p q = refl
bit_length_enough (suc n) zero (suc x) p q = absurd (omega arith)
bit_length_enough (suc n) (suc m) zero p q = refl
bit_length_enough (suc n) (suc m) (suc x) p q =
    ap suc (bit_length_enough n m (suc x / 2) (omega arith) (omega arith))

pub bit_length-zero : bit_length 0 ≡ 0
unfolding bit_length
bit_length-zero = refl

pub bit_length-half : (x : ℕ) → 0 < x → bit_length x ≡ suc (bit_length (x / 2))
unfolding bit_length
bit_length-half zero h = absurd (omega arith)
bit_length-half (suc x) h =
    ap suc (bit_length_enough x (suc x / 2) (suc x / 2) (omega arith) (omega arith))

bit_length_bounds_fuel :
    (n x : ℕ)
    → x ≤ n
    → 0 < x
    → (x < 2 ^ bit_length x) × (2 ^ bit_length x ≤ 2 * x) × (0 < bit_length x)
bit_length_bounds_fuel zero x h p = absurd (omega arith)
bit_length_bounds_fuel (suc n) zero h p = absurd (omega arith)
bit_length_bounds_fuel (suc n) (suc zero) h p = unfold bit_length in omega arith
bit_length_bounds_fuel (suc n) (suc (suc x)) h p =
    let half = bit_length_bounds_fuel n (suc (suc x) / 2) (omega arith) (omega arith) in
    rw (bit_length-half (suc (suc x)) p) (omega (arith, pow2-suc (bit_length (suc (suc x) / 2))))

-- A positive word has its leading bit at place `bit_length x - 1`.
pub bit_length_bounds :
    (x : ℕ) → 0 < x → (x < 2 ^ bit_length x) × (2 ^ bit_length x ≤ 2 * x) × (0 < bit_length x)
bit_length_bounds x p = bit_length_bounds_fuel x x (omega arith) p

pub lt-pow2-bit_length : (x : ℕ) → x < 2 ^ bit_length x
lt-pow2-bit_length zero = pow2-pos (bit_length 0)
lt-pow2-bit_length (suc x) = (bit_length_bounds (suc x) (omega arith)).0

pub bit_length-le : (x k : ℕ) → x < 2 ^ k → bit_length x ≤ k
bit_length-le zero k h = rw bit_length-zero (omega arith)
bit_length-le (suc x) k h = elim (Bool-cases (ltb k (bit_length (suc x)))) [
  | inl more ↦
      let b = bit_length_bounds (suc x) (omega arith) in
      let m = pow2_mono (suc k) (bit_length (suc x)) (ltb→lt _ _ more) in
      absurd (omega (arith, pow2-suc k))
  | inr less ↦ ltb→le _ _ less
]

pub bit_length_mono : (x y : ℕ) → x ≤ y → bit_length x ≤ bit_length y
bit_length_mono x y h = bit_length-le x (bit_length y) (omega (arith, lt-pow2-bit_length y))

pub bit_length_unique : (x k : ℕ) → 2 ^ k ≤ x → x < 2 ^ suc k → bit_length x ≡ suc k
bit_length_unique x k lo hi =
    let b = bit_length_bounds x (omega (arith, pow2-pos k)) in
    let up = pow2_reflect k (bit_length x) (omega arith) in
    omega (arith, bit_length-le x (suc k) hi)

-- `x.trailing_zeros()` of a positive word.
trailing_zeros_fuel : ℕ → ℕ → ℕ
trailing_zeros_fuel zero x = 0
trailing_zeros_fuel (suc f) x = elim (x % 2 == 1) [
  | true ↦ 0
  | false ↦ suc (trailing_zeros_fuel f (x / 2))
]

unfoldable pub trailing_zeros : ℕ → ℕ
unfolding trailing_zeros_fuel
trailing_zeros x = trailing_zeros_fuel x x

unfoldable pub is_power_of_two : ℕ → Bool
unfolding bit_length
is_power_of_two x = x == 2 ^ (bit_length x - 1)

trailing_zeros-pow2_fuel : (n k : ℕ) → 2 ^ k ≤ n → trailing_zeros_fuel n (2 ^ k) ≡ k
unfolding trailing_zeros_fuel
trailing_zeros-pow2_fuel zero k h = absurd (omega (arith, pow2-pos k))
trailing_zeros-pow2_fuel (suc n) zero h = refl
trailing_zeros-pow2_fuel (suc n) (suc k) h =
    let p = pow2-suc k in
    let odd : (2 ^ suc k % 2 == 1) ≡ false = ground arith in
    let half : 2 ^ suc k / 2 ≡ 2 ^ k = omega arith in
    rw (odd, trailing_zeros_fuel, half)
      (ap suc (trailing_zeros-pow2_fuel n k (omega (arith, pow2-pos k))))

pub trailing_zeros-pow2 : (k : ℕ) → trailing_zeros (2 ^ k) ≡ k
unfolding trailing_zeros
trailing_zeros-pow2 k = trailing_zeros-pow2_fuel (2 ^ k) k (omega arith)

pub bit_length-pow2 : (k : ℕ) → bit_length (2 ^ k) ≡ suc k
bit_length-pow2 k =
    bit_length_unique (2 ^ k) k (omega arith) (omega (arith, pow2-suc k, pow2-pos k))

-- Exactly the powers of two pass the test.
pub is_power_of_two_pow2 : (k : ℕ) → is_power_of_two (2 ^ k) ≡ true
unfolding is_power_of_two
is_power_of_two_pow2 k =
    let e : suc k - 1 ≡ k = omega arith in rw (bit_length-pow2 k, e) (==_refl (2 ^ k))

pub is_power_of_two_exponent : (x : ℕ) → is_power_of_two x ≡ true → x ≡ 2 ^ (bit_length x - 1)
unfolding is_power_of_two
is_power_of_two_exponent x h = (==_iff x _).0 h
