-- ===== src/Prelude/Bits.antt =====
-- Laws of `&`, `|` and `^` on machine words, at every width, from the law of the lowest digit.
use Prim.Native.Nat.{
  ℕ, zero, suc, ◌+◌, ◌-◌, ◌*◌, ◌/◌, ◌%◌, ◌^◌, ◌≤◌, ◌<◌, min, max, bit_and, bit_or, digits,
  bit_and-bitwise, bit_or-bitwise, bit_xor-bitwise, bit_xor, differ,
}
use mathlib.Core.Path.{◌≡◌, refl, ap, sym, ◌∙◌}
use native.Mathlib.Nat.{add-zero, div-one}
use opthash_rs.Prelude.Log.{pow2-suc, pow2-pos, mod_double, div_double}
use native.Mathlib.Omega.{arith}

module _ (z : ℕ → ℕ) (f : ℕ → ℕ → ℕ) where
  digits-zero : (n b : ℕ) → digits z f n zero b ≡ z b
  digits-zero zero b = refl
  digits-zero (suc n) b = refl

  -- Fuel beyond the first number is not used.
  digits_enough : (x y k l : ℕ) → x ≤ k → x ≤ l → digits z f k x y ≡ digits z f l x y
  digits_enough zero y k l hk hl = omega (arith, digits-zero k y, digits-zero l y)
  digits_enough (suc x) y (suc k) (suc l) hk hl =
      let half = suc x / 2 in
      let digit = f (suc x % 2) (y % 2) in
      ap (λ t. t * 2 + digit) (digits_enough half (y / 2) k l (omega arith) (omega arith))
  digits_enough (suc x) y k zero hk hl = absurd (omega arith)
  digits_enough (suc x) y zero l hk hl = absurd (omega arith)

  digits-suc :
      (a b : ℕ)
      → digits z f (suc a) (suc a) b
        ≡ digits z f (suc a / 2) (suc a / 2) (b / 2) * 2 + f (suc a % 2) (b % 2)
  digits-suc a b =
      ap (λ t. t * 2 + f (suc a % 2) (b % 2))
        (digits_enough (suc a / 2) (b / 2) a (suc a / 2) (omega arith) (omega arith))

pub bit_and_step : (x y : ℕ) → bit_and x y ≡ bit_and (x / 2) (y / 2) * 2 + min (x % 2) (y % 2)
bit_and_step (suc x) y = simp bit_and-bitwise (digits-suc (λ t. 0) min x y)
bit_and_step zero y = simp bit_and-bitwise (omega arith)

pub bit_or-zero_left : (b : ℕ) → bit_or 0 b ≡ b
bit_or-zero_left b = bit_or-bitwise 0 b

pub bit_and-zero_left : (b : ℕ) → bit_and 0 b ≡ 0
bit_and-zero_left b = bit_and-bitwise 0 b

pub bit_or_step : (x y : ℕ) → bit_or x y ≡ bit_or (x / 2) (y / 2) * 2 + max (x % 2) (y % 2)
bit_or_step zero y = rw (bit_or-zero_left y, bit_or-zero_left (y / 2)) (omega arith)
bit_or_step (suc x) y = simp bit_or-bitwise (digits-suc (λ t. t) max x y)

-- Both operations with zero on the right, by halving.
with_zero : (n a : ℕ) → a ≤ n → (bit_and a 0 ≡ 0) × (bit_or a 0 ≡ a)
with_zero n zero h = (bit_and-zero_left 0, bit_or-zero_left 0)
with_zero zero (suc a) h = absurd (omega arith)
with_zero (suc n) (suc a) h =
    let below = with_zero n (suc a / 2) (omega arith) in
    (omega (arith, bit_and_step (suc a) 0), omega (arith, bit_or_step (suc a) 0))

pub bit_and-zero : (a : ℕ) → bit_and a 0 ≡ 0
bit_and-zero a = (with_zero a a (omega arith)).0

pub bit_or-zero : (a : ℕ) → bit_or a 0 ≡ a
bit_or-zero a = (with_zero a a (omega arith)).1

-- `x & ((1 << k) - 1)` keeps the low k bits.
pub bit_and_mask : (k a : ℕ) → bit_and a (2 ^ k - 1) ≡ a % 2 ^ k
bit_and_mask zero a = omega (arith, bit_and-zero a)
bit_and_mask (suc k) a =
    let p = pow2-pos k in
    let e : (2 * 2 ^ k - 1) / 2 ≡ 2 ^ k - 1 = omega arith in
    rw (pow2-suc k, bit_and_step, e, bit_and_mask k (a / 2), mod_double (2 ^ k) a p) (omega arith)

-- A field shifted past `r` and combined with it is a sum.
pub bit_or_fields : (k q r : ℕ) → r < 2 ^ k → bit_or (q * 2 ^ k) r ≡ q * 2 ^ k + r
bit_or_fields zero q zero h = bit_or-zero (q * 1) ∙ sym (add-zero _)
bit_or_fields zero q (suc r) h = absurd (omega arith)
bit_or_fields (suc k) q r h =
    let e : q * (2 * 2 ^ k) ≡ 2 * (q * 2 ^ k) = omega arith in
    let d : 2 * (q * 2 ^ k) / 2 ≡ q * 2 ^ k = omega arith in
    rw (pow2-suc k, e, bit_or_step, d, bit_or_fields k q (r / 2) (omega (arith, pow2-suc k)))
      (omega arith)

pub bit_or_comm : (n a b : ℕ) → a ≤ n → bit_or a b ≡ bit_or b a
bit_or_comm n zero b h = bit_or-zero_left b ∙ sym (bit_or-zero b)
bit_or_comm zero (suc a) b h = absurd (omega arith)
bit_or_comm (suc n) (suc a) b h = omega (
  arith,
  bit_or_step (suc a) b,
  bit_or_step b (suc a),
  bit_or_comm n (suc a / 2) (b / 2) (omega arith),
)

pub bit_or-lt : (k a b : ℕ) → a < 2 ^ k → b < 2 ^ k → bit_or a b < 2 ^ k
bit_or-lt zero zero b p q = rw bit_or-zero_left q
bit_or-lt zero (suc a) b p q = absurd (omega arith)
bit_or-lt (suc k) a b p q =
    let p' = rw (pow2-suc k) at p in
    let q' = rw (pow2-suc k) at q in
    rw (pow2-suc k)
      (omega (arith, bit_or_step a b, bit_or-lt k (a / 2) (b / 2) (omega arith) (omega arith)))

-- `m & c == c`: every bit of `c` is set in `m`.
abbrev pub Covers : ℕ → ℕ → Type 0
Covers m c = bit_and m c ≡ c

-- Setting bits by `|` keeps every bit that was set, and sets the new ones.
module _ (m b c : ℕ) where
  or_half : bit_or m b / 2 ≡ bit_or (m / 2) (b / 2)
  or_half = omega (arith, bit_or_step m b)

  or_bit : bit_or m b % 2 ≡ max (m % 2) (b % 2)
  or_bit = omega (arith, bit_or_step m b)

  Covers-half : Covers m c → Covers (m / 2) (c / 2)
  Covers-half h = omega (arith, bit_and_step m c)

  Covers-bit : Covers m c → c % 2 ≤ m % 2
  Covers-bit h = omega (arith, bit_and_step m c)

Covers-left_fuel : (n m b c : ℕ) → c ≤ n → Covers m c → Covers (bit_or m b) c
Covers-left_fuel n m b zero p h = bit_and-zero (bit_or m b)
Covers-left_fuel zero m b (suc c) p h = absurd (omega arith)
Covers-left_fuel (suc n) m b (suc c) p h =
    let half =
      Covers-left_fuel n (m / 2) (b / 2) (suc c / 2) (omega arith) (Covers-half m b (suc c) h) in
    rw (bit_and_step, or_half m b 0, or_bit m b 0, half) (omega (arith, Covers-bit m b (suc c) h))

-- Setting bits by `|` keeps every bit that was set, and sets the new ones.
pub or-Covers_left : (m b c : ℕ) → Covers m c → Covers (bit_or m b) c
or-Covers_left m b c h = Covers-left_fuel c m b c (omega arith) h

pub or-Covers_right : (m b c : ℕ) → Covers b c → Covers (bit_or m b) c
or-Covers_right m b c h = rw (bit_or_comm m m b (omega arith)) (or-Covers_left b m c h)

Covers-refl_fuel : (n c : ℕ) → c ≤ n → Covers c c
Covers-refl_fuel n zero p = bit_and-zero 0
Covers-refl_fuel zero (suc c) p = absurd (omega arith)
Covers-refl_fuel (suc n) (suc c) p =
    omega (arith, bit_and_step (suc c) (suc c), Covers-refl_fuel n (suc c / 2) (omega arith))

pub Covers-self : (c : ℕ) → Covers c c
Covers-self c = Covers-refl_fuel c c (omega arith)

-- Bit `i` of a word.
abbrev pub bit : ℕ → ℕ → ℕ
bit i x = x / 2 ^ i % 2

pub bit-or : (i a b : ℕ) → bit i (bit_or a b) ≡ max (bit i a) (bit i b)
bit-or zero a b = omega (arith, bit_or_step a b)
bit-or (suc i) a b =
    let p = pow2-pos i in
    rw (pow2-suc i, div_double _ (bit_or a b) p, div_double _ a p, div_double _ b p, or_half a b 0)
      (bit-or i (a / 2) (b / 2))

pub bit-and : (i a b : ℕ) → bit i (bit_and a b) ≡ min (bit i a) (bit i b)
bit-and zero a b = omega (arith, bit_and_step a b)
bit-and (suc i) a b =
    let p = pow2-pos i in
    let half : bit_and a b / 2 ≡ bit_and (a / 2) (b / 2) = omega (arith, bit_and_step a b) in
    rw (pow2-suc i, div_double _ (bit_and a b) p, div_double _ a p, div_double _ b p, half)
      (bit-and i (a / 2) (b / 2))

-- `a & (mask << j)` for a mask of `k` ones keeps one field, in its place.
pub bit_and_field : (j k a : ℕ) → bit_and a ((2 ^ k - 1) * 2 ^ j) ≡ a / 2 ^ j % 2 ^ k * 2 ^ j
bit_and_field zero k a =
    let e : (2 ^ k - 1) * 2 ^ zero ≡ 2 ^ k - 1 = omega arith in
    let d : a / 2 ^ zero ≡ a = div-one a in
    let u : a % 2 ^ k * 2 ^ zero ≡ a % 2 ^ k = omega arith in rw (e, bit_and_mask k a, d) (sym u)
bit_and_field (suc j) k a =
    let m = 2 ^ k - 1 in
    let whole : m * 2 ^ suc j ≡ 2 * (m * 2 ^ j) =
      omega (arith, ap (λ (t : ℕ). m * t) (pow2-suc j)) in
    let half : 2 * (m * 2 ^ j) / 2 ≡ m * 2 ^ j = omega arith in
    let d = div_double (2 ^ j) a (pow2-pos j) in
    rw (whole, bit_and_step, half, bit_and_field j k (a / 2), pow2-suc j, d)
      (omega (arith, ap (λ (t : ℕ). a / 2 / 2 ^ j % 2 ^ k * t) (pow2-suc j)))

-- `a & !m` is what `a & m` leaves of the low `n` bits.
pub bit_and_complement :
    (n a m : ℕ) → m < 2 ^ n → bit_and a (2 ^ n - 1 - m) + bit_and a m ≡ a % 2 ^ n
bit_and_complement zero a m h = let e : m ≡ 0 = omega arith in rw (e, bit_and-zero a) (omega arith)
bit_and_complement (suc n) a m h =
    let p = pow2-pos n in
    let s = pow2-suc n in
    let c = 2 * 2 ^ n - 1 - m in
    let half : c / 2 ≡ 2 ^ n - 1 - m / 2 = omega arith in
    let low : c % 2 ≡ 1 - m % 2 = omega arith in
    let rest = bit_and_complement n (a / 2) (m / 2) (omega arith) in
    rw (s, bit_and_step a c, bit_and_step a m, half, low, mod_double (2 ^ n) a p) (omega arith)

-- Fields on either side of bit `k` are combined apart.
pub bit_or_split :
    (k a b c d : ℕ)
    → b < 2 ^ k
    → d < 2 ^ k
    → bit_or (a * 2 ^ k + b) (c * 2 ^ k + d) ≡ bit_or a c * 2 ^ k + bit_or b d
bit_or_split zero a b c d h g =
    let eb : b ≡ 0 = omega arith in
    let ed : d ≡ 0 = omega arith in
    let ea : a * 1 + 0 ≡ a = omega arith in
    let ec : c * 1 + 0 ≡ c = omega arith in rw (eb, ed, ea, ec, bit_or-zero_left 0) (omega arith)
bit_or_split (suc k) a b c d h g =
    let s = pow2-suc k in
    let p = ap (λ (t : ℕ). a * t) s in
    let q = ap (λ (t : ℕ). c * t) s in
    let l : (a * 2 ^ suc k + b) / 2 ≡ a * 2 ^ k + b / 2 = omega arith in
    let r : (c * 2 ^ suc k + d) / 2 ≡ c * 2 ^ k + d / 2 = omega arith in
    let rest = bit_or_split k a (b / 2) c (d / 2) (omega arith) (omega arith) in
    rw (bit_or_step (a * 2 ^ suc k + b) (c * 2 ^ suc k + d), l, r, rest)
      (omega (arith, bit_or_step b d, ap (λ (t : ℕ). bit_or a c * t) s))

pub bit_xor_step : (a b : ℕ) → bit_xor a b ≡ bit_xor (a / 2) (b / 2) * 2 + differ (a % 2) (b % 2)
bit_xor_step zero b = simp bit_xor-bitwise (omega arith)
bit_xor_step (suc a) b = simp bit_xor-bitwise (digits-suc (λ t. t) differ a b)

abbrev pub flip : ℕ → ℕ → ℕ
flip a b = (a + b) % 2

differ-flip : (a b : ℕ) → a < 2 → b < 2 → differ a b ≡ flip a b
differ-flip zero b h k = omega arith
differ-flip (suc zero) zero h k = refl
differ-flip (suc zero) (suc b) h k = let e : b ≡ 0 = omega arith in rw e
differ-flip (suc (suc a)) b h k = absurd (omega arith)

xor_parts :
    (a b : ℕ)
    → (bit_xor a b / 2 ≡ bit_xor (a / 2) (b / 2)) × (bit_xor a b % 2 ≡ flip (a % 2) (b % 2))
xor_parts a b =
    let s = bit_xor_step a b in
    let d = differ-flip (a % 2) (b % 2) (omega arith) (omega arith) in (omega arith, omega arith)

pub bit-xor : (i a b : ℕ) → bit i (bit_xor a b) ≡ flip (bit i a) (bit i b)
bit-xor zero a b = omega (arith, xor_parts a b)
bit-xor (suc i) a b =
    let p = pow2-pos i in
    rw
      (
        pow2-suc i,
        div_double _ (bit_xor a b) p,
        div_double _ a p,
        div_double _ b p,
        (xor_parts a b).0,
      )
      (bit-xor i (a / 2) (b / 2))

pub bit_xor-lt : (k a b : ℕ) → a < 2 ^ k → b < 2 ^ k → bit_xor a b < 2 ^ k
bit_xor-lt zero a b p q =
    let e : a ≡ 0 = omega arith in let f : b ≡ 0 = omega arith in rw (e, f) (omega arith)
bit_xor-lt (suc k) a b p q =
    let s = pow2-suc k in
    omega (arith, xor_parts a b, bit_xor-lt k (a / 2) (b / 2) (omega arith) (omega arith))

-- Words of `k` bits with the same bits are equal.
pub bit_ext : (k a b : ℕ) → a < 2 ^ k → b < 2 ^ k → ((i : ℕ) → i < k → bit i a ≡ bit i b) → a ≡ b
bit_ext zero a b p q h = omega arith
bit_ext (suc k) a b p q h =
    let s = pow2-suc k in
    let low = h 0 (omega arith) in
    let high = bit_ext k (a / 2) (b / 2) (omega arith) (omega arith) (λ i below.
      let z = pow2-pos i in
      rw (pow2-suc i, div_double _ a z, div_double _ b z) at (h (suc i) (omega arith))) in
    omega arith

-- Exclusive or with one word is injective.
pub bit_xor_cancel : (k a b c : ℕ) → a < 2 ^ k → b < 2 ^ k → bit_xor a c ≡ bit_xor b c → a ≡ b
bit_xor_cancel k a b c p q e =
    bit_ext k a b p q
      (λ i below. omega (arith, bit-xor i a c, bit-xor i b c, ap (λ (t : ℕ). bit i t) e))
