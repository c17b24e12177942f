-- ===== src/Probe/PhiValue.antt =====
-- exact/probe.rs: the position code as a number.
use opthash_rs.Prelude.{
  ℕ, zero, suc, ◌+◌, ◌*◌, ◌/◌, ◌%◌, ◌^◌, ◌≤◌, ◌<◌, ◌≡◌, ap, sym, ◌∙◌, arith, Option, some, ltb,
  ltb→lt, ltb→le, le→ltb, lt→ltb, false, ◌==◌, Bool-cases, inl, inr, bit_and, checked, u128_mod,
  ◌>>=◌,
}
use opthash_rs.Prelude.Bits.{bit, bit_and_mask}
use opthash_rs.Prelude.Log.{
  bit_length, pow2-suc, pow2-pos, div_double, mod_double, bit_length_bounds,
}
use native.Mathlib.Nat.{mod-eq_of_lt}
use opthash_rs.Probe.Phi.{append_bit, append_pairs, append_bits, elastic_phi, or_overflow}

abbrev pub pow4 : ℕ → ℕ
pow4 zero = 1
pow4 (suc l) = 4 * pow4 l

-- The low `l` bits of `x`, a marker before each.
abbrev pub pair_code : ℕ → ℕ → ℕ
pair_code zero x = 0
pair_code (suc l) x = 4 * pair_code l (x / 2) + 2 + x % 2

unfoldable pub phi_value : ℕ → ℕ → ℕ
phi_value i j = pair_code (bit_length j) j * 2 ^ suc (bit_length i) + i

-- The top pair peeled off.
pair_code_top : (l x : ℕ) → pair_code (suc l) x ≡ (2 + bit l x) * pow4 l + pair_code l x
pair_code_top zero x = omega arith
pair_code_top (suc l) x =
    let p = pow2-pos l in
    let e : bit (suc l) x ≡ bit l (x / 2) = rw (pow2-suc l, div_double (2 ^ l) x p) in
    let rest = pair_code_top l (x / 2) in rw e (omega (arith, rest, ap (λ (t : ℕ). t) rest))

mod_top : (l x : ℕ) → x % 2 ^ suc l ≡ bit l x * 2 ^ l + x % 2 ^ l
mod_top zero x = omega arith
mod_top (suc l) x =
    let p = pow2-pos l in
    let s = pow2-suc l in
    let e : bit (suc l) x ≡ bit l (x / 2) = rw (s, div_double (2 ^ l) x p) in
    let half = mod_top l (x / 2) in
    let m = mod_double (2 ^ l) x p in
    let n = mod_double (2 ^ suc l) x (pow2-pos (suc l)) in
    rw (pow2-suc (suc l), n, e, half, s, m) (omega arith)

append_bit_lem : (e b : ℕ) → b ≤ 1 → append_bit e b ≡ checked u128_mod (2 * e + b)
unfolding append_bit
append_bit_lem e b h = ground arith

bit-le : (i x : ℕ) → bit_and (x / 2 ^ i) 1 ≡ bit i x
bit-le i x = bit_and_mask 1 (x / 2 ^ i)

-- A step that overflows makes the larger result overflow too.
checked_bind :
    (v w : ℕ) (k : ℕ → Option ℕ)
    → v ≤ w
    → (v < u128_mod → k v ≡ checked u128_mod w)
    → (checked u128_mod v >>= k) ≡ checked u128_mod w
checked_bind v w k h next = elim (Bool-cases (ltb v u128_mod)) [
  | inl fits ↦ rw fits (next (ltb→lt _ _ fits))
  | inr over ↦ let more = le→ltb w u128_mod (omega (arith, ltb→le _ _ over)) in rw (over, more)
]

checked_fits : (v w : ℕ) → v ≡ w → v < u128_mod → some v ≡ checked u128_mod w
checked_fits v w e h = let f = lt→ltb w u128_mod (omega arith) in rw f (ap some e)

le_scaled : (v p r w : ℕ) → 0 < p → w ≡ v * p + r → v ≤ w
le_scaled v p r w pos e = grind arith

pub append_bits_lem :
    (i b e : ℕ) → e < u128_mod → append_bits i b e ≡ checked u128_mod (e * 2 ^ b + i % 2 ^ b)
unfolding append_bits
append_bits_lem i zero e h = checked_fits e (e * 2 ^ 0 + i % 2 ^ 0) (omega arith) h
append_bits_lem i (suc b) e h =
    let p = pow2-pos b in
    let total = e * 2 ^ suc b + i % 2 ^ suc b in
    let product = ap (λ (t : ℕ). e * t) (pow2-suc b) in
    let whole : total ≡ (2 * e + bit b i) * 2 ^ b + i % 2 ^ b = omega (arith, mod_top b i) in
    rw (bit-le b i, append_bit_lem e (bit b i) (omega arith))
      (checked_bind (2 * e + bit b i) total (append_bits i b)
        (le_scaled (2 * e + bit b i) (2 ^ b) (i % 2 ^ b) total p whole)
        (λ fits. append_bits_lem i b (2 * e + bit b i) fits ∙ ap (checked u128_mod) (sym whole)))

pow4-pos : (b : ℕ) → 0 < pow4 b
pow4-pos zero = omega arith
pow4-pos (suc b) = omega (arith, pow4-pos b)

pub append_pairs_lem :
    (j b e : ℕ) → e < u128_mod → append_pairs j b e ≡ checked u128_mod (e * pow4 b + pair_code b j)
unfolding append_pairs
append_pairs_lem j zero e h = checked_fits e (e * pow4 0 + pair_code 0 j) (omega arith) h
append_pairs_lem j (suc b) e h =
    let p = pow4-pos b in
    let v = 2 * (2 * e + 1) + bit b j in
    let total = e * pow4 (suc b) + pair_code (suc b) j in
    let whole : total ≡ v * pow4 b + pair_code b j = omega (arith, pair_code_top b j) in
    let below = le_scaled v (pow4 b) (pair_code b j) total p whole in
    rw (append_bit_lem e 1 (omega arith)) (
      checked_bind (2 * e + 1) total _ (omega (arith, below)) (λ fits.
        rw (bit-le b j, append_bit_lem (2 * e + 1) (bit b j) (omega arith))
          (checked_bind v total (append_pairs j b) below
            (λ fits'. append_pairs_lem j b v fits' ∙ ap (checked u128_mod) (sym whole)))))

-- For positive coordinates `elastic_phi` is `phi_value`, or an overflow where that does not fit.
pub elastic_phi-value :
    (i j : ℕ) → 0 < i → 0 < j → elastic_phi i j ≡ or_overflow (checked u128_mod (phi_value i j))
unfolding elastic_phi phi_value
elastic_phi-value i j hi hj =
    let zi : (i == 0) ≡ false = ground arith in
    let zj : (j == 0) ≡ false = ground arith in
    let low : i % 2 ^ bit_length i ≡ i = mod-eq_of_lt (bit_length_bounds i hi).0 in
    let code = pair_code (bit_length j) j in
    let start : 0 * pow4 (bit_length j) + code ≡ code = omega arith in
    let first = append_pairs_lem j (bit_length j) 0 (omega arith) in
    let p = pow2-pos (bit_length i) in
    let s = pow2-suc (bit_length i) in
    let product = ap (λ (t : ℕ). code * t) s in
    let value : (2 * code + 0) * 2 ^ bit_length i + i % 2 ^ bit_length i
        ≡ code * 2 ^ suc (bit_length i) + i =
      omega arith in
    rw (zi, zj, first, start)
      (ap or_overflow (
        checked_bind code (code * 2 ^ suc (bit_length i) + i) _ (grind arith) (λ fits.
          rw (append_bit_lem code 0 (omega arith)) (
            checked_bind (2 * code + 0) (code * 2 ^ suc (bit_length i) + i)
              (append_bits i (bit_length i)) (grind arith)
              (λ fits'.
                append_bits_lem i (bit_length i) (2 * code + 0) fits'
                ∙ ap (checked u128_mod) value)))))
