-- ===== src/Reserve/Float.antt =====
-- `to_f64` and `TryFrom<f64>` are inverse partial functions.
use opthash_rs.Prelude.{
  ℕ, ◌+◌, ◌-◌, ◌*◌, ◌/◌, ◌%◌, ◌^◌, ◌≤◌, ◌<◌, Result, some, false, ok, ◌≡◌, inl, inr, arith, ltb,
  ◌==◌, Bool-cases, u64_mod, ap, sym, ◌∙◌, ==_iff, ltb→lt, ltb→le,
}
use opthash_rs.Prelude.Bits.{bit_and_mask}
use opthash_rs.Prelude.Log.{
  is_power_of_two, trailing_zeros-pow2, is_power_of_two_pow2, is_power_of_two_exponent, bit_length,
  pow2-pos, pow2_reflect, pow2_strict,
}
use opthash_rs.Reserve.{ReserveFraction, ReserveFractionError, to_f64, try_from, exponent_of}

-- A positive value below one passes the range tests, and its fields are quotient and remainder.
try_from_fields :
    (bits : ℕ)
    → 0 < bits
    → bits < 1023 * 2 ^ 52
    → try_from bits ≡ exponent_of (bits / 2 ^ 52) (bits % 2 ^ 52)
unfolding try_from
try_from_fields bits pos below =
    let e : bits / 2 ^ 52 % 2 ^ 11 ≡ bits / 2 ^ 52 = omega arith in
    rw (bit_and_mask 11 (bits / 2 ^ 52), bit_and_mask 52 bits, e) (ground arith)

exponent_of_normal :
    (b : ℕ) → 0 < b → b < 1023 → exponent_of b 0 ≡ ok (record { exponent = 1023 - b })
unfolding exponent_of
exponent_of_normal b pos below = ground arith

exponent_of_subnormal :
    (k : ℕ) → k < 52 → exponent_of 0 (2 ^ k) ≡ ok (record { exponent = 1074 - k })
unfolding exponent_of
exponent_of_subnormal k below = rw (is_power_of_two_pow2 k, trailing_zeros-pow2 k) (ground arith)

to_f64_normal :
    (r : ReserveFraction)
    → 1 ≤ r.exponent
    → r.exponent < 1023
    → to_f64 r ≡ some ((1023 - r.exponent) * 2 ^ 52)
unfolding to_f64
to_f64_normal r lo hi = ground arith

to_f64_subnormal :
    (r : ReserveFraction)
    → 1023 ≤ r.exponent
    → r.exponent ≤ 1074
    → to_f64 r ≡ some (2 ^ (1074 - r.exponent))
unfolding to_f64
to_f64_subnormal r lo hi = ground arith

-- An exponent from 1 to 1074 has an exact `f64`, and reading it back gives the exponent.
pub try_from-to_f64 :
    (r : ReserveFraction)
    → 1 ≤ r.exponent
    → r.exponent ≤ 1074
    → (bits : ℕ) × (to_f64 r ≡ some bits) × (try_from bits ≡ ok r)
try_from-to_f64 r lo hi = elim (Bool-cases (ltb r.exponent 1023)) [
  | inl normal ↦
      let b = 1023 - r.exponent in
      let below = ltb→lt _ _ normal in
      let e : b * 2 ^ 52 / 2 ^ 52 ≡ b = omega arith in
      let z : b * 2 ^ 52 % 2 ^ 52 ≡ 0 = omega arith in
      (
        b * 2 ^ 52,
        to_f64_normal r lo below,
        rw
            (
              try_from_fields (b * 2 ^ 52) (omega arith) (omega arith),
              e,
              z,
              exponent_of_normal b (omega arith) (omega arith),
            )
            (ground arith),
      )
  | inr sub ↦
      let k = 1074 - r.exponent in
      let above = ltb→le _ _ sub in
      let m = pow2_strict k 52 (omega arith) in
      let e : 2 ^ k / 2 ^ 52 ≡ 0 = omega arith in
      let z : 2 ^ k % 2 ^ 52 ≡ 2 ^ k = omega arith in
      (
        2 ^ k,
        to_f64_subnormal r above hi,
        rw
            (
              try_from_fields (2 ^ k) (pow2-pos k) (omega arith),
              e,
              z,
              exponent_of_subnormal k (omega arith),
            )
            (ground arith),
      )
]

-- A value that `try_from` accepts is positive and below one.
try_from_range :
    (bits : ℕ) {r : ReserveFraction}
    → bits < u64_mod
    → try_from bits ≡ ok r
    → (0 < bits) × (bits < 1023 * 2 ^ 52)
unfolding try_from
try_from_range bits h e = ground arith

ok_injective :
    {r s : ReserveFraction}
    → ◌≡◌ {A = Result ReserveFraction ReserveFractionError} (ok r) (ok s)
    → r ≡ s
ok_injective h = cc

-- The accepted fields are those of the exact value: a power of two below the normal range, and
-- no fraction bits in it.
subnormal_fields :
    (significand : ℕ) {r : ReserveFraction}
    → significand < 2 ^ 52
    → exponent_of 0 significand ≡ ok r
    → to_f64 r ≡ some significand
subnormal_fields significand {r} h e = elim (Bool-cases (is_power_of_two significand)) [
  | inr odd ↦ absurd (refused odd)
  | inl even ↦
      let k = bit_length significand - 1 in
      let power = is_power_of_two_exponent significand even in
      let below : k < 52 = pow2_reflect k 52 (omega arith) in
      let value = ap (exponent_of 0) power ∙ exponent_of_subnormal k below in
      let same = ok_injective (sym e ∙ value) in
      let back : 1074 - (1074 - k) ≡ k = omega arith in
      rw (same, to_f64_subnormal (record { exponent = 1074 - k }) (omega arith) (omega arith), back)
        (ap some (sym power))
]
  where
    refused : is_power_of_two significand ≡ false → ⊥
    refused odd = unfold exponent_of in ground arith

normal_fields :
    (biased significand : ℕ) {r : ReserveFraction}
    → 0 < biased
    → biased < 1023
    → exponent_of biased significand ≡ ok r
    → to_f64 r ≡ some (biased * 2 ^ 52 + significand)
unfolding exponent_of to_f64
normal_fields biased significand pos below e = ground arith

-- If `try_from` accepts the 64 bits of an `f64`, then `to_f64` of the result gives those bits.
pub to_f64-try_from :
    (bits : ℕ) {r : ReserveFraction} → bits < u64_mod → try_from bits ≡ ok r → to_f64 r ≡ some bits
to_f64-try_from bits {r} h e =
    let range = try_from_range bits h e in
    let fields = sym (try_from_fields bits range.0 range.1) ∙ e in
    let b = bits / 2 ^ 52 in
    let whole : b * 2 ^ 52 + bits % 2 ^ 52 ≡ bits = omega arith in
    elim (Bool-cases (b == 0)) [
      | inl sub ↦
          let zero_b = (==_iff b 0).0 sub in
          let all : bits % 2 ^ 52 ≡ bits = omega arith in
          rw all at (subnormal_fields (bits % 2 ^ 52) (omega arith) (rw zero_b at fields))
      | inr normal ↦
          rw whole at (normal_fields b (bits % 2 ^ 52) (ground arith) (omega arith) fields)
    ]
