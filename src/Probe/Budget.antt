-- ===== src/Probe/Budget.antt =====
-- exact/probe.rs: the logarithm in the probe budget.
use opthash_rs.Prelude.{
  ℕ, suc, ◌+◌, ◌-◌, ◌*◌, ◌/◌, ◌%◌, ◌^◌, ◌≤◌, ◌<◌, ◌≡◌, refl, ap, arith, min, false, Bool-cases, inl,
  inr, some, ltb, le→ltb, lt→ltb, ◌==◌, ==_iff, if◌then◌else◌, checked, u64_mod,
}
use opthash_rs.Prelude.Log.{
  bit_length, bit_length_bounds, lt-pow2-bit_length, bit_length-le, pow2_mono, pow2-suc,
}
use native.Mathlib.Nat.{div-add-mod', mod-lt, mul-le-mul}
use opthash_rs.Probe.Phi.{ratio_ceiling, elastic_dyadic_probe_budget, or_budget_overflow}

-- The exact ceiling of the quotient.
record RoundsUp (free level ratio : ℕ) : Type 0 where
  pub reaches : level ≤ ratio * free
  pub least : (ratio - 1) * free < level
  pub value : ratio_ceiling free level ≡ some ratio

ratio_ceiling-RoundsUp :
    (free level : ℕ)
    → 0 < free
    → free ≤ level
    → level < u64_mod
    → (ratio : ℕ) × (1 ≤ ratio) × (ratio ≤ level) × RoundsUp free level ratio
unfolding ratio_ceiling
ratio_ceiling-RoundsUp free level pos h fits =
    let q = level / free in
    let whole = div-add-mod' level free in
    let small = mod-lt level pos in
    let one : 1 ≤ q = grind arith in
    elim (Bool-cases (level % free == 0)) [
      | inl exact ↦
          let z = (==_iff _ _).0 exact in
          let less : (q - 1) * free + free ≡ q * free = grind arith in
          (
            q,
            one,
            grind arith,
            record { reaches = omega arith; least = omega arith; value = rw exact refl },
          )
      | inr more ↦
          let some_left : 0 < level % free = ground arith in
          let below : q + 1 ≤ level = grind arith in
          let f = lt→ltb (q + 1) u64_mod (omega arith) in
          (
            q + 1,
            omega arith,
            below,
            record {
              reaches = omega arith;
              least = let back : q + 1 - 1 ≡ q = omega arith in rw back (omega arith);
              value = rw (more, f) refl;
            },
          )
    ]

-- The exponent of the least power of two that the ceiling does not exceed.
log_ceiling_bounds :
    (free level ratio : ℕ)
    → 1 ≤ ratio
    → RoundsUp free level ratio
    → (level ≤ 2 ^ bit_length (ratio - 1) * free)
      × ((m : ℕ) → m < bit_length (ratio - 1) → 2 ^ m * free < level)
log_ceiling_bounds free level ratio one c = (
  (let above = lt-pow2-bit_length (ratio - 1) in
      let up : ratio * free ≤ 2 ^ bit_length (ratio - 1) * free =
        mul-le-mul (omega arith) (omega arith) in
      omega (arith, c.reaches)),
  λ m h. lower m h,
)
  where
    lower : (m : ℕ) → m < bit_length (ratio - 1) → 2 ^ m * free < level
    lower m h = elim (Bool-cases (ratio - 1 == 0)) [
      | inl single ↦
          let z = (==_iff _ _).0 single in
          absurd (omega (arith, bit_length-le 0 0 (omega arith), ap bit_length z))
      | inr several ↦
          let b = bit_length_bounds (ratio - 1) (ground arith) in
          let p = pow2_mono (suc m) (bit_length (ratio - 1)) (omega arith) in
          let s = pow2-suc m in
          let up : 2 ^ m * free ≤ (ratio - 1) * free = mul-le-mul (omega arith) (omega arith) in
          omega (arith, c.least)
    ]

-- For `0 < free_slots <= level_slots < 2^64` and a positive constant the budget is the constant
-- times the smaller of the reserve exponent and the square of `l`, or an overflow where that
-- product does not fit; `l` is the exact rounded-up logarithm of `level_slots / free_slots`: the
-- least exponent with `level_slots <= 2^l * free_slots`.
pub elastic_dyadic_probe_budget_exact :
    (free_slots level_slots reserve_exponent c : ℕ)
    → 0 < free_slots
    → free_slots ≤ level_slots
    → level_slots < u64_mod
    → 0 < c
    → (l : ℕ) × (level_slots ≤ 2 ^ l * free_slots)
      × ((m : ℕ) → m < l → 2 ^ m * free_slots < level_slots)
      × (elastic_dyadic_probe_budget free_slots level_slots reserve_exponent c
          ≡ or_budget_overflow (checked u64_mod (c * min (l * l) reserve_exponent)))
unfolding elastic_dyadic_probe_budget
elastic_dyadic_probe_budget_exact free level e c pos h fits some_c =
    let (ratio, one, small, ceiling) = ratio_ceiling-RoundsUp free level pos h fits in
    let l = bit_length (ratio - 1) in
    let bounds = log_ceiling_bounds free level ratio one ceiling in
    let few : l ≤ 64 = bit_length-le (ratio - 1) 64 (omega arith) in
    let square : l * l ≤ 64 * 64 = mul-le-mul few few in
    let square_fits = lt→ltb (l * l) u64_mod (omega arith) in
    let z : (free == 0) ≡ false = ground arith in
    let f = le→ltb level free h in
    let k : (c == 0) ≡ false = ground arith in
    let smaller : (if ltb (l * l) e then l * l else e) ≡ min (l * l) e = ground arith in
    (l, bounds.0, bounds.1, rw (z, f, k, ceiling.value, square_fits, smaller) refl)
