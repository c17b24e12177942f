-- ===== src/Elastic/Mask.antt =====
-- elastic.rs: the summary bit of a level, in its bin and in the expanded mask.
use opthash_rs.Prelude.{
  ℕ, zero, suc, ◌+◌, ◌-◌, ◌*◌, ◌/◌, ◌%◌, ◌^◌, ◌<◌, ◌≡◌, refl, ap, sym, ◌∙◌, inl, inr, arith, Bool,
  Bool-cases, ltb, ltb→le, bit_and, bit_or,
}
use opthash_rs.Prelude.Bits.{bit, bit-or, bit_and_mask}
use opthash_rs.Prelude.Log.{pow2-pos, pow2-add, div_unique}
use native.Mathlib.Nat.{div-div-eq-div-mul}
use opthash_rs.Elastic.Filter.{expanded_level_mask, summary_level}

-- One bin in which the bit of a level is set.
abbrev pub Marked : ℕ → ℕ → Type 0
Marked level bin = bit (summary_level level) bin ≡ 1

-- A bit that is set by `|`.
pub bit_or-one : (l b : ℕ) → bit l (bit_or b (1 * 2 ^ l)) ≡ 1
bit_or-one l b =
    let p = pow2-pos l in
    let one : 1 * 2 ^ l / 2 ^ l ≡ 1 = div_unique (2 ^ l) 1 0 (1 * 2 ^ l) (omega arith) p in
    bit-or l b (1 * 2 ^ l) ∙ (rw one (omega arith))

ones_split : (a b : ℕ) → 0 < a → 0 < b → 65536 ≡ a * b → 131071 ≡ (2 * b - 1) * a + (a - 1)
ones_split a zero pa pb e = absurd (omega arith)
ones_split a (suc c) pa pb e =
    let odd : 2 * suc c - 1 ≡ 2 * c + 1 = omega arith in rw odd (grind arith)

-- A bit of the expanded mask stands for its level.
saturated_bit : (j : ℕ) → j < 17 → bit (15 + j) (4294934528) ≡ 1
saturated_bit j h =
    let a = 2 ^ j in
    let b = 2 ^ (16 - j) in
    let e : 16 ≡ j + (16 - j) = omega arith in
    let product : 65536 ≡ a * b = ap (λ (t : ℕ). 2 ^ t) e ∙ pow2-add j (16 - j) in
    let pa = pow2-pos j in
    let pb = pow2-pos (16 - j) in
    let quotient : 131071 / a ≡ 2 * b - 1 =
      div_unique a (2 * b - 1) (a - 1) 131071 (ones_split a b pa pb product) (omega arith) in
    let split = pow2-add 15 j ∙ refl in
    let whole : 4294934528 / 2 ^ (15 + j) ≡ 131071 / a =
      ap (λ (t : ℕ). 4294934528 / t) split ∙ sym (div-div-eq-div-mul 4294934528 32768 a) in
    rw (whole, quotient) (omega arith)

pub expanded_bit :
    (maybe : Bool) (level bin : ℕ)
    → level < 32
    → Marked level bin
    → bit level (expanded_level_mask (record { maybe_present = maybe; level_mask = bin })) ≡ 1
unfolding expanded_level_mask summary_level
expanded_bit maybe level bin h marked = elim (Bool-cases (ltb level 15)) [
  | inl shallow ↦ rw (bit-or level bin _, rw shallow at marked) (omega arith)
  | inr deep ↦
      let set : bin / 32768 % 2 ≡ 1 = rw deep at marked in
      let one : bit_and (bin / 32768) 1 ≡ 1 = bit_and_mask 1 (bin / 32768) ∙ set in
      let e : 15 + (level - 15) ≡ level = omega (arith, ltb→le _ _ deep) in
      let there = saturated_bit (level - 15) (omega arith) in
      rw (one, bit-or level bin 4294934528, rw e at there) (omega arith)
]
