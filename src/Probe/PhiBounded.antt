-- ===== src/Probe/PhiBounded.antt =====
-- exact/probe.rs: the position code computed on machine words.
use opthash_rs.Prelude.{
  ℕ, zero, suc, ◌+◌, ◌-◌, ◌*◌, ◌%◌, ◌^◌, ◌≤◌, ◌<◌, ◌≡◌, refl, sym, ◌∙◌, ap, inl, inr, arith, Bool,
  Bool-cases, true, false, ◌&&◌, ◌||◌, if◌then◌else◌, none, some, ltb, ltb→lt, ltb→le, le→leb,
  lt→leb, leb→lt, ◌==◌, ==_iff, leb, bit_and, bit_or, u64_mod, ◌<<<◌,
}
use opthash_rs.Prelude.Bits.{bit_or_fields}
use opthash_rs.Prelude.Log.{bit_length, bit_length_bounds, pow2-pos, pow2-suc, pow2-add, pow2_mono}
use mathlib.Core.Path.{subst}
use native.Mathlib.Nat.{mod-eq_of_lt, mul-le-mul, suc-mul}
use opthash_rs.Probe.Phi.{spread_low_16, elastic_phi_bounded}
use opthash_rs.Probe.PhiValue.{pow4, pair_code, phi_value}
use opthash_rs.Probe.PhiOrder.{pair_code-lt, pair_code-ge, pow4-pow2}

-- The marked bits of a probe.
abbrev word_pairs : ℕ → ℕ
word_pairs j =
    bit_or (spread_low_16 j) (bit_and 0xaaaa_aaaa ((1 <<< (bit_length j * 2)) % u64_mod - 1))

abbrev all_agree : ℕ → Bool
all_agree zero = true
all_agree (suc n) = (word_pairs n == pair_code (bit_length n) n) && all_agree n

agree_at : (n j : ℕ) → all_agree n ≡ true → j < n → word_pairs j ≡ pair_code (bit_length j) j
agree_at zero j all h = absurd (omega arith)
agree_at (suc n) j all h = elim (Bool-cases (word_pairs n == pair_code (bit_length n) n)) [
  | inr differ ↦ absurd (cc (rw differ at all))
  | inl same ↦
      let rest = rw same at all in
      elim (Bool-cases (ltb j n)) [
        | inl less ↦ agree_at n j rest (ltb→lt _ _ less)
        | inr ge ↦
            let e : n ≡ j = omega (arith, ltb→le _ _ ge) in
            subst (λ (t : ℕ). word_pairs t ≡ pair_code (bit_length t) t) e ((==_iff _ _).0 same)
      ]
]

words_agree : all_agree (2 ^ 16) ≡ true
unfolding spread_low_16 bit_length
words_agree = refl

-- The shifted pairs leave the word whole.
pairs_fit :
    (i j : ℕ)
    → bit_length j * 2 + 1 + bit_length i ≤ 64
    → pair_code (bit_length j) j * 2 ^ (bit_length i + 1) < u64_mod
pairs_fit i j few =
    let l = bit_length j in
    let w = 2 ^ (bit_length i + 1) in
    let wide : pair_code l j * w < pow4 l * w =
      let p = pow2-pos (bit_length i + 1) in let c = pair_code-lt l j in grind arith in
    let whole : pow4 l * w ≡ 2 ^ (l + l + (bit_length i + 1)) =
      ap (λ (t : ℕ). t * w) (pow4-pow2 l ∙ sym (pow2-add l l))
      ∙ sym (pow2-add (l + l) (bit_length i + 1)) in
    let small = pow2_mono (l + l + (bit_length i + 1)) 64 (omega arith) in omega arith

code_ge : (l x : ℕ) → 0 < l → pow4 l ≤ 2 * pair_code l x
code_ge zero x h = absurd (omega arith)
code_ge (suc l) x h = omega (arith, pair_code-ge l x)

-- The number of bits of a position.
phi_value-bits :
    (i j : ℕ)
    → 0 < i
    → 0 < j
    → (2 ^ (bit_length j + bit_length j + bit_length i) ≤ phi_value i j)
      × (phi_value i j < 2 ^ (bit_length j + bit_length j + bit_length i + 1))
unfolding phi_value
phi_value-bits i j hi hj =
    let l = bit_length j in
    let b = bit_length i in
    let w = 2 ^ suc b in
    let code = pair_code l j in
    let p = pow2-pos (suc b) in
    let low = (bit_length_bounds i hi).0 in
    let s = pow2-suc b in
    let c = pair_code-lt l j in
    let top = code_ge l j (bit_length_bounds j hj).2 in
    let whole : pow4 l * w ≡ 2 ^ (l + l + suc b) =
      ap (λ (t : ℕ). t * w) (pow4-pow2 l ∙ sym (pow2-add l l)) ∙ sym (pow2-add (l + l) (suc b)) in
    let next : l + l + suc b ≡ suc (l + l + b) = omega arith in
    let double : pow4 l * w ≡ 2 * 2 ^ (l + l + b) =
      whole ∙ ap (λ (t : ℕ). 2 ^ t) next ∙ pow2-suc (l + l + b) in
    let upper : suc code * w ≤ pow4 l * w = mul-le-mul c (omega arith) in
    let lower : pow4 l * w ≤ 2 * code * w = mul-le-mul top (omega arith) in
    let sum : suc code * w ≡ code * w + w = omega (arith, suc-mul code w) in
    let twice : 2 * code * w ≡ 2 * (code * w) = grind arith in
    let one : l + l + b + 1 ≡ suc (l + l + b) = omega arith in
    (omega arith, rw (one, pow2-suc (l + l + b)) (omega arith))

-- A position fits a word exactly when its encoding has at most 64 bits.
word_test :
    (i j : ℕ)
    → 0 < i
    → 0 < j
    → ltb 64 (bit_length j * 2 + 1 + bit_length i) ≡ leb u64_mod (phi_value i j)
word_test i j hi hj =
    let n = bit_length j + bit_length j + bit_length i in
    let bits = phi_value-bits i j hi hj in
    elim (Bool-cases (ltb 64 (bit_length j * 2 + 1 + bit_length i))) [
      | inl long ↦
          let m = pow2_mono 64 n (omega (arith, ltb→lt _ _ long)) in
          long ∙ sym (le→leb u64_mod (phi_value i j) (omega arith))
      | inr short ↦
          let m = pow2_mono (n + 1) 64 (omega (arith, ltb→le _ _ short)) in
          short ∙ sym (lt→leb u64_mod (phi_value i j) (omega arith))
    ]

-- The word that a short encoding gives.
encoded :
    (i j : ℕ)
    → 0 < i
    → j < 2 ^ 16
    → bit_length j * 2 + 1 + bit_length i ≤ 64
    → bit_or ((word_pairs j <<< (bit_length i + 1)) % u64_mod) i ≡ phi_value i j
unfolding phi_value
encoded i j hi narrow short =
    let code = pair_code (bit_length j) j in
    let pairs = agree_at (2 ^ 16) j words_agree narrow in
    let whole = mod-eq_of_lt (pairs_fit i j short) in
    let bound = bit_length_bounds i hi in
    let fields =
      bit_or_fields (bit_length i + 1) code i (omega (arith, pow2-add (bit_length i) 1)) in
    let next : bit_length i + 1 ≡ suc (bit_length i) = omega arith in
    rw (pairs, whole, fields) (ap (λ (n : ℕ). code * 2 ^ n + i) next)

-- The encoder on machine words returns the position code for positive coordinates, when the probe
-- is below `2 ^ 16` and the code below `2 ^ 64`, and nothing for all others.
pub elastic_phi_bounded-value :
    (i j : ℕ)
    → elastic_phi_bounded i j ≡ (
        if (i == 0 || j == 0) || (leb (2 ^ 16) j || leb u64_mod (phi_value i j))
        then none
        else some (phi_value i j))
unfolding elastic_phi_bounded
elastic_phi_bounded-value i j = elim (Bool-cases (i == 0 || j == 0)) [
  | inl zeroed ↦ rw zeroed refl
  | inr positive ↦
      let hi : 0 < i = ground (arith, positive) in
      let hj : 0 < j = ground (arith, positive) in
      elim (Bool-cases (leb (2 ^ 16) j)) [
        | inl wide ↦ rw (positive, wide) refl
        | inr narrow ↦ elim (Bool-cases (leb u64_mod (phi_value i j))) [
          | inl over ↦ rw (positive, narrow, word_test i j hi hj, over) refl
          | inr fits ↦
              let test = word_test i j hi hj in
              let short = ltb→le _ _ (test ∙ fits) in
              let shift : leb 64 (bit_length i + 1) ≡ false =
                lt→leb _ _ (omega (arith, (bit_length_bounds j hj).2)) in
              rw (positive, narrow, test, fits, shift)
                (ap some (encoded i j hi (leb→lt _ _ narrow) short))
        ]
      ]
]

unless_none : (b : Bool) (x : ℕ) {v : ℕ} → (if b then none else some x) ≡ some v → x ≡ v
unless_none true x e = absurd (cc e)
unless_none false x e = cc

pub elastic_phi_bounded-some : (i j v : ℕ) → elastic_phi_bounded i j ≡ some v → phi_value i j ≡ v
elastic_phi_bounded-some i j v e =
    unless_none ((i == 0 || j == 0) || (leb (2 ^ 16) j || leb u64_mod (phi_value i j))) _
      (sym (elastic_phi_bounded-value i j) ∙ e)
