-- ===== src/Probe/Unbiased.antt =====
-- exact/probe.rs: the words that the range reduction accepts for one index.
use opthash_rs.Prelude.{
  ℕ, ◌+◌, ◌-◌, ◌*◌, ◌/◌, ◌%◌, ◌≤◌, ◌<◌, ◌≡◌, ◌↔◌, inl, inr, ap, ◌∙◌, arith, true, Bool-cases, ltb,
  u64_mod, ltb→lt, ltb→le,
}
use opthash_rs.Probe.Range.{accepts, high_half, threshold}
use native.Mathlib.Nat.{div-lt_iff_lt-mul, div-add-mod', mul-div_cancel, mod-lt, add-mul-div_right}

-- Unbiasedness: every index below the bound is the high half of the same number of accepted
-- words, an interval of `floor(2^64 / upper)` of them.
abbrev pub share : ℕ → ℕ
share upper = (u64_mod - threshold upper) / upper

threshold_lem :
    (upper : ℕ)
    → 0 < upper
    → upper < u64_mod
    → (threshold upper + share upper * upper ≡ u64_mod) × (threshold upper < upper)
threshold_lem upper pos fits =
    let w = u64_mod - upper in
    let same : w % u64_mod ≡ w = omega arith in
    let t : threshold upper ≡ w % upper = ap (λ (x : ℕ). x % upper) same in
    let q = w / upper in
    let d = div-add-mod' w upper in
    let whole : u64_mod - threshold upper ≡ (q + 1) * upper = omega arith in
    let s : share upper ≡ q + 1 = ap (λ (x : ℕ). x / upper) whole ∙ mul-div_cancel (q + 1) pos in
    let p = ap (λ (x : ℕ). x * upper) s in let small = mod-lt w pos in (omega arith, omega arith)

-- Rounding up, as an order.
ceil-le : (n upper w : ℕ) → 0 < upper → ((n + (upper - 1)) / upper ≤ w) ↔ (n ≤ w * upper)
ceil-le n upper w pos =
    let i = div-lt_iff_lt-mul {k = upper} {x = n + (upper - 1)} {y = w + 1} pos in
    (λ h. let k = i.0 (omega arith) in omega arith, λ h. let k = i.1 (omega arith) in omega arith)

-- The first word of the share of index `i`.
abbrev pub first_word : ℕ → ℕ → ℕ
first_word upper i = (i * u64_mod + threshold upper + (upper - 1)) / upper

accepted_iff :
    (upper i word : ℕ)
    → ((accepts upper (threshold upper) word ≡ true) × (high_half upper word ≡ i))
      ↔ ((i * u64_mod + threshold upper ≤ word * upper) × (word * upper < (i + 1) * u64_mod))
accepted_iff upper i word = ground arith

-- For every positive bound below `2 ^ 64` and every index, the accepted words that give the index
-- are an interval of `share upper` words, the same number for every index.
pub reduce_unbiased :
    (upper i word : ℕ)
    → 0 < upper
    → upper < u64_mod
    → ((accepts upper (threshold upper) word ≡ true) × (high_half upper word ≡ i))
      ↔ ((first_word upper i ≤ word) × (word < first_word upper i + share upper))
reduce_unbiased upper i word pos fits =
    let n = i * u64_mod + threshold upper in
    let t = threshold_lem upper pos fits in
    let shift : (n + share upper * upper + (upper - 1)) / upper ≡ first_word upper i + share upper =
      ap (λ (x : ℕ). x / upper)
        (let e : n + share upper * upper + (upper - 1) ≡ n + (upper - 1) + share upper * upper =
            omega arith in
          e)
      ∙ add-mul-div_right (n + (upper - 1)) (share upper) pos in
    let lower = ceil-le n upper word pos in
    let higher = rw shift at (ceil-le (n + share upper * upper) upper word pos) in
    let a = accepted_iff upper i word in
    (
      λ h.
          let b = a.0 h in
          (
            lower.1 b.0,
            elim (Bool-cases (ltb word (first_word upper i + share upper))) [
              | inl less ↦ ltb→lt _ _ less
              | inr more ↦ let k = higher.0 (ltb→le _ _ more) in absurd (omega arith)
            ],
          ),
      λ h. a.1 (
        lower.0 h.0,
        elim (Bool-cases (ltb (word * upper) ((i + 1) * u64_mod))) [
          | inl less ↦ ltb→lt _ _ less
          | inr more ↦ let k = higher.1 (omega (arith, ltb→le _ _ more)) in absurd (omega arith)
        ],
      ),
    )
