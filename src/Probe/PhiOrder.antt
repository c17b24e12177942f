-- ===== src/Probe/PhiOrder.antt =====
-- exact/probe.rs: order and bounds of the position code as a number.
use opthash_rs.Prelude.{
  ℕ, zero, suc, ◌+◌, ◌-◌, ◌*◌, ◌/◌, ◌%◌, ◌^◌, ◌≤◌, ◌<◌, ◌≡◌, inl, inr, refl, ap, sym, ◌∙◌, arith,
  ltb, ltb→lt, ltb→le, ◌==◌, ==_iff, Bool-cases,
}
use opthash_rs.Prelude.Log.{
  bit_length, pow2-suc, pow2-pos, pow2-add, bit_length_bounds, bit_length_mono, bit_length_unique,
  div_unique, mod_unique, lt-pow2-bit_length,
}
use native.Mathlib.Nat.{mul-le-mul, div-div-eq-div-mul, mul-div-mul_right}
use mathlib.Core.Path.{ap₂}
use opthash_rs.Probe.PhiValue.{pow4, pair_code, phi_value}

pub pow4-pow2 : (l : ℕ) → pow4 l ≡ 2 ^ l * 2 ^ l
pow4-pow2 zero = refl
pow4-pow2 (suc l) = let s = pow2-suc l in let r = pow4-pow2 l in rw s (omega arith)

pub pow4-pos : (l : ℕ) → 0 < pow4 l
pow4-pos zero = omega arith
pow4-pos (suc l) = omega (arith, pow4-pos l)

pow4_mono : (l m : ℕ) → l ≤ m → pow4 l ≤ pow4 m
pow4_mono zero m h = pow4-pos m
pow4_mono (suc l) zero h = absurd (omega arith)
pow4_mono (suc l) (suc m) h = omega (arith, pow4_mono l m (omega arith))

pub pair_code-lt : (l x : ℕ) → pair_code l x < pow4 l
pair_code-lt zero x = omega arith
pair_code-lt (suc l) x = omega (arith, pair_code-lt l (x / 2))

pub pair_code-ge : (l x : ℕ) → 2 * pow4 l ≤ pair_code (suc l) x
pair_code-ge zero x = omega arith
pair_code-ge (suc l) x = omega (arith, pair_code-ge l (x / 2))

pair_code_same : (l x y : ℕ) → x < y → y < 2 ^ l → pair_code l x < pair_code l y
pair_code_same zero x y h k = absurd (omega arith)
pair_code_same (suc l) x y h k =
    let s = pow2-suc l in
    elim (Bool-cases (ltb (x / 2) (y / 2))) [
      | inl less ↦ omega (arith, pair_code_same l (x / 2) (y / 2) (ltb→lt _ _ less) (omega arith))
      | inr ge ↦
          let e : x / 2 ≡ y / 2 = omega (arith, ltb→le _ _ ge) in omega (arith, ap (pair_code l) e)
    ]

pub code_mono : (j k : ℕ) → 0 < j → j < k → pair_code (bit_length j) j < pair_code (bit_length k) k
code_mono j k pos h = elim (Bool-cases (bit_length j == bit_length k)) [
  | inl same ↦
      let e = (==_iff _ _).0 same in
      rw e (pair_code_same (bit_length k) j k h (lt-pow2-bit_length k))
  | inr differ ↦
      let m = bit_length_mono j k (omega arith) in
      let l = bit_length k - 1 in
      let less : bit_length j ≤ l = ground arith in
      let e : bit_length k ≡ suc l = omega (arith, (bit_length_bounds k (omega arith)).2) in
      rw e (
        omega
          (arith, pair_code-lt (bit_length j) j, pow4_mono (bit_length j) l less, pair_code-ge l k))
]

-- At one level a later probe has a later position.
pub phi_value_mono : (i j k : ℕ) → 0 < j → j < k → phi_value i j < phi_value i k
unfolding phi_value
phi_value_mono i j k pos h =
    let less = code_mono j k pos h in let p = pow2-pos (suc (bit_length i)) in grind arith

-- The bound of the paper's injection.
pub phi_value-lt : (i j : ℕ) → 0 < i → 0 < j → phi_value i j < 16 * i * (j * j)
unfolding phi_value
phi_value-lt i j hi hj =
    let bi = bit_length_bounds i hi in
    let bj = bit_length_bounds j hj in
    let c = pair_code-lt (bit_length j) j in
    let q = pow4-pow2 (bit_length j) in
    let a = 2 ^ bit_length j in
    let squares : a * a ≤ 2 * j * (2 * j) = mul-le-mul (omega arith) (omega arith) in
    let c1 = pair_code (bit_length j) j + 1 in
    let b = 2 ^ suc (bit_length i) in
    let widths : b ≤ 4 * i = omega (arith, pow2-suc (bit_length i)) in
    let total : c1 * b ≤ 4 * (j * j) * (4 * i) = mul-le-mul (omega arith) widths in
    omega (arith, pow2-suc (bit_length i))

-- The marker of pair `m`.
marker : (l m x : ℕ) → m < l → pair_code l x / pow4 m / 2 % 2 ≡ 1
marker zero m x h = absurd (omega arith)
marker (suc l) zero x h = omega arith
marker (suc l) (suc m) x h =
    let e : (4 * pair_code l (x / 2) + 2 + x % 2) / 4 ≡ pair_code l (x / 2) = omega arith in
    let d = sym (div-div-eq-div-mul (4 * pair_code l (x / 2) + 2 + x % 2) 4 (pow4 m)) in
    rw (d, e) (marker l m (x / 2) (omega arith))

-- The pieces of a position: its length, and what the shifts by the length of `i` leave.
module _ (i j : ℕ) (hi : 0 < i) (hj : 0 < j) where
  abbrev code : ℕ
  code = pair_code (bit_length j) j

  phi_split : phi_value i j ≡ 2 * code * 2 ^ bit_length i + i
  unfolding phi_value
  phi_split = omega (arith, ap (λ (t : ℕ). code * t) (pow2-suc (bit_length i)))

  code_bounds : (code < pow4 (bit_length j)) × (pow4 (bit_length j) ≤ 2 * code)
  code_bounds =
      let l = bit_length j - 1 in
      let e : bit_length j ≡ suc l = omega (arith, (bit_length_bounds j hj).2) in
      let low = pair_code-ge l j in
      let p = ap pow4 e in
      let q = ap (λ (t : ℕ). pair_code t j) e in (pair_code-lt (bit_length j) j, omega arith)

  phi_length : bit_length (phi_value i j) ≡ suc (bit_length j + bit_length j + bit_length i)
  phi_length =
      let b = bit_length_bounds i hi in
      let c = code_bounds in
      let k = bit_length j + bit_length j + bit_length i in
      let w = 2 ^ bit_length i in
      let p4 = pow4-pow2 (bit_length j) in
      let sum2 = pow2-add (bit_length j) (bit_length j) in
      let all : 2 ^ k ≡ pow4 (bit_length j) * w =
        pow2-add (bit_length j + bit_length j) (bit_length i)
        ∙ ap (λ (t : ℕ). t * w) (sum2 ∙ sym p4) in
      let low : pow4 (bit_length j) * w ≤ 2 * code * w = mul-le-mul c.1 (omega arith) in
      let high : suc code * w ≤ pow4 (bit_length j) * w = mul-le-mul c.0 (omega arith) in
      let s = pow2-suc k in
      bit_length_unique (phi_value i j) k (omega (arith, phi_split)) (omega (arith, phi_split))

  phi_delimiter : phi_value i j / 2 ^ bit_length i ≡ 2 * code
  phi_delimiter =
      div_unique (2 ^ bit_length i) (2 * code) i (phi_value i j) phi_split
        (bit_length_bounds i hi).0

  phi_rest : phi_value i j % 2 ^ bit_length i ≡ i
  phi_rest =
      mod_unique (2 ^ bit_length i) (2 * code) i (phi_value i j) phi_split
        (bit_length_bounds i hi).0

  -- At a distance of `2 * d + 2` from the delimiter stands a marker.
  phi_marker : (d : ℕ) → d < bit_length j → phi_value i j / 2 ^ (bit_length i + (d + d + 2)) % 2 ≡ 1
  phi_marker d h =
      let w = 2 ^ bit_length i in
      let p = pow4-pow2 d in
      let power : 2 ^ (d + d + 2) ≡ pow4 d * 2 * 2 =
        omega (arith, pow2-add (d + d) 2, pow2-add d d) in
      let total = pow2-add (bit_length i) (d + d + 2) ∙ ap (λ (t : ℕ). w * t) power in
      let double : 2 * code ≡ code * 2 = omega arith in
      let value =
        ap (λ (t : ℕ). phi_value i j / t) total
        ∙ sym (div-div-eq-div-mul (phi_value i j) w (pow4 d * 2 * 2))
        ∙ ap (λ (t : ℕ). t / (pow4 d * 2 * 2)) (phi_delimiter ∙ double)
        ∙ mul-div-mul_right code (pow4 d * 2) (omega arith)
        ∙ sym (div-div-eq-div-mul code (pow4 d) 2) in
      rw value (marker (bit_length j) d j h)

code_injective :
    (j k : ℕ) → 0 < j → 0 < k → pair_code (bit_length j) j ≡ pair_code (bit_length k) k → j ≡ k
code_injective j k pj pk e = elim (Bool-cases (ltb j k)) [
  | inl less ↦ absurd (omega (arith, code_mono j k pj (ltb→lt _ _ less)))
  | inr ge ↦ elim (Bool-cases (ltb k j)) [
    | inl more ↦ absurd (omega (arith, code_mono k j pk (ltb→lt _ _ more)))
    | inr le ↦ omega (arith, ltb→le _ _ ge, ltb→le _ _ le)
  ]
]

-- Equal positions have equal lengths of the probe: a delimiter would meet a marker.
module _ (i j i' j' : ℕ) (hi : 0 < i) (hj : 0 < j) (hi' : 0 < i') (hj' : 0 < j')
    (same : phi_value i j ≡ phi_value i' j') where
  lengths_agree :
      bit_length j + bit_length j + bit_length i ≡ bit_length j' + bit_length j' + bit_length i'
  lengths_agree = omega (arith, phi_length i j hi hj, phi_length i' j' hi' hj', ap bit_length same)

  not_shorter : ¬ (bit_length j < bit_length j')
  not_shorter less =
      let d = bit_length j' - bit_length j - 1 in
      let e : bit_length i ≡ bit_length i' + (d + d + 2) = omega (arith, lengths_agree) in
      let even = phi_delimiter i j hi hj in
      let shifted = ap (λ (t : ℕ). phi_value i j / 2 ^ t) e in
      let crossed = ap (λ (t : ℕ). t / 2 ^ (bit_length i' + (d + d + 2))) same in
      let odd = phi_marker i' j' hi' hj' d (omega arith) in omega arith

pub phi_value_injective :
    (i j i' j' : ℕ)
    → 0 < i
    → 0 < j
    → 0 < i'
    → 0 < j'
    → phi_value i j ≡ phi_value i' j'
    → (i ≡ i') × (j ≡ j')
phi_value_injective i j i' j' hi hj hi' hj' same =
    let a = not_shorter i j i' j' hi hj hi' hj' same in
    let b = not_shorter i' j' i j hi' hj' hi hj (sym same) in
    let l = lengths_agree i j i' j' hi hj hi' hj' same in
    let jl : bit_length j ≡ bit_length j' = omega arith in
    let il : bit_length i ≡ bit_length i' = omega arith in
    let down = ap₂ (λ (t u : ℕ). t / 2 ^ u) same il in
    let rest = ap₂ (λ (t u : ℕ). t % 2 ^ u) same il in
    let before = phi_delimiter i j hi hj in
    let after = phi_delimiter i' j' hi' hj' in
    let codes : pair_code (bit_length j) j ≡ pair_code (bit_length j') j' = omega arith in
    (sym (phi_rest i j hi hj) ∙ rest ∙ phi_rest i' j' hi' hj', code_injective j j' hj hj' codes)
