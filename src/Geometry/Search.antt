-- ===== src/Geometry/Search.antt =====
-- exact/geometry.rs: what the search for the special length has tested before it answers.
use opthash_rs.Prelude.{
  ℕ, zero, suc, ◌+◌, ◌-◌, ◌*◌, ◌/◌, ◌%◌, ◌≤◌, ◌<◌, ◌≡◌, refl, ap, sym, ◌∙◌, inl, inr, arith, min,
  max, Bool, true, false, Bool-cases, Option, none, some, Option-cases, ltb, ltb→le, leb, ◌&&◌,
  ◌==◌, ==_iff, if◌then◌else◌, checked, u64_mod, ◌>>=◌,
}
use native.Mathlib.Nat.{mul-div_cancel, div-add-mod', mod-lt}
use opthash_rs.Geometry.Arith.{round_up}
use opthash_rs.Geometry.Funnel.{
  nearest_feasible_first_count, layout_loop, layout_between, largest_compatible_special_layout,
  greatest_common_divisor,
}

-- A checked product that a result rests on has fitted.
bind-checked :
    {B : Type 0} (w v : ℕ) (f : ℕ → Option B) {r : B} → (checked w v >>= f) ≡ some r → f v ≡ some r
bind-checked w v f e = elim (Bool-cases (ltb v w)) [
  | inl fits ↦ rw fits at e
  | inr big ↦ absurd (ground (arith, rw big at e))
]

-- Early returns that were not taken.
test-passed :
    {A : Type 0} (a : Bool) (o : Option A) {r : A}
    → (if a then none else o) ≡ some r
    → (a ≡ false) × (o ≡ some r)
test-passed false o e = (refl, e)
test-passed true o e = absurd (ground (arith, e))

-- A main length that the loop has accepted.
record Accepted (n alpha beta width low high special first : ℕ) : Type 0 where
  pub main : ℕ
  pub buckets : ℕ
  pub multiple : main ≡ buckets * beta
  pub from : low ≤ main
  pub to : main ≤ high
  pub rest : special ≡ n - main
  pub wide : width ≤ special / 2
  pub complete : special / 2 % width ≡ 0
  pub starts : nearest_feasible_first_count (main / beta) alpha ≡ some first

module _ (n alpha beta width low high : ℕ) where
  layout_loop-Accepted :
      (count main buckets : ℕ) {special first : ℕ}
      → main ≡ buckets * beta
      → low ≤ main
      → layout_loop n alpha beta width high count main ≡ some (special, first)
      → Accepted n alpha beta width low high special first
  unfolding layout_loop
  layout_loop-Accepted zero main buckets m from e = absurd (ground (arith, e))
  layout_loop-Accepted (suc count) main buckets {special} {first} m from e =
      elim (Bool-cases (ltb high main)) [
        | inl past ↦ absurd (ground (arith, rw past at e))
        | inr within ↦
            elim (Bool-cases (leb width ((n - main) / 2) && (n - main) / 2 % width == 0)) [
              | inl fits ↦ elim (Option-cases (nearest_feasible_first_count (main / beta) alpha)) [
                | inl unfound ↦ absurd (ground (arith, rw (within, fits, unfound) at e))
                | inr (c, found) ↦
                    let same : Path (Option (ℕ × ℕ)) (some (n - main, c)) (some (special, first)) =
                      rw (within, fits, found) at e in
                    let length_same : n - main ≡ special = cc in
                    let first_same : c ≡ first = cc in
                    let tests : (width ≤ (n - main) / 2) × ((n - main) / 2 % width ≡ 0) =
                      ground arith in
                    record {
                      main = main;
                      buckets = buckets;
                      multiple = m;
                      from = from;
                      to = ltb→le _ _ within;
                      rest = sym length_same;
                      wide = rw (← length_same) tests.0;
                      complete = rw (← length_same) tests.1;
                      starts = found ∙ ap some first_same;
                    }
              ]
              | inr not_fits ↦ elim (Option-cases (checked u64_mod (main + beta))) [
                | inl over ↦ absurd (ground (arith, rw (within, not_fits, over) at e))
                | inr (next, step) ↦
                    let onward = rw (within, not_fits, step) at e in
                    let value : main + beta ≡ next = ground arith in
                    layout_loop-Accepted count next (buckets + 1) (omega (arith, m)) (omega arith)
                      onward
              ]
            ]
      ]

-- The tests before the loop, all passed.
record Begun (n alpha beta width minimum maximum special first : ℕ) : Type 0 where
  pub count : ℕ
  pub buckets : ℕ
  pub ordered : minimum ≤ maximum
  pub enough : n - maximum ≤ buckets * beta
  pub runs :
      layout_loop n alpha beta width (n - minimum) count (buckets * beta) ≡ some (special, first)

-- A quotient rounded up reaches the value.
round_up-ge : (v b : ℕ) → 0 < b → v ≤ (v / b + round_up v b) * b
round_up-ge v b h =
    let whole = div-add-mod' v b in
    let small = mod-lt v h in
    elim (Bool-cases (v % b == 0)) [
      | inl exact ↦ rw exact (omega (arith, (==_iff _ _).0 exact))
      | inr more ↦ rw more (omega arith)
    ]

between-Begun :
    (n alpha beta width period minimum maximum : ℕ) {special first : ℕ}
    → 0 < beta
    → layout_between n alpha beta width period minimum maximum ≡ some (special, first)
    → Begun n alpha beta width minimum maximum special first
unfolding layout_between
between-Begun n alpha beta width period minimum maximum pos e =
    let buckets = (n - maximum) / beta + round_up (n - maximum) beta in
    let count = period / greatest_common_divisor beta period in
    let loop = layout_loop n alpha beta width (n - minimum) count in
    let start : Option (ℕ × ℕ) = checked u64_mod (buckets * beta) >>= loop in
    let (ordered, e1) =
      test-passed (ltb maximum minimum) (if ltb ((n - minimum) / beta) buckets then none else start)
        e in
    let (reach, e2) = test-passed (ltb ((n - minimum) / beta) buckets) start e1 in
    record {
      count = count;
      buckets = buckets;
      ordered = ltb→le _ _ ordered;
      enough = round_up-ge (n - maximum) beta pos;
      runs = bind-checked u64_mod (buckets * beta) loop e2;
    }

layout-Begun :
    (n lower upper alpha beta width : ℕ) {special first : ℕ}
    → 0 < beta
    → largest_compatible_special_layout n lower upper alpha beta width ≡ some (special, first)
    → Begun n alpha beta width (max lower (width * 2)) (min upper (n - alpha * beta)) special first
unfolding largest_compatible_special_layout
layout-Begun n lower upper alpha beta width {special} {first} pos e =
    let period = width * 2 in
    let between =
      layout_between n alpha beta width period (max lower period) (min upper (n - alpha * beta)) in
    let e1 = bind-checked u64_mod (alpha * beta) _ e in
    let e2 = bind-checked u64_mod period _ e1 in
    let (room, e3) = test-passed (ltb n (alpha * beta)) between e2 in
    between-Begun n alpha beta width period (max lower period) (min upper (n - alpha * beta)) pos e3

-- An accepted main length is what the special length leaves.
pub record Covered (n beta alpha lower upper width special first : ℕ) : Type 0 where
  pub divides : (n - special) / beta * beta + special ≡ n
  pub from : lower ≤ special
  pub to : special ≤ upper
  pub wide : width ≤ special / 2
  pub complete : special / 2 % width ≡ 0
  pub starts : nearest_feasible_first_count ((n - special) / beta) alpha ≡ some first

pub layout-Covered :
    (n lower upper alpha beta width : ℕ) {special first : ℕ}
    → 0 < beta
    → largest_compatible_special_layout n lower upper alpha beta width ≡ some (special, first)
    → Covered n beta alpha lower upper width special first
layout-Covered n lower upper alpha beta width {special} {first} pos e =
    let b = layout-Begun n lower upper alpha beta width pos e in
    let a =
      layout_loop-Accepted n alpha beta width (n - min upper (n - alpha * beta))
        (n - max lower (width * 2)) b.count (b.buckets * beta) b.buckets refl b.enough b.runs in
    let main : n - special ≡ a.main = omega (arith, a.rest, a.to, b.ordered) in
    let quotient = ap (λ (t : ℕ). t / beta) a.multiple ∙ mul-div_cancel a.buckets pos in
    record {
      divides = rw (main, quotient) (omega (arith, a.multiple, a.rest, a.to));
      from = omega (arith, a.rest, a.to, b.ordered);
      to = omega (arith, a.rest, a.from);
      wide = a.wide;
      complete = a.complete;
      starts = rw (← main) at a.starts;
    }
