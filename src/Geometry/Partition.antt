-- ===== src/Geometry/Partition.antt =====
-- exact/geometry.rs: runs of the iterator `FunnelBucketCounts` to its end.
use opthash_rs.Prelude.{
  ℕ, zero, suc, ◌+◌, ◌-◌, ◌*◌, ◌≤◌, ◌<◌, ◌≡◌, refl, ap, sym, ◌∙◌, inl, inr, arith, Bool, true,
  false, Bool-cases, Option, none, some, Option-cases, List, [], ◌∷◌, length, sum, leb, leb→le,
  le→leb, checked_sub,
}
use opthash_rs.Geometry.Arith.{minimum_next_bucket_count, maximum_next_bucket_count}
use opthash_rs.Geometry.Rounding.{next_bucket_count_iff}
use opthash_rs.Geometry.Paths.{
  find_down, feasible, select_largest_feasible_next, FunnelBucketCounts, following,
  next_bucket_count, advance, items,
}

-- The item that `find_down` returns is among the candidates, passes, and no larger one does.
record Found (test : ℕ → Bool) (count candidate v : ℕ) : Type 0 where
  pub below : v ≤ candidate
  pub near : candidate < v + count
  pub passes : test v ≡ true

find_down-Found :
    (test : ℕ → Bool) (count candidate : ℕ) {v : ℕ}
    → count ≤ candidate
    → find_down test count candidate ≡ some v
    → Found test count candidate v
unfolding find_down
find_down-Found test zero candidate h e = ground arith
find_down-Found test (suc count) candidate {v} h e = elim (Bool-cases (test candidate)) [
  | inl yes_here ↦
      let same : candidate ≡ v = cc (rw yes_here at e) in
      record { below = omega arith; near = omega arith; passes = rw (← same) yes_here }
  | inr not_here ↦
      let f = find_down-Found test count (candidate - 1) (omega arith) (rw not_here at e) in
      record { below = omega (arith, f.below); near = omega (arith, f.near); passes = f.passes }
]

-- The next count is within the range the code searches.
select-range :
    (current s l : ℕ) {v : ℕ}
    → select_largest_feasible_next current s l ≡ some v
    → (minimum_next_bucket_count current ≤ v)
      × (v ≤ maximum_next_bucket_count current)
      × (feasible s l v ≡ true)
unfolding select_largest_feasible_next
select-range current s l e =
    let minimum = minimum_next_bucket_count current in
    let maximum = maximum_next_bucket_count current in
    let pos : 1 ≤ minimum = unfold minimum_next_bucket_count in ground arith in
    let least : 1 ≤ maximum = unfold maximum_next_bucket_count in ground arith in
    let f = find_down-Found (feasible s l) (maximum + 1 - minimum) maximum (omega arith) e in
    (omega (arith, f.near, f.below), f.below, f.passes)

-- Each count is positive, no larger than the one before it and within one of three quarters of it.
abbrev pub Steps : ℕ → List ℕ → Type 0
Steps previous [] = Unit
Steps previous (x ∷ xs) =
    (1 ≤ x) × (x ≤ previous) × (4 * x ≤ 3 * previous + 4) × (3 * previous ≤ 4 * x + 4) × Steps x xs

abbrev pub at_count : Option ℕ → ℕ → ℕ → FunnelBucketCounts
at_count next r l = record { next_count = next; remaining_sum = r; remaining_levels = l }

next-fits :
    (c r l : ℕ)
    → c ≤ r
    → next_bucket_count (at_count (some c) r (suc l))
      ≡ (some c, at_count (following c (r - c) l) (r - c) l)
unfolding next_bucket_count
next-fits c r l h =
    let f = le→leb c r h in
    let g : checked_sub (suc l) 1 ≡ some l = ground arith in rw (f, next_bucket_count, g) refl

next-short : (c r l : ℕ) → leb c r ≡ false → (next_bucket_count (at_count (some c) r l)).0 ≡ none
unfolding next_bucket_count
next-short c r l f = rw (f, next_bucket_count) refl

-- A run of a positive number of levels items from a positive count `c`.
pub record Run (c r l : ℕ) (end : FunnelBucketCounts) : Type 0 where
  pub rest : List ℕ
  pub yields : items (suc (suc l)) (at_count (some c) r (suc l)) ≡ c ∷ rest
  pub count : length rest ≡ l
  pub total : c + sum rest + end.remaining_sum ≡ r
  pub steps : Steps c rest
  pub over : end.next_count ≡ none

next-over : (r l : ℕ) → next_bucket_count (at_count none r l) ≡ (none, at_count none r l)
unfolding next_bucket_count
next-over r l = refl

advance-fits :
    (c r l : ℕ)
    → c ≤ r
    → advance (suc l) (at_count (some c) r (suc l))
      ≡ advance l (at_count (following c (r - c) l) (r - c) l)
unfolding advance
advance-fits c r l h =
    let e = next-fits c r l h in rw (advance, ap (λ p. p.0) e, ap (λ p. p.1) e) refl

items-fits :
    (c r l fuel : ℕ)
    → c ≤ r
    → items (suc fuel) (at_count (some c) r (suc l))
      ≡ c ∷ items fuel (at_count (following c (r - c) l) (r - c) l)
unfolding items
items-fits c r l fuel h =
    let e = next-fits c r l h in rw (items, ap (λ p. p.0) e, ap (λ p. p.1) e) refl

items-over : (r l fuel : ℕ) → items fuel (at_count none r l) ≡ []
unfolding items next_bucket_count
items-over r l zero = refl
items-over r l (suc fuel) = refl

advance-over :
    (r l n : ℕ) {end : FunnelBucketCounts} → advance (suc n) (at_count none r l) ≡ some end → ⊥
unfolding advance next_bucket_count
advance-over r l n e = ground arith

advance-short :
    (c r l n : ℕ) {end : FunnelBucketCounts}
    → advance (suc n) (at_count (some c) r l) ≡ some end
    → c ≤ r
unfolding advance next_bucket_count
advance-short c r l n e = elim (Bool-cases (leb c r)) [
  | inl fits ↦ leb→le _ _ fits
  | inr short ↦ absurd (ground (arith, rw (short, advance) at e))
]

following-last : (c r : ℕ) → following c r 0 ≡ none
following-last c r = refl

advance-done :
    (next : Option ℕ) (r : ℕ) {end : FunnelBucketCounts}
    → advance 0 (at_count next r 0) ≡ some end
    → at_count next r 0 ≡ end
unfolding advance
advance-done next r e = cc

pub Run-all :
    (l c r : ℕ) {end : FunnelBucketCounts}
    → 0 < c
    → advance (suc l) (at_count (some c) r (suc l)) ≡ some end
    → Run c r l end
Run-all zero c r {end} pos e =
    let h = advance-short c r 1 0 e in
    let stop = sym (advance-fits c r 0 h) ∙ e in
    let last = advance-done none (r - c) stop in
    record {
      rest = [];
      yields = items-fits c r 0 1 h ∙ ap (λ xs. c ∷ xs) (items-over (r - c) 0 1);
      count = refl;
      total = omega (arith, ap (λ s. s.remaining_sum) last);
      steps = tt;
      over = ap (λ s. s.next_count) (sym last);
    }
Run-all (suc l) c r {end} pos e =
    let h = advance-short c r (suc (suc l)) (suc l) e in
    let onward = sym (advance-fits c r (suc l) h) ∙ e in
    elim (Option-cases (select_largest_feasible_next c (r - c) (suc l))) [
      | inl stuck ↦ absurd (advance-over (r - c) (suc l) l (rw stuck at onward))
      | inr (v, next) ↦
          let range = select-range c (r - c) (suc l) next in
          let near = (next_bucket_count_iff c v pos).0 (range.0, range.1) in
          let run = Run-all l v (r - c) (omega arith) (rw next at onward) in
          record {
            rest = v ∷ run.rest;
            yields =
                items-fits c r (suc l) (suc (suc l)) h
                ∙ ap (λ s. c ∷ items (suc (suc l)) (at_count s (r - c) (suc l))) next
                ∙ ap (λ xs. c ∷ xs) run.yields;
            count = ap suc run.count;
            total = omega (arith, run.total);
            steps = (near.0, near.1, near.2, near.3, run.steps);
            over = run.over;
          }
    ]
