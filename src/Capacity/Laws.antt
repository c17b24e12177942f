-- ===== src/Capacity/Laws.antt =====
-- The capacity search and the cleanup threshold.
use opthash_rs.Prelude.{
  ℕ, zero, suc, ◌+◌, ◌-◌, ◌*◌, ◌/◌, ◌%◌, ◌^◌, ◌≤◌, ◌<◌, Option, none, some, true, false, ◌≡◌, refl,
  ap, inl, inr, ◌⊎◌, arith, ltb, leb, ◌==◌, ==_iff, Bool-cases, checked, u64_mod, usize_bits,
  ltb→lt, ltb→le,
}
use opthash_rs.Prelude.Log.{div_unique, pow2-pos, pow2_mono, pow2-suc}
use native.Mathlib.Nat.{
  lt-div-mul-add, div-lt_iff_lt-mul, div-mul-le_self, div-le_self, div-add-mod', mod-lt,
}
use opthash_rs.Geometry.Arith.{floor_div_pow2}
use opthash_rs.Reserve.{ReserveFraction, floor_reserved}
use opthash_rs.Capacity.{
  max_insertions, capacity_loop, capacity_for, exact_capacity_for, tombstone_cleanup_threshold,
}

-- One more slot never lowers the budget, and raises it by at most one.
sub-div_mono : (p a b : ℕ) → 0 < p → a ≤ b → a - a / p ≤ b - b / p
sub-div_mono p a b h k =
    let d = b - a in
    let lower = lt-div-mul-add {a = a} {b = p} h in
    let grow = (div-lt_iff_lt-mul {k = p} {x = a + d} {y = a / p + d + 1} h).1 (grind arith) in
    let e : a + d ≡ b = omega arith in
    omega (arith, rw e at grow, div-mul-le_self a p, div-le_self a p)

pub max_insertions_mono :
    (reserve : ReserveFraction) (a b : ℕ)
    → a ≤ b
    → max_insertions a reserve ≤ max_insertions b reserve
unfolding max_insertions floor_reserved floor_div_pow2
max_insertions_mono reserve a b h = elim (Bool-cases (leb usize_bits reserve.exponent)) [
  | inl big ↦ rw big (omega arith)
  | inr small ↦ rw small (sub-div_mono (2 ^ reserve.exponent) a b (pow2-pos reserve.exponent) h)
]

-- The capacity for a budget of `needed` has that budget, with one slot less it has not.
exact_capacity_budget :
    (needed p : ℕ)
    → 2 ≤ p
    → 0 < needed
    → let c = needed + (needed - 1) / (p - 1) in
      (c - c / p ≡ needed) × ((c - 1) - (c - 1) / p ≡ needed - 1)
exact_capacity_budget needed p h k =
    let m = p - 1 in
    let q = (needed - 1) / m in
    let r = (needed - 1) % m in
    let e : needed - 1 ≡ q * m + r = omega (arith, div-add-mod' (needed - 1) m) in
    let small : r < m = mod-lt (needed - 1) (omega arith) in
    let split : q * p ≡ q * m + q =
      omega (arith, ap (λ (t : ℕ). q * t) (let f : p ≡ m + 1 = omega arith in f)) in
    let at = div_unique p q (r + 1) (needed + q) (omega arith) (omega arith) in
    let below = div_unique p q r (needed + q - 1) (omega arith) (omega arith) in
    (omega arith, omega arith)

module _ (reserve : ReserveFraction) where
  open reserve use {exponent}

  wide_budget : leb usize_bits exponent ≡ true → (c : ℕ) → max_insertions c reserve ≡ c
  unfolding max_insertions floor_reserved floor_div_pow2
  wide_budget big c = rw big (omega arith)

  narrow_budget :
      leb usize_bits exponent ≡ false → (c : ℕ) → max_insertions c reserve ≡ c - c / 2 ^ exponent
  unfolding max_insertions floor_reserved floor_div_pow2
  narrow_budget small c = rw small

  wide_capacity :
      leb usize_bits exponent ≡ true
      → (needed : ℕ) → needed < u64_mod
      → exact_capacity_for needed reserve ≡ checked u64_mod needed
  unfolding exact_capacity_for
  wide_capacity big needed h = ground arith

  narrow_capacity :
      leb usize_bits exponent ≡ false
      → (n : ℕ)
      → exact_capacity_for (suc n) reserve ≡ checked u64_mod (suc n + n / (2 ^ exponent - 1))
  unfolding exact_capacity_for
  narrow_capacity small n =
      let one_shl : 1 * 2 ^ exponent ≡ 2 ^ exponent = omega arith in
      let one_less : suc n - 1 ≡ n = omega arith in
      let positive : (suc n == 0) ≡ false = ground arith in rw (positive, small, one_shl, one_less)

-- For a request below `2 ^ 64`, `exact_capacity_for` returns the least slot count whose budget holds `needed`, and `none`
-- exactly when that count does not fit `usize`, for every positive exponent.
pub exact_capacity_for-least :
    (needed : ℕ) (reserve : ReserveFraction)
    → needed < u64_mod
    → 1 ≤ reserve.exponent
    → (least : ℕ) × (needed ≤ max_insertions least reserve)
      × ((c : ℕ) → c < least → max_insertions c reserve < needed)
      × (exact_capacity_for needed reserve ≡ checked u64_mod least)
exact_capacity_for-least zero reserve h k =
    (0, omega arith, (λ c below. absurd (omega arith)), unfold exact_capacity_for in refl)
exact_capacity_for-least (suc n) reserve h k = elim (Bool-cases (leb usize_bits reserve.exponent)) [
  | inl big ↦
      let budget = wide_budget reserve big in
      (
        suc n,
        omega (arith, budget (suc n)),
        (λ c below. omega (arith, budget c)),
        wide_capacity reserve big (suc n) h,
      )
  | inr small ↦
      let p = 2 ^ reserve.exponent in
      let least = suc n + n / (p - 1) in
      let one_less : suc n - 1 ≡ n = omega arith in
      let b =
        rw one_less at
          (exact_capacity_budget (suc n) p (pow2_mono 1 reserve.exponent k) (omega arith)) in
      let budget = narrow_budget reserve small in
      (
        least,
        omega (arith, budget least),
        (λ c below.
            omega
              (arith, budget (least - 1), max_insertions_mono reserve c (least - 1) (omega arith))),
        narrow_capacity reserve small n,
      )
]

-- The doubling loop: its result is the start times a power of two and has the budget; every
-- smaller doubling has not.
pub record IsDoubling (start needed : ℕ) (reserve : ReserveFraction) (result : Option ℕ)
    : Type 0 where
  pub doublings : ℕ
  pub before : (j : ℕ) → j < doublings → max_insertions (start * 2 ^ j) reserve < needed
  pub outcome :
      ((result ≡ some (start * 2 ^ doublings))
        × (needed ≤ max_insertions (start * 2 ^ doublings) reserve))
      ⊎ ((result ≡ none) × (u64_mod ≤ start * 2 ^ doublings))

module _ (start needed : ℕ) (reserve : ReserveFraction) (pos : 0 < start) where
  abbrev Short : ℕ → Type 0
  Short k = (j : ℕ) → j < k → max_insertions (start * 2 ^ j) reserve < needed

  Short-suc :
      (k c : ℕ) → c ≡ start * 2 ^ k → Short k → max_insertions c reserve < needed → Short (suc k)
  Short-suc k c e before more j below = elim (Bool-cases (j == k)) [
    | inl same ↦ rw ((==_iff j k).0 same, ← e) more
    | inr less ↦ before j (ground arith)
  ]

  double : (k c : ℕ) → c ≡ start * 2 ^ k → c * 2 ≡ start * 2 ^ suc k
  double k c e = omega (arith, ap (λ (t : ℕ). start * t) (pow2-suc k))

  capacity_loop-IsDoubling :
      (fuel k c : ℕ)
      → c ≡ start * 2 ^ k
      → Short k
      → u64_mod ≤ 2 ^ (k + fuel)
      → c < u64_mod
      → (result : Option ℕ) × (capacity_loop fuel c needed reserve ≡ some result)
        × IsDoubling start needed reserve result
  unfolding capacity_loop
  capacity_loop-IsDoubling zero k c e before enough fits =
      let z : k + zero ≡ k = omega arith in
      let p = pow2-pos k in absurd (grind (arith, rw z at enough))
  capacity_loop-IsDoubling (suc fuel) k c e before enough fits =
      elim (Bool-cases (ltb (max_insertions c reserve) needed)) [
        | inr done ↦ (
          some c,
          rw (done, capacity_loop),
          record {
            doublings = k;
            before = before;
            outcome = inl (ap some e, rw (← e) (ltb→le _ _ done));
          },
        )
        | inl more ↦
            let further = Short-suc k c e before (ltb→lt _ _ more) in
            elim (Bool-cases (ltb (c * 2) u64_mod)) [
              | inr over ↦ (
                none,
                rw (more, over, capacity_loop),
                record {
                  doublings = suc k;
                  before = further;
                  outcome = inr (refl, omega (arith, double k c e, ltb→le _ _ over));
                },
              )
              | inl fits' ↦
                  let s : k + suc fuel ≡ suc k + fuel = omega arith in
                  let (result, run, spec) =
                    capacity_loop-IsDoubling fuel (suc k) (c * 2) (double k c e) further
                      (rw s at enough) (ltb→lt _ _ fits') in
                  (result, rw (more, fits', capacity_loop) run, spec)
            ]
      ]

-- From a positive start the search ends within its fuel: with the first doubling of the start
-- whose budget holds `needed`, or with `none` when the doublings below `2 ^ 64` are all too small.
pub capacity_for-IsDoubling :
    (start needed : ℕ) (reserve : ReserveFraction)
    → 0 < start
    → start < u64_mod
    → (result : Option ℕ) × (capacity_for start needed reserve ≡ some result)
      × IsDoubling start needed reserve result
unfolding capacity_for
capacity_for-IsDoubling start needed reserve pos fits =
    capacity_loop-IsDoubling start needed reserve pos 65 0 start (omega arith)
      (λ j below. absurd (omega arith)) (omega arith) fits

-- The cleanup threshold lies between half and three quarters of the capacity, as far as three
-- times the capacity fits `usize`.
pub tombstone_cleanup_threshold_bounds :
    (group_size capacity : ℕ)
    → capacity * 3 < u64_mod
    → (capacity / 2 ≤ tombstone_cleanup_threshold group_size capacity)
      × (tombstone_cleanup_threshold group_size capacity ≤ capacity * 3 / 4)
unfolding tombstone_cleanup_threshold
tombstone_cleanup_threshold_bounds group_size capacity h = omega arith
