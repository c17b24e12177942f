-- ===== src/Geometry/Levels.antt =====
-- The level lengths of the Elastic plan.
use opthash_rs.Prelude.{
  ℕ, zero, suc, ◌+◌, ◌-◌, ◌*◌, ◌/◌, ◌%◌, ◌^◌, ◌≤◌, ◌<◌, some, List, [], ◌∷◌, ◌≡◌, refl, ap, arith,
  length, sum, All, collect, collect-suc, ◌∙◌,
}
use opthash_rs.Prelude.Log.{pow2-suc, pow2-pos}
use opthash_rs.Geometry.Arith.{ceil_log2}
use opthash_rs.Geometry.Rounding.{ceil_log2_bounds}
use opthash_rs.Geometry.Config.{PaperConfig, LevelLengths, next_length, level_count, level_lengths}

-- The lengths by recursion on the levels: half of what remains, rounded up, and all of it last.
abbrev pub lengths : ℕ → ℕ → List ℕ
lengths zero r = []
lengths (suc zero) r = r ∷ []
lengths (suc (suc l)) r = (r / 2 + r % 2) ∷ lengths (suc l) (r / 2)

abbrev at_state : ℕ → ℕ → LevelLengths
at_state r l = record { remaining_slots = r; remaining_levels = l }

pub next_length-last : (r : ℕ) → next_length (at_state r 1) ≡ some (r, at_state (r - r) 0)
unfolding next_length
next_length-last r = refl

pub next_length-half :
    (r l : ℕ)
    → next_length (at_state r (suc (suc l))) ≡ some (r / 2 + r % 2, at_state (r / 2) (suc l))
unfolding next_length
next_length-half r l = ground arith

collect-lengths : (l r : ℕ) → collect next_length l (at_state r l) ≡ lengths l r
unfolding collect
collect-lengths zero r = refl
collect-lengths (suc zero) r = collect-suc next_length 0 (at_state r 1) (next_length-last r)
collect-lengths (suc (suc l)) r =
    collect-suc next_length (suc l) (at_state r (suc (suc l))) (next_length-half r l)
    ∙ ap (λ t. (r / 2 + r % 2) ∷ t) (collect-lengths (suc l) (r / 2))

pub level_lengths-lengths :
    (config : PaperConfig) → level_lengths config ≡ lengths (level_count config) config.n
unfolding level_lengths
level_lengths-lengths config = collect-lengths (level_count config) config.n

-- Each length is within one of half the one before it.
abbrev pub Halves : ℕ → List ℕ → Type 0
Halves previous [] = Unit
Halves previous (x ∷ xs) = (2 * x ≤ previous + 2) × (previous ≤ 2 * x + 2) × Halves x xs

pub length-lengths : (l r : ℕ) → length (lengths l r) ≡ l
length-lengths zero r = refl
length-lengths (suc zero) r = refl
length-lengths (suc (suc l)) r = ap suc (length-lengths (suc l) (r / 2))

pub sum-lengths : (l r : ℕ) → sum (lengths (suc l) r) ≡ r
sum-lengths zero r = omega arith
sum-lengths (suc l) r = omega (arith, sum-lengths l (r / 2))

lengths-pos : (l r : ℕ) → 2 ^ l ≤ r → All (λ x. 0 < x) (lengths (suc l) r)
lengths-pos zero r h = omega arith
lengths-pos (suc l) r h =
    let p = pow2-pos l in let q = pow2-suc l in (omega arith, lengths-pos l (r / 2) (omega arith))

lengths-Halves :
    (l r previous : ℕ)
    → r ≤ previous
    → previous ≤ r + 1
    → 2 ^ l ≤ r
    → r ≤ 2 ^ suc l
    → Halves previous (lengths (suc l) r)
lengths-Halves zero r previous p q lo hi = omega arith
lengths-Halves (suc l) r previous p q lo hi =
    let a = pow2-suc l in
    let b = pow2-suc (suc l) in
    (
      omega arith,
      omega arith,
      lengths-Halves l (r / 2) (r / 2 + r % 2) (omega arith) (omega arith) (omega arith)
          (omega arith),
    )

-- The last length, if there is one, is at most two.
abbrev pub LastAtMost : ℕ → List ℕ → Type 0
LastAtMost b [] = Unit
LastAtMost b (x ∷ []) = x ≤ b
LastAtMost b (x ∷ y ∷ xs) = LastAtMost b (y ∷ xs)

pub lengths-LastAtMost : (l r : ℕ) → r ≤ 2 ^ suc l → LastAtMost 2 (lengths (suc l) r)
lengths-LastAtMost zero r h = omega arith
lengths-LastAtMost (suc zero) r h = omega arith
lengths-LastAtMost (suc (suc l)) r h =
    lengths-LastAtMost (suc l) (r / 2) (omega (arith, pow2-suc (suc (suc l))))

abbrev pub Halving : List ℕ → Type 0
Halving [] = Unit
Halving (x ∷ xs) = Halves x xs

lengths-Halving : (l r : ℕ) → 2 ^ l ≤ r → r ≤ 2 ^ suc l → Halving (lengths (suc l) r)
lengths-Halving zero r lo hi = tt
lengths-Halving (suc l) r lo hi =
    let a = pow2-suc l in
    let b = pow2-suc (suc l) in
    lengths-Halves l (r / 2) (r / 2 + r % 2) (omega arith) (omega arith) (omega arith) (omega arith)

-- The level count is positive, and `n` lies between the powers of two that it needs.
pub record LevelBounds (config : PaperConfig) : Type 0 where
  pub last : ℕ
  pub count : level_count config ≡ suc last
  pub lower : 2 ^ last ≤ config.n
  pub upper : config.n ≤ 2 ^ suc last

pub level_count_bounds : (config : PaperConfig) → 2 ≤ config.n → LevelBounds config
unfolding level_count
level_count_bounds config h =
    let b = ceil_log2_bounds config.n h in
    let e : ceil_log2 config.n ≡ suc (ceil_log2 config.n - 1) = omega arith in
    let p = pow2-suc (ceil_log2 config.n - 1) in
    let q = ap (λ (t : ℕ). 2 ^ t) e in
    record { last = ceil_log2 config.n - 1; count = e; lower = omega arith; upper = omega arith }

-- For a table of at least two slots the plan has `ceil(log2 n)` levels, none of them empty, whose
-- lengths sum to `n`, each within one of half the one before it.
pub level_lengths_plan :
    (config : PaperConfig)
    → 2 ≤ config.n
    → (length (level_lengths config) ≡ level_count config)
      × (sum (level_lengths config) ≡ config.n)
      × All (λ x. 0 < x) (level_lengths config)
      × Halving (level_lengths config)
level_lengths_plan config h =
    let b = level_count_bounds config h in
    rw (level_lengths-lengths config, b.count)
      (
        length-lengths (suc b.last) config.n,
        sum-lengths b.last config.n,
        lengths-pos b.last config.n b.lower,
        lengths-Halving b.last config.n b.lower b.upper,
      )
