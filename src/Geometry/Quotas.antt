-- ===== src/Geometry/Quotas.antt =====
-- The batch quotas of the Elastic plan.
use opthash_rs.Prelude.{
  ℕ, zero, suc, ◌+◌, ◌-◌, ◌*◌, ◌/◌, ◌%◌, ◌^◌, ◌≤◌, min, Option, none, some, List, [], ◌∷◌, ◌≡◌,
  refl, ap, ◌∙◌, arith, length, sum, collect, collect-suc, leb, inl, inr, Bool-cases, usize_bits,
  false,
}
use opthash_rs.Prelude.Log.{pow2-suc, pow2-pos, pow2_mono, div-add_le, div-double_le}
use opthash_rs.Geometry.Arith.{floor_div_pow2, ceil_three_quarters}
use opthash_rs.Geometry.Config.{
  PaperConfig, BatchQuotas, next_quota, raw_quota, level_count, batch_quotas, max_insertions,
}
use opthash_rs.Geometry.Levels.{
  lengths, next_length-half, LastAtMost, lengths-LastAtMost, sum-lengths, length-lengths,
  level_count_bounds,
}

-- The reserve of a sum covers the reserves of its parts, and halving the fraction lowers it.
floor_div_pow2-add :
    (e a b : ℕ) → floor_div_pow2 a e + floor_div_pow2 b e ≤ floor_div_pow2 (a + b) e
unfolding floor_div_pow2
floor_div_pow2-add e a b = elim (Bool-cases (leb usize_bits e)) [
  | inl big ↦ rw big (omega arith)
  | inr small ↦ rw small (div-add_le (2 ^ e) a b (pow2-pos e))
]

floor_div_pow2-suc : (e a : ℕ) → floor_div_pow2 a (e + 1) ≤ floor_div_pow2 a e
unfolding floor_div_pow2
floor_div_pow2-suc e a = elim (Bool-cases (leb usize_bits (e + 1))) [
  | inl big ↦ rw big (omega arith)
  | inr small ↦
      let s : leb usize_bits e ≡ false = ground arith in
      let p : 2 ^ (e + 1) ≡ 2 * 2 ^ e =
        omega
          (arith, pow2-suc e, ap (λ (t : ℕ). 2 ^ t) (let q : e + 1 ≡ suc e = omega arith in q)) in
      rw (small, s, p) (div-double_le (2 ^ e) a (pow2-pos e))
]

-- With a positive exponent the subtractions of a later quota do not go below zero.
pub quota-no_underflow :
    (d previous : ℕ)
    → 1 ≤ d
    → floor_div_pow2 previous (d + 1) + ceil_three_quarters previous ≤ previous
unfolding floor_div_pow2 ceil_three_quarters
quota-no_underflow d previous h = elim (Bool-cases (leb usize_bits (d + 1))) [
  | inl big ↦ rw big (omega arith)
  | inr small ↦ let p = pow2_mono 2 (d + 1) (omega arith) in rw small (grind arith)
]

-- The quotas before the cap, and the cap in order.
abbrev raws : ℕ → Option ℕ → List ℕ → List ℕ
raws d previous [] = []
raws d previous (l ∷ ls) = raw_quota d previous l ∷ raws d (some l) ls

abbrev capped : ℕ → List ℕ → List ℕ
capped room [] = []
capped room (q ∷ qs) = min q room ∷ capped (room - min q room) qs

sum-capped : (room : ℕ) (qs : List ℕ) → sum (capped room qs) ≡ min (sum qs) room
sum-capped room [] = omega arith
sum-capped room (q ∷ qs) = omega (arith, sum-capped (room - min q room) qs)

length-capped : (room : ℕ) (qs : List ℕ) → length (capped room qs) ≡ length qs
length-capped room [] = refl
length-capped room (q ∷ qs) = ap suc (length-capped (room - min q room) qs)

length-raws : (d : ℕ) (previous : Option ℕ) (ls : List ℕ) → length (raws d previous ls) ≡ length ls
length-raws d previous [] = refl
length-raws d previous (l ∷ ls) = ap suc (length-raws d (some l) ls)

abbrev quotas_at : ℕ → Option ℕ → ℕ → ℕ → ℕ → BatchQuotas
quotas_at d previous room r l = record {
  levels = record { remaining_slots = r; remaining_levels = l };
  previous_level = previous;
  remaining_insertions = room;
  reserve_exponent = d;
}

next_quota-half :
    (l d : ℕ) (previous : Option ℕ) (room r : ℕ)
    → let c = r / 2 + r % 2 in
      let q = min (raw_quota d previous c) room in
      next_quota (quotas_at d previous room r (suc (suc l)))
      ≡ some (q, quotas_at d (some c) (room - q) (r / 2) (suc l))
unfolding next_quota
next_quota-half l d previous room r = rw (next_length-half r l)

collect-capped :
    (l d : ℕ) (previous : Option ℕ) (room r : ℕ)
    → collect next_quota l (quotas_at d previous room r l)
      ≡ capped room (raws d previous (lengths l r))
unfolding collect next_quota
collect-capped zero d previous room r = refl
collect-capped (suc zero) d previous room r = refl
collect-capped (suc (suc l)) d previous room r =
    let c = r / 2 + r % 2 in
    let q = min (raw_quota d previous c) room in
    collect-suc next_quota (suc l) (quotas_at d previous room r (suc (suc l)))
      (next_quota-half l d previous room r)
    ∙ ap (λ t. q ∷ t) (collect-capped (suc l) d (some c) (room - q) (r / 2))

-- What the later quotas add up to, given the level before them.
raws-sum :
    (d p : ℕ) (ls : List ℕ)
    → 1 ≤ d
    → LastAtMost 2 (p ∷ ls)
    → p + sum ls
      ≤ sum (raws d (some p) ls) + ceil_three_quarters p + floor_div_pow2 (p + sum ls) (d + 1)
unfolding raw_quota
raws-sum d p [] h last = unfold ceil_three_quarters in omega arith
raws-sum d p (l ∷ ls) h last = omega (
  arith,
  raws-sum d l ls h last,
  quota-no_underflow d p h,
  floor_div_pow2-add (d + 1) p (l + sum ls),
)

-- All the quotas of a plan with `suc l` levels, before the cap.
all-sum :
    (d l r : ℕ)
    → 1 ≤ d
    → r ≤ 2 ^ suc l
    → r ≤ sum (raws d none (lengths (suc l) r)) + floor_div_pow2 r d
unfolding raw_quota
all-sum d zero r h up = unfold ceil_three_quarters in omega arith
all-sum d (suc l) r h up =
    let c = r / 2 + r % 2 in
    let rest = lengths (suc l) (r / 2) in
    let e : c + sum rest ≡ r = omega (arith, sum-lengths l (r / 2)) in
    let total = raws-sum d c rest h (lengths-LastAtMost (suc l) r up) in
    omega (arith, rw e at total, floor_div_pow2-suc d r)

-- For a table of at least two slots and a positive exponent there is one quota for each level,
-- and the quotas sum to exactly the insertion budget `n - floor(delta * n)`.
pub batch_quotas-sum :
    (config : PaperConfig)
    → 2 ≤ config.n
    → 1 ≤ config.reserve_exponent
    → (length (batch_quotas config) ≡ level_count config)
      × (sum (batch_quotas config) ≡ max_insertions config)
unfolding batch_quotas
batch_quotas-sum config h k =
    let b = level_count_bounds config h in
    let d = config.reserve_exponent in
    let qs = raws d none (lengths (suc b.last) config.n) in
    let total = all-sum d b.last config.n k b.upper in
    rw (b.count, collect-capped (suc b.last) d none (max_insertions config) config.n)
      (
        length-capped (max_insertions config) qs
            ∙ length-raws d none (lengths (suc b.last) config.n)
            ∙ length-lengths (suc b.last) config.n,
        omega (arith, sum-capped (max_insertions config) qs),
      )
