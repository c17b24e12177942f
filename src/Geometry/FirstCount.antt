-- ===== src/Geometry/FirstCount.antt =====
-- exact/geometry.rs: what `nearest_feasible_first_count` returns.
use opthash_rs.Prelude.{
  ℕ, zero, suc, ◌+◌, ◌-◌, ◌/◌, ◌≤◌, ◌≡◌, refl, ap, inl, inr, arith, Bool, false, not, Bool-cases,
  Option, none, some, Option-cases, List, [], ◌∷◌, length, sum, ltb, ltb→le, if◌then◌else◌,
  checked_sub,
}
use opthash_rs.Geometry.Paths.{
  FunnelBucketCounts, next_bucket_count, advance, items, minimum_path_sum_at_most,
  maximum_path_sum_at_least,
}
use opthash_rs.Geometry.Partition.{Steps, at_count, Run-all}
use opthash_rs.Geometry.Funnel.{
  search_lower, clamp, first_lower, first_upper, partition_or_none, nearest_feasible_first_count,
  accept, nearest_estimate,
}

-- The search does not go below its left end.
search_lower-ge : (test : ℕ → Bool) (fuel left right : ℕ) → left ≤ search_lower test fuel left right
unfolding search_lower
search_lower-ge test zero left right = omega arith
search_lower-ge test (suc fuel) left right = elim (Bool-cases (ltb left right)) [
  | inr done ↦ rw (done, search_lower) (omega arith)
  | inl more ↦ elim (Bool-cases (test (left + (right - left) / 2))) [
    | inl yes_here ↦
        rw (more, search_lower, yes_here)
          (search_lower-ge test fuel left (left + (right - left) / 2))
    | inr not_here ↦
        let middle = left + (right - left) / 2 in
        let h = search_lower-ge test fuel (middle + 1) right in
        rw (more, search_lower, not_here) (omega (arith, h))
  ]
]

clamp-ge : (v lower upper : ℕ) → lower ≤ upper → lower ≤ clamp v lower upper
clamp-ge v lower upper h = ground arith

-- Positive counts that fall as the paper allows, one for each level, and sum to the total.
abbrev Counts : List ℕ → Type 0
Counts [] = Unit
Counts (x ∷ xs) = (1 ≤ x) × Steps x xs

abbrev pub IsPartition : ℕ → ℕ → List ℕ → Type 0
IsPartition total level_count xs = (length xs ≡ level_count) × (sum xs ≡ total) × Counts xs

at_end : (end : FunnelBucketCounts) → end.next_count ≡ none → next_bucket_count end ≡ (none, end)
unfolding next_bucket_count
at_end end over = rw over refl

accept-zero :
    (first : ℕ) (end : FunnelBucketCounts) {found : ℕ}
    → end.next_count ≡ none
    → accept first (next_bucket_count end) ≡ some found
    → (end.remaining_sum ≡ 0) × (first ≡ found)
accept-zero first end over e = ground (arith, rw (at_end end over) at e)

partition_or_none-IsPartition :
    (total level_count first : ℕ) {found : ℕ}
    → 1 ≤ level_count
    → 1 ≤ first
    → partition_or_none total level_count first ≡ some found
    → IsPartition total level_count
        (items (suc level_count) (at_count (some found) total level_count))
unfolding partition_or_none
partition_or_none-IsPartition total zero first h pos e = absurd (omega arith)
partition_or_none-IsPartition total (suc l) first h pos e =
    elim (Option-cases (advance (suc l) (at_count (some first) total (suc l)))) [
      | inl stuck ↦ absurd (ground (arith, rw stuck at e))
      | inr (end, ran) ↦
          let run = Run-all l first total pos ran in
          let (zero_left, same) = accept-zero first end run.over (rw ran at e) in
          rw (← same, run.yields) (ap suc run.count, omega (arith, run.total), (pos, run.steps))
    ]

-- What is searched once the largest first count is known.
abbrev searched : ℕ → ℕ → ℕ → Option ℕ
searched total level_count maximum =
    let lower = first_lower maximum total level_count in
    let upper = first_upper maximum total level_count in
    if not (maximum_path_sum_at_least maximum level_count total)
    then none
    else if not (minimum_path_sum_at_most 1 level_count total)
    then none
    else if ltb upper lower
    then none
    else partition_or_none total level_count (clamp (nearest_estimate total) lower upper)

searched-run :
    (total level_count maximum : ℕ) {first : ℕ}
    → searched total level_count maximum ≡ some first
    → (ltb (first_upper maximum total level_count) (first_lower maximum total level_count) ≡ false)
      × (partition_or_none total level_count (
            clamp
              (nearest_estimate total)
              (first_lower maximum total level_count)
              (first_upper maximum total level_count))
          ≡ some first)
searched-run total level_count maximum e = ground arith

-- The search's answer starts a partition of all buckets over all levels.
pub nearest-IsPartition :
    (total level_count : ℕ) {first : ℕ}
    → nearest_feasible_first_count total level_count ≡ some first
    → IsPartition total level_count
        (items (suc level_count) (at_count (some first) total level_count))
unfolding nearest_feasible_first_count
nearest-IsPartition total zero e = absurd (ground (arith, e))
nearest-IsPartition total (suc l) {first} e =
    let later : checked_sub (suc l) 1 ≡ some l = ground arith in
    elim (Option-cases (checked_sub total l)) [
      | inl few ↦ absurd (ground (arith, rw (later, few) at e))
      | inr (maximum, there) ↦
          let (ordered, ran) = searched-run total (suc l) maximum (rw (later, there) at e) in
          let low =
            search_lower-ge (λ (c : ℕ). maximum_path_sum_at_least c (suc l) total) 64 1 maximum in
          let c =
            clamp-ge (nearest_estimate total) (first_lower maximum total (suc l))
              (first_upper maximum total (suc l)) (ltb→le _ _ ordered) in
          partition_or_none-IsPartition total (suc l) _ (omega arith) (omega (arith, low, c)) ran
    ]
