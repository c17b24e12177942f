-- ===== src/Geometry/Paths.antt =====
-- exact/geometry.rs: the bucket counts of the Funnel's ordinary levels, their path sums, the choice
-- of the next count and the iterator. A method that changes its receiver returns the new one.
use opthash_rs.Prelude.{
  ℕ, zero, suc, ◌+◌, ◌-◌, Bool, true, false, Option, none, some, List, [], ◌∷◌, ◌&&◌, ltb, leb,
  if◌then◌else◌, checked_sub, u64_mod,
}
use opthash_rs.Geometry.Arith.{minimum_next_bucket_count, maximum_next_bucket_count}

-- The loop of `minimum_path_sum_at_most` with its running sum; a sum that overflows is too large.
unfoldable pub minimum_sum_loop : ℕ → ℕ → ℕ → ℕ → Bool
minimum_sum_loop current zero target sum = true
minimum_sum_loop current (suc level_count) target sum =
    let rest =
      minimum_sum_loop (minimum_next_bucket_count current) level_count target (sum + current) in
    if leb u64_mod (sum + current)
    then false
    else if ltb target (sum + current)
    then false
    else rest

unfoldable pub minimum_path_sum_at_most : ℕ → ℕ → ℕ → Bool
unfolding minimum_sum_loop
minimum_path_sum_at_most current level_count target = minimum_sum_loop current level_count target 0

unfoldable pub maximum_sum_loop : ℕ → ℕ → ℕ → ℕ → Bool
maximum_sum_loop current zero target sum = false
maximum_sum_loop current (suc level_count) target sum =
    let rest =
      maximum_sum_loop (maximum_next_bucket_count current) level_count target (sum + current) in
    if leb u64_mod (sum + current) then true else if leb target (sum + current) then true else rest

unfoldable pub maximum_path_sum_at_least : ℕ → ℕ → ℕ → Bool
unfolding maximum_sum_loop
maximum_path_sum_at_least current level_count target = maximum_sum_loop current level_count target 0

abbrev pub feasible : ℕ → ℕ → ℕ → Bool
feasible remaining_sum remaining_levels candidate =
    minimum_path_sum_at_most candidate remaining_levels remaining_sum
    && maximum_path_sum_at_least candidate remaining_levels remaining_sum

-- `find` over `count` candidates downwards.
unfoldable pub find_down : (ℕ → Bool) → ℕ → ℕ → Option ℕ
find_down test zero candidate = none
find_down test (suc count) candidate =
    let rest = find_down test count (candidate - 1) in
    if test candidate then some candidate else rest

unfoldable pub select_largest_feasible_next : ℕ → ℕ → ℕ → Option ℕ
unfolding find_down
select_largest_feasible_next current remaining_sum remaining_levels =
    let minimum = minimum_next_bucket_count current in
    let maximum = maximum_next_bucket_count current in
    find_down (feasible remaining_sum remaining_levels) (maximum + 1 - minimum) maximum

pub record FunnelBucketCounts : Type 0 where
  pub next_count : Option ℕ
  pub remaining_sum : ℕ
  pub remaining_levels : ℕ

-- No next count after the last level.
abbrev pub following : ℕ → ℕ → ℕ → Option ℕ
following count remaining_sum zero = none
following count remaining_sum (suc levels) =
    select_largest_feasible_next count remaining_sum (suc levels)

-- A failed subtraction leaves the iterator without a next count.
unfoldable pub next_bucket_count : FunnelBucketCounts → Option ℕ × FunnelBucketCounts
next_bucket_count s = elim s.next_count [
  | none ↦ (none, s)
  | some count ↦
      let spent : FunnelBucketCounts = record s { next_count = none } in
      elim (checked_sub s.remaining_sum count) [
        | none ↦ (none, spent)
        | some remaining_sum ↦ elim (checked_sub s.remaining_levels 1) [
          | none ↦ (none, spent)
          | some remaining_levels ↦ (
            some count,
            record {
              next_count = following count remaining_sum remaining_levels;
              remaining_sum = remaining_sum;
              remaining_levels = remaining_levels;
            },
          )
        ]
      ]
]

-- `for _ in 0..level_count { counts.next()?; }`.
unfoldable pub advance : ℕ → FunnelBucketCounts → Option FunnelBucketCounts
advance zero s = some s
advance (suc count) s =
    let (item, s') = next_bucket_count s in elim item [ none ↦ none | some _ ↦ advance count s' ]

-- The items of the iterator, at most `fuel` of them.
unfoldable pub items : ℕ → FunnelBucketCounts → List ℕ
items zero s = []
items (suc fuel) s =
    let (item, s') = next_bucket_count s in elim item [ none ↦ [] | some a ↦ a ∷ items fuel s' ]
