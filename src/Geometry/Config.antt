-- ===== src/Geometry/Config.antt =====
-- exact/geometry.rs: `PaperConfig`, the Elastic plan and its two iterators. An iterator is its
-- state and a `next`; `collect` runs it.
use opthash_rs.Prelude.{
  ℕ, ◌+◌, ◌-◌, ◌/◌, ◌%◌, min, Option, none, some, List, Result, ok, err, ltb, ◌==◌, if◌then◌else◌,
  ◌>>=◌, collect,
}
use opthash_rs.Geometry.Arith.{floor_div_pow2, ceil_log2, ceil_three_quarters}

pub record PaperConfig : Type 0 where
  pub n : ℕ
  pub reserve_exponent : ℕ

pub data ConfigError : Type 0 where
  n_too_small : ℕ → ConfigError
  exponent_zero : ConfigError

unfoldable pub new : ℕ → ℕ → Result PaperConfig ConfigError
new n reserve_exponent =
    if ltb n 2
    then err (n_too_small n)
    else if reserve_exponent == 0
    then err exponent_zero
    else ok (record { n = n; reserve_exponent = reserve_exponent })

unfoldable pub floor_delta_n : PaperConfig → ℕ
floor_delta_n config = floor_div_pow2 config.n config.reserve_exponent

unfoldable pub max_insertions : PaperConfig → ℕ
unfolding floor_delta_n
max_insertions config = config.n - floor_delta_n config

pub record LevelLengths : Type 0 where
  pub remaining_slots : ℕ
  pub remaining_levels : ℕ

unfoldable pub next_length : LevelLengths → Option (ℕ × LevelLengths)
next_length s =
    let length =
      if s.remaining_levels == 1
      then s.remaining_slots
      else s.remaining_slots / 2 + s.remaining_slots % 2 in
    if s.remaining_levels == 0
    then none
    else some (
      length,
      record {
        remaining_slots = s.remaining_slots - length;
        remaining_levels = s.remaining_levels - 1;
      },
    )

unfoldable pub level_count : PaperConfig → ℕ
level_count config = ceil_log2 config.n

unfoldable pub start_lengths : PaperConfig → LevelLengths
unfolding level_count
start_lengths config = record { remaining_slots = config.n; remaining_levels = level_count config }

unfoldable pub level_lengths : PaperConfig → List ℕ
unfolding start_lengths next_length collect
level_lengths config = collect next_length (level_count config) (start_lengths config)

pub record BatchQuotas : Type 0 where
  pub levels : LevelLengths
  pub previous_level : Option ℕ
  pub remaining_insertions : ℕ
  pub reserve_exponent : ℕ

-- The quota of a level before the cap.
unfoldable pub raw_quota : ℕ → Option ℕ → ℕ → ℕ
raw_quota reserve_exponent none level = ceil_three_quarters level
raw_quota reserve_exponent (some previous) level =
    previous
    - floor_div_pow2 previous (reserve_exponent + 1)
    - ceil_three_quarters previous
    + ceil_three_quarters level

unfoldable pub next_quota : BatchQuotas → Option (ℕ × BatchQuotas)
unfolding next_length raw_quota
next_quota s = do
  (level, levels) ← next_length s.levels
  let quota = min (raw_quota s.reserve_exponent s.previous_level level) s.remaining_insertions
  some (
    quota,
    record s {
      levels = levels;
      previous_level = some level;
      remaining_insertions = s.remaining_insertions - quota;
    },
  )

unfoldable pub batch_quotas : PaperConfig → List ℕ
unfolding next_quota start_lengths max_insertions collect
batch_quotas config = collect next_quota (level_count config) (record {
  levels = start_lengths config;
  previous_level = none;
  remaining_insertions = max_insertions config;
  reserve_exponent = config.reserve_exponent;
})
