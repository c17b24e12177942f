-- ===== src/Elastic/Scheduler.antt =====
-- elastic.rs: `BatchScheduler`, the active batch as the live count moves.
use opthash_rs.Prelude.{
  ℕ, zero, suc, ◌+◌, ◌-◌, min, List, [], ◌∷◌, length, ltb, leb, ◌==◌, ◌||◌, if◌then◌else◌,
  saturating, u64_mod,
}

pub data BatchTarget : Type 0 where
  bootstrap : BatchTarget
  level_pair : ℕ → BatchTarget

pub record BatchScheduler : Type 0 where
  pub batch_ends : List ℕ
  pub current_batch_index : ℕ
  pub batch_start : ℕ
  pub batch_end : ℕ

-- The running total of the closure of `new`.
unfoldable pub running_ends : ℕ → List ℕ → List ℕ
running_ends total [] = []
running_ends total (quota ∷ plan) =
    saturating (total + quota) ∷ running_ends (saturating (total + quota)) plan

-- `partition_point(|&end| end <= len)` of a sorted slice: how many ends lead.
abbrev pub ends_passed : List ℕ → ℕ → ℕ
ends_passed [] len = 0
ends_passed (end ∷ ends) len = if leb end len then suc (ends_passed ends len) else 0

-- `ends[index]`, within the slice.
abbrev pub end_at : List ℕ → ℕ → ℕ
end_at [] index = 0
end_at (end ∷ ends) zero = end
end_at (end ∷ ends) (suc index) = end_at ends index

abbrev pub batch_at : List ℕ → ℕ → ℕ
batch_at ends len = min (ends_passed ends len) (length ends - 1)

unfoldable pub sync : ℕ → BatchScheduler → BatchScheduler
sync len s =
    let index = batch_at s.batch_ends len in
    if length s.batch_ends == 0 then s else record s {
      current_batch_index = index;
      batch_start = if index == 0 then 0 else end_at s.batch_ends (index - 1);
      batch_end = end_at s.batch_ends index;
    }

unfoldable pub reset : BatchScheduler → BatchScheduler
unfolding sync
reset s = sync 0 s

unfoldable pub new_scheduler : List ℕ → BatchScheduler
unfolding running_ends reset
new_scheduler batch_plan = reset (record {
  batch_ends = running_ends 0 batch_plan;
  current_batch_index = 0;
  batch_start = 0;
  batch_end = u64_mod - 1;
})

abbrev pub target_of : ℕ → BatchTarget
target_of index = if index == 0 then bootstrap else level_pair (index - 1)

-- The target, and the scheduler after it.
unfoldable pub target : ℕ → BatchScheduler → BatchTarget × BatchScheduler
target len s =
    let synced = if leb s.batch_end len || ltb len s.batch_start then sync len s else s in
    (target_of synced.current_batch_index, synced)
