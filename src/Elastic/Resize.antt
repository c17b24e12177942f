-- ===== src/Elastic/Resize.antt =====
-- elastic.rs and raw/rebuild.rs: construction, and the rebuild of a resize. The outer option is
-- `none` where the code panics or aborts. `build_arena` tells for the capacities of the levels
-- whether their arena can be laid out and allocated, and the error when it cannot.
use opthash_rs.Prelude.{
  ℕ, Bool, true, false, ◌||◌, Option, none, some, List, [], ◌∷◌, ◌++◌, map, ◌>>=◌, Result, ok, err,
  replicate, sum,
}
use opthash_rs.Reserve.{ReserveFraction}
use opthash_rs.Epoch.{
  EpochTransition, explicit_resize, placement_recovery, initial_state, start_epoch,
}
use opthash_rs.Membership.{word_count}
use opthash_rs.Elastic.Filter.{cleared_word}
use opthash_rs.Elastic.Scheduler.{new_scheduler}
use opthash_rs.Elastic.Shape.{ElasticGeometry, for_slots, for_insert_budget}
use opthash_rs.Elastic.Key.{Hashing}
use opthash_rs.Elastic.Level.{SlotEntry, Level, new_at, scan_entries}
use opthash_rs.Elastic.Table.{ElasticTable}
use opthash_rs.Elastic.Place.{place_unique}

pub data TryReserveError : Type 0 where
  capacity_overflow alloc_error : TryReserveError

-- `error.rs` gives the same two cases to the constructors, beside those of a reserve fraction.
abbrev pub is_recovery : EpochTransition → Bool
is_recovery placement_recovery = true
is_recovery _ = false

-- `expect`, and the abort of `handle_elastic_alloc_error`.
abbrev pub or_abort {κ} : {A : Type κ} → Result A TryReserveError → Option A
or_abort (ok a) = some a
or_abort (err error) = none

module _ {ℓ} {K V : Type ℓ} where
  -- `try_from_geometry` and the generation of `try_resize_to`: the fields of an empty table.
  unfoldable pub fresh : ElasticGeometry → ReserveFraction → ElasticTable K V
  fresh geometry reserve = record {
    levels = map {A = ℕ} {B = Level K V} new_at geometry.level_capacities;
    len = 0;
    total_slots = geometry.total_slots;
    max_insertions = geometry.max_insertions;
    reserve_fraction = reserve;
    scheduler = new_scheduler geometry.batch_plan;
    epoch = initial_state;
    probe_high_water = 0;
    probe_schedule = [];
    membership = replicate (word_count (sum geometry.level_capacities)) cleared_word;
    stale_membership = 0;
  }

  -- The loop of `rebuild` over the regions of the old generation.
  unfoldable pub live_entries : List (Level K V) → List (SlotEntry K V)
  unfolding scan_entries
  live_entries [] = []
  live_entries (level ∷ levels) = scan_entries level.slots ++ live_entries levels

  unfoldable pub try_from_geometry :
      (List ℕ → Option TryReserveError)
      → ElasticGeometry
      → ReserveFraction
      → Result (ElasticTable K V) TryReserveError
  try_from_geometry build_arena geometry reserve = elim (build_arena geometry.level_capacities) [
    | some error ↦ err error
    | none ↦ ok (fresh geometry reserve)
  ]

  unfoldable pub try_with_capacity :
      (List ℕ → Option TryReserveError)
      → ℕ
      → ℕ
      → ReserveFraction
      → Option (Result (ElasticTable K V) TryReserveError)
  try_with_capacity build_arena initial_capacity requested reserve =
      for_insert_budget initial_capacity requested reserve >>= λ budget. elim budget [
        | none ↦ some (err capacity_overflow)
        | some geometry ↦ some (try_from_geometry build_arena geometry reserve)
      ]

  unfoldable pub with_capacity :
      (List ℕ → Option TryReserveError) → ℕ → ℕ → ReserveFraction → Option (ElasticTable K V)
  with_capacity build_arena initial_capacity requested reserve =
      try_with_capacity build_arena initial_capacity requested reserve >>= or_abort

  module _ ⦃keys : Hashing K⦄ where
    unfoldable pub place_all :
        List (SlotEntry K V) → ElasticTable K V → Option (Bool × ElasticTable K V)
    place_all [] t = some (false, t)
    place_all (entry ∷ entries) t = do
      placed ← place_unique entry (keys.hash_one entry.key) t
      rest ← place_all entries placed.1
      some (placed.0 || rest.0, rest.1)

    -- The new generation beside what a table keeps.
    unfoldable pub rebuild : ElasticTable K V → ElasticGeometry → Option (Bool × ElasticTable K V)
    rebuild t geometry =
        place_all (live_entries t.levels)
          (record (fresh geometry t.reserve_fraction) { epoch = t.epoch })

    unfoldable pub try_resize_to :
        (List ℕ → Option TryReserveError)
        → ElasticGeometry
        → EpochTransition
        → ElasticTable K V
        → Option (Result (ElasticTable K V) TryReserveError)
    try_resize_to build_arena geometry transition t = elim (build_arena geometry.level_capacities) [
      | some error ↦ some (err error)
      | none ↦ rebuild t geometry >>= λ rebuilt. some (
          ok (record (rebuilt.1) {
            epoch = start_epoch transition (is_recovery transition || rebuilt.0) t.epoch;
          }))
    ]

    unfoldable pub try_resize_with :
        (List ℕ → Option TryReserveError)
        → ℕ
        → EpochTransition
        → ElasticTable K V
        → Option (Result (ElasticTable K V) TryReserveError)
    try_resize_with build_arena new_capacity transition t =
        for_slots new_capacity t.reserve_fraction >>= λ shape. elim shape [
          | none ↦ some (err capacity_overflow)
          | some geometry ↦ try_resize_to build_arena geometry transition t
        ]

    unfoldable pub try_resize :
        (List ℕ → Option TryReserveError)
        → ℕ
        → ElasticTable K V
        → Option (Result (ElasticTable K V) TryReserveError)
    try_resize build_arena new_capacity t =
        try_resize_with build_arena new_capacity explicit_resize t

    unfoldable pub resize_with_transition :
        (List ℕ → Option TryReserveError)
        → ℕ
        → EpochTransition
        → ElasticTable K V
        → Option (ElasticTable K V)
    resize_with_transition build_arena new_capacity transition t =
        try_resize_with build_arena new_capacity transition t >>= or_abort

    unfoldable pub resize :
        (List ℕ → Option TryReserveError) → ℕ → ElasticTable K V → Option (ElasticTable K V)
    resize build_arena new_capacity t =
        resize_with_transition build_arena new_capacity explicit_resize t
