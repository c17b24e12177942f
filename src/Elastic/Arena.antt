-- ===== src/Elastic/Arena.antt =====
-- raw/arena.rs, membership.rs and elastic.rs: the layout of a table's arena and the offsets of its
-- regions. A `Layout` of the standard library is its size and alignment; an arena is its layout.
use opthash_rs.Prelude.{
  ℕ, ◌+◌, ◌-◌, ◌*◌, ◌^◌, max, Bool, ◌&&◌, Option, none, some, List, [], ◌∷◌, length, leb, ◌==◌,
  if◌then◌else◌, Result, ok, err, checked, div_ceil, u32_mod, u64_mod, ◌>>=◌,
}
use opthash_rs.Membership.{word_count}
use opthash_rs.Elastic.Resize.{TryReserveError, capacity_overflow, alloc_error}

pub record Layout : Type 0 where
  pub size : ℕ
  pub align : ℕ

-- What the allocators grant: an arena of a layout, and the lists of the routes and of the levels for
-- a number of levels.
pub record Memory : Type 0 where
  pub allocate : Layout → Bool
  pub reserve_schedule : ℕ → Bool
  pub reserve_levels : ℕ → Bool

abbrev and_then {ℓ κ} :
    {A : Type ℓ} {B : Type κ}
    → Result A TryReserveError
    → (A → Result B TryReserveError)
    → Result B TryReserveError
and_then (ok a) f = f a
and_then (err error) f = err error

abbrev ok_or {ℓ} : {A : Type ℓ} → TryReserveError → Option A → Result A TryReserveError
ok_or error (some a) = ok a
ok_or error none = err error

-- `Layout::from_size_align` for a power of two, `Layout::array`, `Layout::extend` and
-- `Layout::pad_to_align`, on a platform of 64 bits.
abbrev round_up : ℕ → ℕ → ℕ
round_up size align = div_ceil size align * align

abbrev from_size_align : ℕ → ℕ → Option Layout
from_size_align size align =
    if leb (round_up size align) (2 ^ 63 - 1)
    then some (record { size = size; align = align })
    else none

abbrev layout_array : Layout → ℕ → Option Layout
layout_array element count = from_size_align (element.size * count) element.align

abbrev layout_extend : Layout → Layout → Option (Layout × ℕ)
layout_extend base next =
    let offset = round_up base.size next.align in
    from_size_align (offset + next.size) (max base.align next.align) >>= λ layout.
    some (layout, offset)

abbrev pad_to_align : Layout → Layout
pad_to_align layout = record layout { size = round_up layout.size layout.align }

abbrev cache_line : ℕ
cache_line = 64

-- `element` is the layout of a slot's entry.
unfoldable pub layout_for_extents : Layout → ℕ → ℕ → Result (Layout × ℕ) TryReserveError
layout_for_extents element ctrl_bytes data_slots =
    if ctrl_bytes == 0 && data_slots == 0
    then ok (record { size = 0; align = cache_line }, 0)
    else ok_or alloc_error (do
      ctrl_layout ← from_size_align ctrl_bytes cache_line
      data_layout ← layout_array element data_slots
      extended ← layout_extend ctrl_layout data_layout
      some (pad_to_align extended.0, extended.1))

unfoldable pub layout_for : Layout → ℕ → Result (Layout × ℕ) TryReserveError
unfolding layout_for_extents
layout_for element total_ctrl = layout_for_extents element total_ctrl total_ctrl

pub record MembershipRegion : Type 0 where
  pub offset : ℕ
  pub words : ℕ

-- A `MetadataWord` has 16 bytes, aligned to 8.
abbrev word_layout : Layout
word_layout = record { size = 16; align = 8 }

unfoldable pub extend_region : Layout → ℕ → Result (Layout × MembershipRegion) TryReserveError
unfolding word_count
extend_region base total_slots =
    let words = word_count total_slots in
    if words == 0
    then ok (base, record { offset = 0; words = 0 })
    else ok_or alloc_error (do
      tail ← layout_array word_layout words
      extended ← layout_extend base tail
      some (pad_to_align extended.0, record { offset = extended.1; words = words }))

pub record ElasticArenaLayout : Type 0 where
  pub layout : Layout
  pub data_base_off : ℕ
  pub membership : MembershipRegion

unfoldable pub elastic_arena_layout : Layout → ℕ → Result ElasticArenaLayout TryReserveError
unfolding layout_for extend_region
elastic_arena_layout element total_slots = and_then (layout_for element total_slots) (λ base.
    and_then (extend_region (base.0) total_slots)
      (λ tail. ok (record { layout = tail.0; data_base_off = base.1; membership = tail.1 })))

-- A layout of size 0 needs no memory.
unfoldable pub try_allocate_with_ctrl_zeroed : Memory → Layout → Result Layout TryReserveError
try_allocate_with_ctrl_zeroed memory layout =
    if layout.size == 0
    then ok (record { size = 0; align = 1 })
    else (if memory.allocate layout then ok layout else err alloc_error)

pub record LayoutCursor : Type 0 where
  pub ctrl_off : ℕ
  pub data_off : ℕ
  pub slot_size : ℕ

unfoldable pub new_cursor : Layout → ℕ → Result LayoutCursor TryReserveError
new_cursor element data_base_off = ok_or capacity_overflow (do
  data_off ← checked u32_mod data_base_off
  slot_size ← checked u32_mod element.size
  some (record { ctrl_off = 0; data_off = data_off; slot_size = slot_size }))

-- The offsets of a region, and the cursor after it.
unfoldable pub reserve_region : ℕ → LayoutCursor → Result ((ℕ × ℕ) × LayoutCursor) TryReserveError
reserve_region cap cursor = ok_or capacity_overflow (do
  next_ctrl_off ← checked u32_mod (cursor.ctrl_off + cap)
  data_bytes ← checked u32_mod (cap * cursor.slot_size)
  next_data_off ← checked u32_mod (cursor.data_off + data_bytes)
  some (
    (cursor.ctrl_off, cursor.data_off),
    record cursor { ctrl_off = next_ctrl_off; data_off = next_data_off },
  ))

-- The loop of `build_elastic_levels`: the offsets of the levels.
unfoldable pub level_offsets : List ℕ → LayoutCursor → Result (List (ℕ × ℕ)) TryReserveError
unfolding reserve_region
level_offsets [] cursor = ok []
level_offsets (cap ∷ caps) cursor =
    and_then (ok_or capacity_overflow (checked u32_mod cap)) (λ cap_u32.
      and_then (reserve_region cap_u32 cursor)
        (λ region. and_then (level_offsets caps (region.1)) (λ offsets. ok (region.0 ∷ offsets))))

unfoldable pub build_elastic_levels :
    Memory → Layout → ℕ → List ℕ → Result (List (ℕ × ℕ)) TryReserveError
unfolding new_cursor level_offsets
build_elastic_levels memory element data_base_off level_capacities =
    and_then (new_cursor element data_base_off) (λ cursor.
      if memory.reserve_levels (length level_capacities)
      then level_offsets level_capacities cursor
      else err alloc_error)

-- The fold of `total_ctrl` from `total` on.
unfoldable pub total_ctrl : ℕ → List ℕ → Option ℕ
total_ctrl total [] = some total
total_ctrl total (capacity ∷ capacities) =
    checked u64_mod (total + capacity) >>= λ sum. total_ctrl sum capacities

unfoldable pub try_alloc_elastic_arena :
    Memory → Layout → List ℕ → Result (Layout × List (ℕ × ℕ) × MembershipRegion) TryReserveError
unfolding total_ctrl elastic_arena_layout try_allocate_with_ctrl_zeroed build_elastic_levels
try_alloc_elastic_arena memory element level_capacities =
    and_then (ok_or capacity_overflow (total_ctrl 0 level_capacities)) (λ total.
      and_then (elastic_arena_layout element total) (λ planned.
        and_then (try_allocate_with_ctrl_zeroed memory planned.layout) (λ arena.
          and_then (build_elastic_levels memory element planned.data_base_off level_capacities)
            (λ levels. ok (arena, levels, planned.membership)))))

unfoldable pub try_probe_schedule : Memory → ℕ → Option TryReserveError
try_probe_schedule memory level_count =
    if memory.reserve_schedule level_count then none else some alloc_error

abbrev error_of {ℓ} : {A : Type ℓ} → Result A TryReserveError → Option TryReserveError
error_of (ok a) = none
error_of (err error) = some error

-- The first two statements of `try_from_geometry` and of `try_resize_to`: an instance of the
-- parameter `build_arena`.
unfoldable pub storage_error : Memory → Layout → List ℕ → Option TryReserveError
unfolding try_probe_schedule try_alloc_elastic_arena
storage_error memory element level_capacities =
    elim (try_probe_schedule memory (length level_capacities)) [
      | some error ↦ some error
      | none ↦ error_of (try_alloc_elastic_arena memory element level_capacities)
    ]
