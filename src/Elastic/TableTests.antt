-- ===== src/Elastic/TableTests.antt =====
-- The instances of the theorems on a table: on one of sixteen slots, and on the same with one entry.
use opthash_rs.Prelude.{
  ℕ, ◌%◌, ◌≡◌, refl, ap, sym, ◌∙◌, arith, Bool, Option, none, some, [], ◌∷◌, u64_mod,
}
use mathlib.Core.Path.{subst}
use opthash_rs.Reserve.{default}
use opthash_rs.Epoch.{tombstone_cleanup}
use opthash_rs.Elastic.Shape.{ElasticGeometry, Shared, for_slots}
use opthash_rs.Elastic.Inserted.{needed_slots}
use opthash_rs.Elastic.Sample.{
  number_keys, arena, arena_run, sixteen, sixteen_run, no_entries, one_entry, one_entry_run,
  where_seven, one_entry_found,
}
use opthash_rs.Elastic.Table.{ElasticTable, find_entry}
use opthash_rs.Elastic.Resize.{fresh, live_entries, try_from_geometry, try_resize_with}
use opthash_rs.Elastic.Delete.{remove, clear_table, wipe_all}
use opthash_rs.Elastic.Cleared.{clear-IsEmpty}
use opthash_rs.Elastic.Insert.{insert}
use opthash_rs.Control.{control_fingerprint}
use opthash_rs.Elastic.Schedule.{QuerySchedule, first_paper_probe_after, extend_schedule}
use opthash_rs.Elastic.Search.{FirstAfter, first_paper_probe_after-FirstAfter}
use opthash_rs.Elastic.Extend.{Extended, extend_schedule-Extended}
use opthash_rs.Elastic.Match.{Matches}
use opthash_rs.Elastic.Lookup.{find-Matches}
use opthash_rs.Elastic.Place.{place_unique}
use opthash_rs.Elastic.Placed.{Placed}
use opthash_rs.Elastic.Unique.{place_unique-Placed}
use opthash_rs.Elastic.Fresh.{fresh_live}
use opthash_rs.Elastic.Assoc.{assoc, Absent, none-Absent}
use opthash_rs.Elastic.Valid.{IsValid}
use opthash_rs.Elastic.Refine.{find_entry-assoc}
use opthash_rs.Elastic.Resized.{ResizeCases, shaped-Shared, try_resize-ResizeCases}
use opthash_rs.Elastic.InsertLaws.{InsertedValue, insert-InsertedValue}
use opthash_rs.Elastic.RemoveLaws.{RemovedValue, remove-RemovedValue}
use opthash_rs.Elastic.Empty.{IsEmpty, fresh-IsEmpty, NewCases, try_from_geometry-NewCases}

sixteen-Shared : Shared 16 sixteen
sixteen-Shared = (shaped-Shared 16 default sixteen (omega arith) sixteen_run).1

no_entries-IsEmpty : IsEmpty 16 no_entries
no_entries-IsEmpty = fresh-IsEmpty 16 sixteen default sixteen-Shared (omega arith) (omega arith)

no_entries-shaped :
    for_slots (needed_slots 16 no_entries) no_entries.reserve_fraction ≡ some (some sixteen)
unfolding fresh
no_entries-shaped = sixteen_run

abbrev after_insert : Option (Option ℕ × ElasticTable ℕ ℕ) → ElasticTable ℕ ℕ
after_insert (some (previous, t)) = t
after_insert none = no_entries

insert-InsertedValue_example :
    (previous : Option ℕ) × (t : ElasticTable ℕ ℕ) × (insert arena 16 7 70 no_entries
      ≡ some (previous, t))
    × InsertedValue 7 70 no_entries previous t
insert-InsertedValue_example =
    insert-InsertedValue arena 16 7 70 no_entries sixteen no_entries-IsEmpty.valid no_entries-shaped
      arena_run (omega arith)

one_entry-IsValid : IsValid one_entry
one_entry-IsValid =
    let (previous, t, run, i) =
      insert-InsertedValue arena 16 7 70 no_entries sixteen no_entries-IsEmpty.valid
        no_entries-shaped arena_run (omega arith) in
    let same : t ≡ one_entry = ap after_insert (sym run ∙ one_entry_run) in
    subst IsValid same i.valid

find_entry-assoc_example : find_entry one_entry 7 ≡ assoc 7 (live_entries one_entry.levels)
find_entry-assoc_example = find_entry-assoc one_entry 7 one_entry-IsValid

find-Matches_example :
    Matches one_entry.levels
      (control_fingerprint (7 % u64_mod))
      7
      where_seven.level
      where_seven.slot
      where_seven.entry
find-Matches_example = find-Matches one_entry 7 where_seven one_entry_found

remove-RemovedValue_example :
    (t : ElasticTable ℕ ℕ) × (remove arena 16 where_seven.level where_seven.slot one_entry
      ≡ some (where_seven.entry, t))
    × RemovedValue 7 one_entry t
remove-RemovedValue_example =
    remove-RemovedValue arena 16 7 one_entry where_seven sixteen one_entry-IsValid sixteen_run
      arena_run one_entry_found

try_resize-ResizeCases_example :
    ResizeCases arena 32 one_entry (try_resize_with arena 32 tombstone_cleanup one_entry)
try_resize-ResizeCases_example =
    try_resize-ResizeCases arena 32 tombstone_cleanup one_entry one_entry-IsValid (omega arith)

try_from_geometry-NewCases_example :
    (g : ElasticGeometry) × (for_slots 100 default ≡ some (some g))
    × NewCases {K = ℕ} {V = ℕ} arena 100 g (try_from_geometry arena g default)
try_from_geometry-NewCases_example =
    try_from_geometry-NewCases arena 100 default (omega arith) (omega arith)

nothing_listed : (key : ℕ) → assoc {K = ℕ} {V = ℕ} key [] ≡ none
unfolding assoc
nothing_listed key = refl

no_entries-Absent : (key : ℕ) → Absent key (live_entries no_entries.levels)
unfolding fresh
no_entries-Absent key =
    none-Absent key (live_entries no_entries.levels)
      (ap (assoc key) (fresh_live ℕ ℕ sixteen.level_capacities) ∙ nothing_listed key)

place_unique-Placed_example :
    (exceptional : Bool) × (t : ElasticTable ℕ ℕ) × (place_unique
        (record { key = 7; value = 70 })
        (7 % u64_mod)
        no_entries
      ≡ some (exceptional, t))
    × Placed (record { key = 7; value = 70 }) no_entries t
place_unique-Placed_example =
    place_unique-Placed no_entries (record { key = 7; value = 70 }) no_entries-IsEmpty.valid
      (omega (arith, no_entries-IsEmpty.count, no_entries-IsEmpty.total)) (no_entries-Absent 7)

first_paper_probe_after-FirstAfter_example :
    (probe : ℕ) × (first_paper_probe_after 2 40 ≡ some probe) × FirstAfter 1 40 probe
first_paper_probe_after-FirstAfter_example = first_paper_probe_after-FirstAfter 1 40 (omega arith)

abbrev no_schedule : QuerySchedule
no_schedule = record { probe_high_water = 0; probe_schedule = [] }

extend_schedule-Extended_example :
    (s : QuerySchedule) × (extend_schedule (8 ∷ 4 ∷ 2 ∷ 2 ∷ []) 200 no_schedule ≡ some s)
    × Extended (8 ∷ 4 ∷ 2 ∷ 2 ∷ []) 200 no_schedule s
extend_schedule-Extended_example =
    extend_schedule-Extended (8 ∷ 4 ∷ 2 ∷ 2 ∷ []) 200 no_schedule (omega arith) (omega arith)

clear-IsEmpty_example :
    IsEmpty one_entry.total_slots (clear_table one_entry)
    × IsEmpty one_entry.total_slots (wipe_all one_entry)
clear-IsEmpty_example = clear-IsEmpty one_entry one_entry-IsValid
