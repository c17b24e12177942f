-- ===== src/Lib.antt =====
-- opthash: open-addressing hash maps after the Elastic and the Funnel construction.
--
-- The program has a layer of exact arithmetic, which plans a table's shape, and two table backends
-- that follow the plan. A map asks `src/capacity.rs` for a slot count, `src/exact/geometry.rs` for
-- the level lengths and insertion quotas (Elastic) or for the bucket counts and the special array
-- (Funnel), and walks the probes that `src/exact/probe.rs` draws from a key's hash. A filter beside
-- the slots (`src/membership.rs`, `src/elastic.rs`) lets a lookup skip the walk, and a lifecycle word
-- (`src/epoch.rs`) counts what happened to the table. The reserve fraction `1 / 2^d` of
-- `src/reserve.rs` is a parameter of all of them.
--
-- The files:
--   Prelude     tests on numbers, lists, results, machine words, bits and logarithms
--   Geometry    `src/exact/geometry.rs`. Arith has the rounding formulas, Config the Elastic plan
--               with its iterators `LevelLengths` and `BatchQuotas`, Paths the path sums and the
--               iterator `FunnelBucketCounts`, Funnel the search behind `funnel_plan`; Rounding,
--               Levels, Quotas, Partition, FirstCount, Search and Layout are about what they return
--   Reserve     `src/reserve.rs`; an `f64` is the number of its bits. Float has the round trips
--   Capacity    `src/capacity.rs`; Laws has its theorems
--   Epoch       `src/epoch.rs`; View and Refine relate the packed word to separate counters
--   Probe       `src/exact/probe.rs`. Counter and Packing are the packed counters, Mix and
--               Permutation the keyed mixers, Range the reduction to an index, with Reduced,
--               Unbiased, Shortcut and FunnelRange about it, Phi the position code of the query
--               order and the probe budget, with PhiValue, PhiOrder, PhiQuery, PhiBounded and Budget
--               about them
--   Membership  `src/membership.rs`: the filter's words and a key's bits
--   Control     `src/raw/control.rs`: the control byte of a slot
--   Elastic     `src/elastic.rs`. Filter has the records and reads of the membership filter,
--               Modify, Mask and Recorded are about both; Scheduler and Batch are `BatchScheduler`,
--               Shape is `ElasticGeometry`. Key is what a table asks of keys and hasher, Arena the
--               storage that a table asks for (with `src/raw/arena.rs` and `src/membership.rs`),
--               Level a sub-array with the slot accesses of `src/raw/arena.rs`, Schedule the lookup
--               schedule (Search, Visits, Pushed, Bounds and Extend are about it), Table the fields
--               and the lookup (Match, Lookup, Routed, Walk), Choose the choice of a slot (Reached,
--               Chosen), Place the writes, Resize construction and resize with
--               `src/raw/rebuild.rs`, Delete and Insert the rest. Entries and Assoc are the list of
--               live entries, the view of a table as a finite map; Valid is the invariant, with
--               Carries, Fill, Write, Placed, Vacant, Exceptional and Unique for a placement,
--               Fresh, Resized, Room and Empty for new tables, Entered, Inserted, Change, Replaced
--               and InsertLaws for `insert`, Refresh, Removed and RemoveLaws for `remove`, Cleared
--               for `clear`, and Refine for the lookup
-- The Tests modules have runs, and one instance of each result; Elastic/Sample has their tables.
--
-- Correspondence: a struct is a record, an enum a data type, an operation a function of the same
-- name. A method that changes its receiver returns the new one. Words are numbers below the power of
-- two of their type, and wrapping, saturating and checked operations are written out. An iterator is
-- its state and its `next`. A `usize` has 64 bits.
--
-- Fuel: `capacity_for` runs on 65 steps, one for each doubling below `2 ^ 64` and the last test.
-- `bit_length` and `trailing_zeros` recurse on their own argument. Euclid's loop has the right number
-- as fuel, which falls in each step. The two binary searches of `nearest_feasible_first_count` have
-- 64 steps, which halve an interval of `usize`. That of `first_paper_probe_after` has 13 steps for
-- 4096 probes. The scans and the schedule's loops recurse on what is left to visit.
--
-- A table's slots are lists in their levels, with a control byte and the entry written; the code's
-- pointers into one arena are not in the model, and where an `expect`, an `assert` or an abort
-- would stop the code the model has no result. `build_arena` is an argument that tells whether the
-- storage for given level capacities can be had, and with which error not; Arena has the function
-- of the code that decides it, `storage_error`, which refuses offsets beyond a `u32`, too, and
-- leaves to its own argument what the allocators grant. A location carries the entry found there. A
-- lookup takes a key of the table's own type, and an operation computes the hash that the code's
-- callers pass to it.
--
-- Not modelled: the Funnel table's slots, `clone_table`, the iterators and the group scans of control
-- bytes, the maps and sets over the tables, the pointers into the arena, its drops and the restoration
-- of a table after a panic, the vector instructions, the Python bindings, `funnel_minimum_slots`, and
-- code that is compiled for tests only. The keys' equality and hash are a parameter with the laws that
-- the documentation of `Eq` and `Hash` asks for, and so are `GROUP_SIZE` and `INITIAL_CAPACITY`, which
-- depend on the platform.
mod Prelude
pub mod Geometry
pub mod Reserve
pub mod Capacity
pub mod Epoch
pub mod Probe
pub mod Membership
pub mod Elastic
pub mod Control
