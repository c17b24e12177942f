-- ===== src/Elastic/Sample.antt =====
-- Tables for the tests: one of sixteen slots, and the same with one entry.
use opthash_rs.Membership.{word_count}
use opthash_rs.Elastic.Place.{extend_probe_schedule, place_new_entry, fill_slot, write_new_entry}
use opthash_rs.Control.{is_free, control_fingerprint}
use opthash_rs.Probe.Counter.{elastic_counter_base}
use opthash_rs.Probe.Mix.{word_from_counter_base}
use opthash_rs.Probe.Range.{unbiased_prepared_elastic_probe_index}
use opthash_rs.Probe.Phi.{elastic_phi, append_bits, append_pairs, elastic_phi_bounded}
use opthash_rs.Elastic.Schedule.{
  level_probe_limit, level_route_count, route_count_loop, bound_routes, extend_schedule,
  first_paper_probe_after, for_each_phi_route, new_routes, phi_routes, prior_high_water,
  probe_search, push_all, sort_routes,
}
use opthash_rs.Elastic.Scheduler.{new_scheduler, target}
use opthash_rs.Elastic.Choose.{
  choose_slot_for_new_key, target_vacancy, uniform_vacancy, find_vacancy, placement_of,
}
use opthash_rs.Prelude.Log.{bit_length, is_power_of_two, trailing_zeros}
use opthash_rs.Geometry.Arith.{ceil_log2, ceil_three_quarters, floor_div_pow2}
use opthash_rs.Geometry.Config.{batch_quotas, level_lengths, new}
use opthash_rs.Prelude.{
  ℕ, ◌%◌, ◌^◌, ◌≡◌, refl, ap, arith, true, Option, none, some, List, [], ◌∷◌, ◌==◌, u64_mod, leb,
  replicate,
}
use opthash_rs.Reserve.{default}
use opthash_rs.Epoch.{initial_state}
use opthash_rs.Elastic.Shape.{ElasticGeometry, for_slots, plan_geometry}
use opthash_rs.Elastic.Key.{Hashing}
use opthash_rs.Elastic.Filter.{
  cleared_word, prepared_key, record_membership, summary_bin, summary_level,
}
use opthash_rs.Elastic.Level.{empty_slots, empty_slot, control_at, new_at, get_ref}
use opthash_rs.Elastic.Table.{
  Hit, ElasticTable, find, find_by_exact_schedule, route_prepared, route_prepared_counter,
  route_prepared_counter_for_upper, vacancy, entry_if_match, find_from_first,
}
use opthash_rs.Elastic.Resize.{TryReserveError, capacity_overflow, alloc_error, fresh}
use opthash_rs.Elastic.Insert.{
  insert, grow_when_full, insert_for_vacant_entry, insert_for_vacant_entry_prepared,
  place_in_target,
}
use opthash_rs.Elastic.Arena.{Layout, Memory, storage_error}

pub same_mod : (a b : ℕ) → (a == b) ≡ true → a % u64_mod ≡ b % u64_mod
same_mod a b e = let same : a ≡ b = ground (arith, e) in ap (λ (x : ℕ). x % u64_mod) same

pub same_refl : (a : ℕ) → (a == a) ≡ true
same_refl a = ground arith

pub same_symm : (a b : ℕ) → (a == b) ≡ true → (b == a) ≡ true
same_symm a b e = ground (arith, e)

pub same_trans : (a b c : ℕ) → (a == b) ≡ true → (b == c) ≡ true → (a == c) ≡ true
same_trans a b c e f = ground (arith, e, f)

instance abbrev pub number_keys : Hashing ℕ
number_keys = record {
  equivalent = λ a b. a == b;
  hash_one = λ a. a % u64_mod;
  equivalent_refl = same_refl;
  equivalent_symm = same_symm;
  equivalent_trans = same_trans;
  hash_one-equivalent = same_mod;
  hash_one-lt = λ a. omega arith;
}

-- An allocator that grants everything, and entries of two words.
abbrev pub memory : Memory
memory = record {
  allocate = λ layout. true;
  reserve_schedule = λ n. true;
  reserve_levels = λ n. true;
}

abbrev pub entry_layout : Layout
entry_layout = record { size = 16; align = 8 }

abbrev pub arena : List ℕ → Option TryReserveError
arena capacities = storage_error memory entry_layout capacities

abbrev pub sixteen : ElasticGeometry
sixteen = record {
  total_slots = 16;
  max_insertions = 14;
  level_capacities = 8 ∷ 4 ∷ 2 ∷ 2 ∷ [];
  batch_plan = 6 ∷ 5 ∷ 3 ∷ 0 ∷ [];
}

abbrev pub no_entries : ElasticTable ℕ ℕ
no_entries = fresh sixteen default

pub sixteen_run : for_slots 16 default ≡ some (some sixteen)
unfolding for_slots plan_geometry new level_lengths ceil_log2 bit_length batch_quotas floor_div_pow2
    ceil_three_quarters
sixteen_run = refl

pub arena_run : arena sixteen.level_capacities ≡ none
unfolding storage_error
arena_run = refl

-- The table with the value 70 for the key 7.
abbrev pub one_entry : ElasticTable ℕ ℕ
one_entry = record {
  levels =
      record {
        slots =
            empty_slot
            ∷ empty_slot
            ∷ empty_slot
            ∷ empty_slot
            ∷ empty_slot
            ∷ record { control = 1; entry = some (record { key = 7; value = 70 }) }
            ∷ empty_slot
            ∷ empty_slot
            ∷ [];
        len = 1;
        tombstones = 0;
      }
      ∷ record { slots = empty_slots 4; len = 0; tombstones = 0 }
      ∷ record { slots = empty_slots 2; len = 0; tombstones = 0 }
      ∷ record { slots = empty_slots 2; len = 0; tombstones = 0 }
      ∷ [];
  len = 1;
  total_slots = 16;
  max_insertions = 14;
  reserve_fraction = default;
  scheduler = record {
    batch_ends = 6 ∷ 11 ∷ 14 ∷ 14 ∷ [];
    current_batch_index = 0;
    batch_start = 0;
    batch_end = 6;
  };
  epoch = initial_state;
  probe_high_water = 13;
  probe_schedule = [];
  membership =
      cleared_word
      ∷ record { membership = 18014398509482050; level_bins = 0 ∷ 1 ∷ 0 ∷ 0 ∷ [] }
      ∷ [];
  stale_membership = 0;
}

pub one_entry_run : insert arena 16 7 70 no_entries ≡ some (none, one_entry)
unfolding insert find find_by_exact_schedule fresh insert_for_vacant_entry
    insert_for_vacant_entry_prepared grow_when_full place_in_target choose_slot_for_new_key
    target_vacancy target new_scheduler uniform_vacancy level_probe_limit level_route_count
    route_count_loop elastic_phi append_pairs bit_length append_bits find_vacancy vacancy
    route_prepared route_prepared_counter route_prepared_counter_for_upper
    unbiased_prepared_elastic_probe_index is_power_of_two new_at control_at word_from_counter_base
    elastic_counter_base prepared_key trailing_zeros is_free placement_of elastic_phi_bounded
    place_new_entry extend_probe_schedule extend_schedule prior_high_water new_routes
    first_paper_probe_after probe_search for_each_phi_route phi_routes push_all bound_routes
    sort_routes write_new_entry fill_slot record_membership control_fingerprint replicate word_count
    summary_bin summary_level
one_entry_run = refl

-- The location of the key 7.
abbrev pub where_seven : Hit ℕ ℕ
where_seven = record { level = 0; slot = 5; entry = record { key = 7; value = 70 } }

pub one_entry_found : find one_entry 7 ≡ some where_seven
unfolding find find_by_exact_schedule find_from_first route_prepared_counter_for_upper
    unbiased_prepared_elastic_probe_index is_power_of_two entry_if_match control_at
    word_from_counter_base elastic_counter_base prepared_key trailing_zeros get_ref
    control_fingerprint
one_entry_found = refl

-- Offsets that do not fit a `u32` are refused although the memory is granted.
too_long_run : arena (2 ^ 33 ∷ []) ≡ some capacity_overflow
unfolding storage_error
too_long_run = refl

too_wide_run : arena (2 ^ 27 ∷ 2 ^ 27 ∷ []) ≡ some capacity_overflow
unfolding storage_error
too_wide_run = refl

refused_run :
    storage_error
      (record memory { allocate = λ layout. leb layout.size 4096 })
      entry_layout
      (128 ∷ 128 ∷ [])
    ≡ some alloc_error
unfolding storage_error
refused_run = refl
