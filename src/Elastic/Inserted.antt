-- ===== src/Elastic/Inserted.antt =====
-- elastic.rs: a table after an insertion.
use opthash_rs.Prelude.{
  ℕ, ◌*◌, ◌≤◌, ◌<◌, ◌≡◌, refl, inl, inr, arith, Bool-cases, if◌then◌else◌, Option, none, some,
  Option-cases, List, leb, leb→lt, ◌==◌, saturating,
}
use opthash_rs.Epoch.{growth, placement_recovery, note_placement_recovery}
use opthash_rs.Elastic.Filter.{prepared_key}
use opthash_rs.Elastic.Scheduler.{BatchTarget}
use opthash_rs.Elastic.Shape.{ElasticGeometry, for_slots}
use opthash_rs.Elastic.Key.{Hashing}
use opthash_rs.Elastic.Level.{SlotEntry}
use opthash_rs.Elastic.Table.{ElasticTable, is_exceptional}
use opthash_rs.Elastic.Choose.{choose_slot_on_other_targets}
use opthash_rs.Elastic.Chosen.{choose_other-Chosen}
use opthash_rs.Elastic.Place.{place_exceptional_entry}
use opthash_rs.Elastic.Resize.{TryReserveError, live_entries}
use opthash_rs.Elastic.Insert.{
  place_after_target_failure, grow_when_full, insert_for_vacant_entry_prepared,
  insert_for_vacant_entry,
}
use opthash_rs.Elastic.Assoc.{Absent}
use opthash_rs.Elastic.Valid.{IsValid}
use opthash_rs.Elastic.Placed.{place_new_entry-Placed}
use opthash_rs.Elastic.Exceptional.{place_exceptional_entry-Placed}
use opthash_rs.Elastic.Room.{live_entries-le}
use opthash_rs.Elastic.Entered.{
  Enters, hash, key_fingerprint, Placed-Entered, Resized-Absent, Resized-Entered,
  place_in_target-Enters,
}
use opthash_rs.Elastic.Resized.{Resized, resize-Resized, epoch-IsValid}

-- The slots of a table once it can take an entry.
abbrev pub needed_slots {ℓ} : {K V : Type ℓ} → ℕ → ElasticTable K V → ℕ
needed_slots initial_capacity t =
    if leb t.max_insertions t.len
    then (if t.total_slots == 0 then initial_capacity else saturating (t.total_slots * 2))
    else t.total_slots

module _ {ℓ} {K V : Type ℓ} ⦃keys : Hashing K⦄ (build_arena : List ℕ → Option TryReserveError)
    (g : ElasticGeometry) (built : build_arena g.level_capacities ≡ none)
    (entry : SlotEntry K V) where
  exceptional-Enters :
      (t : ElasticTable K V)
      → IsValid t
      → t.len < t.total_slots
      → Absent entry.key (live_entries t.levels)
      → Enters entry t
          (place_exceptional_entry entry (prepared_key (hash entry)) (key_fingerprint entry) t)
  exceptional-Enters t v room absent =
      let (t', run, p) = place_exceptional_entry-Placed t entry v room absent in
      (t', run, Placed-Entered entry t t' absent p)

  -- The table keeps the entry out of the failed target, and the levels have room.
  failure-Enters :
      (t : ElasticTable K V) (failed : BatchTarget)
      → IsValid t
      → for_slots t.total_slots t.reserve_fraction ≡ some (some g)
      → t.len < t.total_slots
      → Absent entry.key (live_entries t.levels)
      → Enters entry t (
          place_after_target_failure build_arena entry
            (prepared_key (hash entry))
            (key_fingerprint entry)
            failed
            t)
  unfolding place_after_target_failure
  failure-Enters t failed v shaped room absent =
      elim (Option-cases (
        choose_slot_on_other_targets t.reserve_fraction t.levels (prepared_key (hash entry)).route
          failed)) [
            | inr (placement, chosen) ↦
                let c =
                  choose_other-Chosen t.reserve_fraction t.levels (prepared_key (hash entry)).route
                    failed placement v.few chosen in
                let (t', run, p) = place_new_entry-Placed t entry placement v c absent in
                (
                  t',
                  rw (chosen, place_after_target_failure) run,
                  Placed-Entered entry t t' absent p,
                )
            | inl nowhere ↦ elim (Bool-cases (is_exceptional t)) [
              | inl on ↦
                  let noted : ElasticTable K V = record t {
                    epoch = note_placement_recovery t.epoch;
                  } in
                  let (t', run, e) =
                    exceptional-Enters noted (epoch-IsValid t (note_placement_recovery t.epoch) v)
                      room absent in
                  (
                    t',
                    rw (nowhere, on, place_after_target_failure) run,
                    record { valid = e.valid; count = e.count; found = e.found },
                  )
              | inr off ↦
                  let (t1, resized, r) =
                    resize-Resized build_arena t.total_slots placement_recovery t g v shaped built
                      (omega arith) in
                  let absent1 = Resized-Absent entry t.total_slots t t1 r absent in
                  let (t', run, e) =
                    place_in_target-Enters entry t1
                      (λ batch_target.
                        place_exceptional_entry entry (prepared_key (hash entry))
                          (key_fingerprint entry))
                      r.valid absent1
                      (λ failed' scheduler valid.
                        let (t2, run2, e2) =
                          exceptional-Enters (record t1 { scheduler = scheduler }) valid
                            (omega (arith, r.count, r.total)) absent1 in
                        (
                          t2,
                          run2,
                          record { valid = e2.valid; count = e2.count; found = e2.found },
                        )) in
                  (
                    t',
                    rw (nowhere, off, resized, place_after_target_failure) run,
                    Resized-Entered entry t.total_slots t t1 t' r e,
                  )
            ]
          ]

  -- A table with room, after growth if it was full.
  record Grown (slots : ℕ) (t t' : ElasticTable K V) : Type ℓ where
    resized : Resized slots t t'
    room : t'.len < t'.total_slots

  grow-Grown :
      (initial_capacity : ℕ) (t : ElasticTable K V)
      → IsValid t
      → for_slots (needed_slots initial_capacity t) t.reserve_fraction ≡ some (some g)
      → 0 < initial_capacity
      → (t' : ElasticTable K V) × (grow_when_full build_arena initial_capacity t ≡ some t')
        × Grown (needed_slots initial_capacity t) t t'
  unfolding grow_when_full
  grow-Grown initial_capacity t v shaped start =
      let few : t.len ≤ t.total_slots = omega (arith, v.len, v.total, live_entries-le t.levels) in
      elim (Bool-cases (leb t.max_insertions t.len)) [
        | inr spare ↦
            let less = leb→lt _ _ spare in
            (
              t,
              rw (spare, grow_when_full) refl,
              record {
                resized = record {
                  valid = v;
                  total = rw spare refl;
                  reserve = refl;
                  count = refl;
                  found = λ key. refl;
                };
                room = omega (arith, v.limit);
              },
            )
        | inl full ↦
            let slots =
              if t.total_slots == 0 then initial_capacity else saturating (t.total_slots * 2) in
            let small = v.small in
            let more : t.len < slots = ground arith in
            let (t', run, r) =
              resize-Resized build_arena slots growth t g v (rw full at shaped) built
                (omega arith) in
            (
              t',
              rw (full, grow_when_full) run,
              record { resized = rw full r; room = omega (arith, r.count, r.total) },
            )
      ]

  -- An entry with a new key is inserted without a panic.
  pub insert_for_vacant-Enters :
      (initial_capacity : ℕ) (t : ElasticTable K V)
      → IsValid t
      → for_slots (needed_slots initial_capacity t) t.reserve_fraction ≡ some (some g)
      → 0 < initial_capacity
      → Absent entry.key (live_entries t.levels)
      → Enters entry t (insert_for_vacant_entry build_arena initial_capacity entry (hash entry) t)
  unfolding insert_for_vacant_entry insert_for_vacant_entry_prepared
  insert_for_vacant-Enters initial_capacity t v shaped start absent =
      let (t1, grown, space) = grow-Grown initial_capacity t v shaped start in
      let slots = needed_slots initial_capacity t in
      let r = space.resized in
      let shaped1 : for_slots t1.total_slots t1.reserve_fraction ≡ some (some g) =
        rw (r.total, r.reserve) shaped in
      let absent1 = Resized-Absent entry slots t t1 r absent in
      let (t', run, e) =
        place_in_target-Enters entry t1
          (place_after_target_failure build_arena entry (prepared_key (hash entry))
            (key_fingerprint entry))
          r.valid absent1
          (λ failed scheduler valid.
            let (t2, run2, e2) =
              failure-Enters (record t1 { scheduler = scheduler }) failed valid shaped1 space.room
                absent1 in
            (t2, run2, record { valid = e2.valid; count = e2.count; found = e2.found })) in
      (t', rw grown run, Resized-Entered entry slots t t1 t' r e)
