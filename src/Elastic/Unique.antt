-- ===== src/Elastic/Unique.antt =====
-- elastic.rs and raw/rebuild.rs: the placement of the entries of a rebuild.
use opthash_rs.Prelude.{
  ◌+◌, ◌≤◌, ◌<◌, ◌≡◌, refl, ap, sym, ◌∙◌, inl, inr, arith, Bool, true, false, ◌||◌, if◌then◌else◌,
  some, Option-cases, List, [], ◌∷◌, ◌++◌, length,
}
use mathlib.Core.List.{append_assoc}
use opthash_rs.Elastic.Filter.{prepared_key}
use opthash_rs.Elastic.Scheduler.{BatchScheduler, target}
use opthash_rs.Elastic.Key.{Hashing}
use opthash_rs.Elastic.Level.{SlotEntry}
use opthash_rs.Elastic.Table.{ElasticTable, is_exceptional}
use opthash_rs.Elastic.Choose.{choose_slot_for_new_key}
use opthash_rs.Elastic.Chosen.{choose_slot-Chosen}
use opthash_rs.Elastic.Place.{place_unique}
use opthash_rs.Elastic.Resize.{live_entries, place_all}
use opthash_rs.Elastic.Assoc.{assoc, Absent, Distinct, Absent-append, Distinct-insert, assoc-insert}
use opthash_rs.Elastic.Valid.{IsValid}
use opthash_rs.Elastic.Carries.{Carries, Same, IsValid-Carries}
use opthash_rs.Elastic.Placed.{Placed, Placed-after, place_new_entry-Placed}
use opthash_rs.Elastic.Exceptional.{place_exceptional_entry-Placed}

module _ {ℓ} {K V : Type ℓ} ⦃keys : Hashing K⦄ where
  pub scheduler-IsValid :
      (t : ElasticTable K V) (scheduler : BatchScheduler)
      → IsValid t
      → IsValid (record t { scheduler = scheduler })
  unfolding is_exceptional
  scheduler-IsValid t scheduler v =
      let t' : ElasticTable K V = record t { scheduler = scheduler } in
      let c : Carries t t' = record {
        flag = λ e. e;
        routes = λ r m. m;
        kept = λ key l k. k;
        shape = refl;
      } in
      IsValid-Carries t t' v c (record { total = refl; limit = refl; reserve = refl }) refl refl
        refl v.scheduled

  -- A placement after the scheduler was asked.
  pub Placed-asked :
      (t : ElasticTable K V) (scheduler : BatchScheduler) (entry : SlotEntry K V)
      (t' : ElasticTable K V)
      → Placed entry (record t { scheduler = scheduler }) t'
      → Placed entry t t'
  Placed-asked t scheduler entry t' p =
      Placed-after t entry (record t { scheduler = scheduler }) t'
        (record { total = refl; limit = refl; reserve = refl }) refl refl p

  -- A table that is well-formed and has room takes an entry with a new key without a panic, and stays
  -- well-formed, with that entry put among the others.
  pub place_unique-Placed :
      (t : ElasticTable K V) (entry : SlotEntry K V)
      → IsValid t
      → t.len < t.total_slots
      → Absent entry.key (live_entries t.levels)
      → (exceptional : Bool) × (t' : ElasticTable K V) × (place_unique entry
            (keys.hash_one entry.key)
            t
          ≡ some (exceptional, t'))
        × Placed entry t t'
  unfolding place_unique
  place_unique-Placed t entry v room absent =
      let hash = keys.hash_one entry.key in
      let scheduler = (target t.len t.scheduler).1 in
      let asked : ElasticTable K V = record t { scheduler = scheduler } in
      let valid = scheduler-IsValid t scheduler v in
      elim (Option-cases (
        choose_slot_for_new_key t.reserve_fraction t.levels (prepared_key hash).route
          (target t.len t.scheduler).0)) [
            | inl nowhere ↦
                let (t', run, p) = place_exceptional_entry-Placed asked entry valid room absent in
                (
                  true,
                  t',
                  rw (nowhere, run, place_unique) refl,
                  Placed-asked t scheduler entry t' p,
                )
            | inr (placement, chosen) ↦
                let c =
                  choose_slot-Chosen t.reserve_fraction t.levels (prepared_key hash).route
                    (target t.len t.scheduler).0 placement v.few chosen in
                let (t', run, p) = place_new_entry-Placed asked entry placement valid c absent in
                (
                  false,
                  t',
                  rw (chosen, run, place_unique) refl,
                  Placed-asked t scheduler entry t' p,
                )
          ]

  -- The entries of a list moved into a table.
  pub record Moved (entries : List (SlotEntry K V)) (t t' : ElasticTable K V) : Type ℓ where
    pub valid : IsValid t'
    pub same : Same t t'
    pub count : t'.len ≡ length entries + t.len
    pub found :
        (key : K)
        → assoc key (live_entries t'.levels) ≡ assoc key (entries ++ live_entries t.levels)

  pub place_all-Moved :
      (entries : List (SlotEntry K V)) (t : ElasticTable K V)
      → IsValid t
      → length entries + t.len ≤ t.total_slots
      → Distinct (entries ++ live_entries t.levels)
      → (exceptional : Bool) × (t' : ElasticTable K V) × (place_all entries t
          ≡ some (exceptional, t'))
        × Moved entries t t'
  unfolding place_all
  place_all-Moved [] t v room distinct = (
    false,
    t,
    refl,
    record {
      valid = v;
      same = record { total = refl; limit = refl; reserve = refl };
      count = omega arith;
      found = λ key. refl;
    },
  )
  place_all-Moved (entry ∷ entries) t v room (new, distinct) =
      let (new_entries, absent) = Absent-append entry.key entries (live_entries t.levels) new in
      let (exceptional, t1, run, p) = place_unique-Placed t entry v (omega arith) absent in
      let a = p.added in
      let old : entries ++ live_entries t.levels ≡ (entries ++ a.before) ++ a.behind =
        ap (λ (x : List (SlotEntry K V)). entries ++ x) a.was
        ∙ sym (append_assoc entries a.before a.behind) in
      let now : entries ++ live_entries t1.levels ≡ (entries ++ a.before) ++ (entry ∷ a.behind) =
        ap (λ (x : List (SlotEntry K V)). entries ++ x) a.is
        ∙ sym (append_assoc entries a.before (entry ∷ a.behind)) in
      let new' = rw old at new in
      let (others, t', run', m) =
        place_all-Moved entries t1 p.valid (omega (arith, p.one, p.same.total)) (
          rw now
            (Distinct-insert entry (entries ++ a.before) a.behind (rw old at distinct) new')) in
      (
        exceptional || others,
        t',
        rw (run, run', place_all) refl,
        record {
          valid = m.valid;
          same = record {
            total = m.same.total ∙ p.same.total;
            limit = m.same.limit ∙ p.same.limit;
            reserve = m.same.reserve ∙ p.same.reserve;
          };
          count = omega (arith, m.count, p.one);
          found = λ key.
              m.found key
              ∙ ap (assoc key) now
              ∙ assoc-insert key entry (entries ++ a.before) a.behind new'
              ∙ ap
                  (λ (x : List (SlotEntry K V)).
                    if keys.equivalent key entry.key then some entry else assoc key x)
                  (sym old)
              ∙ sym (assoc-insert key entry [] (entries ++ live_entries t.levels) new);
        },
      )
