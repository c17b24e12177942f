-- ===== src/Elastic/RemoveLaws.antt =====
-- elastic.rs: `remove` against the lookup.
use opthash_rs.Prelude.{
  ℕ, suc, ◌≤◌, ◌≡◌, refl, ◌∙◌, inl, inr, arith, Bool, Bool-cases, true, false, if◌then◌else◌,
  Option, none, some, List, ltb, ◌>>=◌,
}
use opthash_rs.Epoch.{tombstone_cleanup}
use opthash_rs.Membership.{refresh_deletes}
use opthash_rs.Elastic.Filter.{modify}
use opthash_rs.Elastic.Modify.{modify_self}
use opthash_rs.Elastic.Key.{Hashing}
use opthash_rs.Elastic.Level.{SlotEntry, get_ref, take_entry, needs_cleanup}
use opthash_rs.Elastic.Table.{ElasticTable, Hit, find, find_entry}
use opthash_rs.Elastic.Resize.{TryReserveError, live_entries}
use opthash_rs.Elastic.Delete.{
  slot_ref, extract_slot, extract_finish, refresh_membership, settle_after_deletes, remove,
}
use opthash_rs.Elastic.Lookup.{find-Matches}
use opthash_rs.Elastic.Refine.{find_entry-assoc}
use opthash_rs.Elastic.Assoc.{assoc, equivalent_right}
use opthash_rs.Elastic.Valid.{IsValid}
use opthash_rs.Elastic.Replaced.{Held, Matches-Held}
use opthash_rs.Elastic.Refresh.{refresh_membership-IsValid}
use opthash_rs.Elastic.Removed.{extracted, extract-Without, Without}
use opthash_rs.Elastic.Shape.{ElasticGeometry, for_slots}
use opthash_rs.Elastic.Resized.{Resized, resize-Resized}
use opthash_rs.Elastic.Room.{live_entries-le}
use opthash_rs.Elastic.InsertLaws.{value_for}

module _ {ℓ} {K V : Type ℓ} ⦃keys : Hashing K⦄ (build_arena : List ℕ → Option TryReserveError)
    (g : ElasticGeometry) (built : build_arena g.level_capacities ≡ none) where
  -- What follows a deletion keeps the entries.
  settle-Resized :
      (cleanup : Bool) (t : ElasticTable K V)
      → IsValid t
      → for_slots t.total_slots t.reserve_fraction ≡ some (some g)
      → (t' : ElasticTable K V) × (settle_after_deletes build_arena cleanup t ≡ some t')
        × Resized t.total_slots t t'
  unfolding settle_after_deletes refresh_membership
  settle-Resized true t v shaped =
      let few : t.len ≤ t.total_slots = omega (arith, v.len, v.total, live_entries-le t.levels) in
      resize-Resized build_arena t.total_slots tombstone_cleanup t g v shaped built few
  settle-Resized false t v shaped =
      elim (Bool-cases (ltb (refresh_deletes t.max_insertions) t.stale_membership)) [
        | inl stale ↦ (
          refresh_membership t,
          rw (stale, settle_after_deletes) refl,
          record {
            valid = refresh_membership-IsValid t v;
            total = refl;
            reserve = refl;
            count = refl;
            found = λ key. refl;
          },
        )
        | inr fresh_filter ↦ (
          t,
          rw (fresh_filter, settle_after_deletes) refl,
          record { valid = v; total = refl; reserve = refl; count = refl; found = λ key. refl },
        )
      ]

  -- A removal at a location that holds an entry.
  remove-Without :
      (group_size : ℕ) (t : ElasticTable K V) (level slot : ℕ) (entry : SlotEntry K V)
      (v : IsValid t) (h : Held t level slot entry)
      → for_slots t.total_slots t.reserve_fraction ≡ some (some g)
      → (t' : ElasticTable K V) × (remove build_arena group_size level slot t ≡ some (entry, t'))
        × Without t level slot entry v h t'
  unfolding remove slot_ref get_ref extract_finish
  remove-Without group_size t level slot entry v h shaped =
      let w = extract-Without t level slot entry v h in
      let x = extracted t level slot entry v h in
      let first = modify_self (take_entry slot) t.levels level h.there in
      let second =
        modify_self (extract_slot slot) (modify t.levels level (take_entry slot)) level first in
      let cleanup = needs_cleanup group_size (extract_slot slot (take_entry slot h.at)) in
      let (t', run, r) = settle-Resized cleanup x w.valid shaped in
      (
        t',
        rw (h.there, h.here, h.stored, second, run) refl,
        record {
          valid = r.valid;
          count = omega (arith, r.count, w.count);
          found = λ key. r.found key ∙ w.found key;
        },
      )

-- A table after the removal of a key.
pub record RemovedValue {ℓ} {K V : Type ℓ} ⦃keys : Hashing K⦄ (key : K) (t t' : ElasticTable K V)
    : Type ℓ where
  pub valid : IsValid t'
  pub count : suc t'.len ≡ t.len
  pub values : (q : K) → value_for t' q ≡ (if keys.equivalent q key then none else value_for t q)

none_value {ℓ} :
    {K V : Type ℓ} (b : Bool) (other : Option (SlotEntry K V))
    → (if b then none else other) >>= (λ e. some e.value)
      ≡ (if b then none else (other >>= λ e. some e.value))
none_value true other = refl
none_value false other = refl

-- `remove` at the location that the lookup gives for a key, in a well-formed table for whose own
-- number of slots and reserve there is a geometry with an arena that can be had, does not panic:
-- it returns the entry found and gives a well-formed table with one entry less, which has no
-- value for an equivalent key and for the others what there was, whether the removal is followed
-- by a rebuild, by a refresh of the filter or by neither.
pub remove-RemovedValue {ℓ} :
    {K V : Type ℓ} ⦃keys : Hashing K⦄ (build_arena : List ℕ → Option TryReserveError)
    (group_size : ℕ) (key : K) (t : ElasticTable K V) (hit : Hit K V) (g : ElasticGeometry)
    → IsValid t
    → for_slots t.total_slots t.reserve_fraction ≡ some (some g)
    → build_arena g.level_capacities ≡ none
    → find t key ≡ some hit
    → (t' : ElasticTable K V) × (remove build_arena group_size hit.level hit.slot t
        ≡ some (hit.entry, t'))
      × RemovedValue key t t'
unfolding find_entry
remove-RemovedValue ⦃keys⦄ build_arena group_size key t hit g v shaped built found =
    let m = find-Matches t key hit found in
    let h = Matches-Held t key hit.level hit.slot hit.entry m in
    let (t', run, w) =
      remove-Without build_arena g built group_size t hit.level hit.slot hit.entry v h shaped in
    (
      t',
      run,
      record {
        valid = w.valid;
        count = w.count;
        values = λ q.
            let now = find_entry-assoc t' q w.valid ∙ w.found q in
            let old = find_entry-assoc t q v in
            let keyed = equivalent_right q key hit.entry.key m.1 in
            rw
              (
                now,
                old,
                keyed,
                none_value (keys.equivalent q hit.entry.key) (assoc q (live_entries t.levels)),
              )
              refl;
      },
    )
