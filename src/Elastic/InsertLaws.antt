-- ===== src/Elastic/InsertLaws.antt =====
-- elastic.rs: `insert` against the lookup.
use opthash_rs.Prelude.{
  ℕ, suc, ◌<◌, ◌≡◌, refl, sym, ◌∙◌, inl, inr, Bool, true, false, if◌then◌else◌, Option, none, some,
  Option-cases, List, ◌>>=◌,
}
use opthash_rs.Elastic.Key.{Hashing}
use opthash_rs.Elastic.Level.{SlotEntry}
use opthash_rs.Elastic.Table.{ElasticTable, find, find_entry}
use opthash_rs.Elastic.Resize.{TryReserveError, live_entries}
use opthash_rs.Elastic.Delete.{replace_value}
use opthash_rs.Elastic.Insert.{insert}
use opthash_rs.Elastic.Lookup.{find-Matches}
use opthash_rs.Elastic.Refine.{find_entry-assoc}
use opthash_rs.Elastic.Assoc.{assoc, none-Absent, equivalent_right}
use opthash_rs.Elastic.Valid.{IsValid}
use opthash_rs.Elastic.Replaced.{Matches-Held, replace_value-Replaced}
use opthash_rs.Elastic.Shape.{ElasticGeometry, for_slots}
use opthash_rs.Elastic.Inserted.{needed_slots, insert_for_vacant-Enters}

-- The value that a table has for a key.
abbrev pub value_for {ℓ} : {K V : Type ℓ} ⦃keys : Hashing K⦄ → ElasticTable K V → K → Option V
value_for t key = find_entry t key >>= λ entry. some entry.value

value_of {ℓ} : {K V : Type ℓ} → Option (SlotEntry K V) → Option V
value_of o = o >>= λ entry. some entry.value

-- A table after `insert` of a value for a key, and the value that it returned.
pub record InsertedValue {ℓ} {K V : Type ℓ} ⦃keys : Hashing K⦄ (key : K) (value : V)
    (t : ElasticTable K V) (previous : Option V) (t' : ElasticTable K V) : Type ℓ where
  pub valid : IsValid t'
  pub returned : previous ≡ value_for t key
  pub count : t'.len ≡ (elim previous [ none ↦ suc t.len | some old ↦ t.len ])
  pub values :
      (q : K) → value_for t' q ≡ (if keys.equivalent q key then some value else value_for t q)

if_value {ℓ} :
    {K V : Type ℓ} (b : Bool) (entry : SlotEntry K V) (other : Option (SlotEntry K V))
    → (if b then some entry else other) >>= (λ e. some e.value)
      ≡ (if b then some entry.value else (other >>= λ e. some e.value))
if_value true entry other = refl
if_value false entry other = refl

module _ {ℓ} {K V : Type ℓ} ⦃keys : Hashing K⦄ (key : K) (value : V) (t t' : ElasticTable K V)
    (v : IsValid t) (v' : IsValid t') where
  -- The values, from the entries of the two lists.
  values_from :
      (entry : SlotEntry K V)
      → keys.equivalent key entry.key ≡ true
      → entry.value ≡ value
      → ((q : K)
          → assoc q (live_entries t'.levels)
            ≡ (if keys.equivalent q entry.key then some entry else assoc q (live_entries t.levels)))
      → (q : K) → value_for t' q ≡ (if keys.equivalent q key then some value else value_for t q)
  values_from entry same valued found q =
      let now = find_entry-assoc t' q v' ∙ found q in
      let old = find_entry-assoc t q v in
      let keyed = equivalent_right q key entry.key same in
      rw
        (
          now,
          old,
          keyed,
          if_value (keys.equivalent q entry.key) entry (assoc q (live_entries t.levels)),
          valued,
        )
        refl

-- Let `n` be the slots that a well-formed table needs to take an entry: as many as it has, or if its
-- budget is used up twice as many, or the positive initial capacity if it has none. If there is a
-- geometry for `n` slots and the arena for its level capacities can be had, then `insert` does not
-- panic: it returns the value that the table had for the key, if any, and gives a well-formed
-- table that has the new value for every equivalent key and for the others what it had; the
-- length grows by one exactly if there was no value.
pub insert-InsertedValue {ℓ} :
    {K V : Type ℓ} ⦃keys : Hashing K⦄ (build_arena : List ℕ → Option TryReserveError)
    (initial_capacity : ℕ) (key : K) (value : V) (t : ElasticTable K V) (g : ElasticGeometry)
    → IsValid t
    → for_slots (needed_slots initial_capacity t) t.reserve_fraction ≡ some (some g)
    → build_arena g.level_capacities ≡ none
    → 0 < initial_capacity
    → (previous : Option V) × (t' : ElasticTable K V) × (insert build_arena initial_capacity key
          value t
        ≡ some (previous, t'))
      × InsertedValue key value t previous t'
unfolding insert find_entry replace_value
insert-InsertedValue ⦃keys⦄ build_arena initial_capacity key value t g v shaped built start =
    elim (Option-cases (find t key)) [
      | inr (hit, found) ↦
          let m = find-Matches t key hit found in
          let h = Matches-Held t key hit.level hit.slot hit.entry m in
          let r = replace_value-Replaced t hit value v h in
          let t' = (replace_value hit value t).1 in
          (
            some hit.entry.value,
            t',
            rw (found, insert) refl,
            record {
              valid = r.valid;
              returned = rw found refl;
              count = r.count;
              values =
                  values_from key value t t' v r.valid
                    (record { key = hit.entry.key; value = value }) m.1 refl r.found;
            },
          )
      | inl nothing ↦
          let missing : find_entry t key ≡ none = rw nothing refl in
          let absent =
            none-Absent key (live_entries t.levels) (sym (find_entry-assoc t key v) ∙ missing) in
          let entry : SlotEntry _ _ = record { key = key; value = value } in
          let (t', run, e) =
            insert_for_vacant-Enters build_arena g built entry initial_capacity t v shaped start
              absent in
          (
            none,
            t',
            rw (nothing, run, insert) refl,
            record {
              valid = e.valid;
              returned = rw nothing refl;
              count = e.count;
              values =
                  values_from key value t t' v e.valid entry (keys.equivalent_refl key) refl
                    e.found;
            },
          )
    ]
