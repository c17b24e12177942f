-- ===== src/Elastic/Entered.antt =====
-- elastic.rs: a table with one entry more.
use opthash_rs.Prelude.{
  ℕ, suc, ◌≡◌, ap, sym, ◌∙◌, inl, inr, arith, if◌then◌else◌, Option, some, Option-cases, List,
}
use opthash_rs.Control.{control_fingerprint}
use opthash_rs.Elastic.Filter.{prepared_key}
use opthash_rs.Elastic.Scheduler.{BatchTarget, BatchScheduler, target}
use opthash_rs.Elastic.Key.{Hashing}
use opthash_rs.Elastic.Level.{SlotEntry}
use opthash_rs.Elastic.Table.{ElasticTable}
use opthash_rs.Elastic.Choose.{choose_slot_for_new_key}
use opthash_rs.Elastic.Chosen.{choose_slot-Chosen}
use opthash_rs.Elastic.Resize.{live_entries}
use opthash_rs.Elastic.Insert.{place_in_target}
use opthash_rs.Elastic.Assoc.{assoc, Absent, assoc-Absent, none-Absent, assoc-insert}
use opthash_rs.Elastic.Valid.{IsValid}
use opthash_rs.Elastic.Placed.{Placed, place_new_entry-Placed}
use opthash_rs.Elastic.Unique.{scheduler-IsValid}
use opthash_rs.Elastic.Resized.{Resized}

module _ {ℓ} {K V : Type ℓ} ⦃keys : Hashing K⦄ (entry : SlotEntry K V) where
  abbrev pub hash : ℕ
  hash = keys.hash_one entry.key

  abbrev pub key_fingerprint : ℕ
  key_fingerprint = control_fingerprint hash

  -- A table with one entry more than another, and that for a new key.
  pub record Entered (t t' : ElasticTable K V) : Type ℓ where
    pub valid : IsValid t'
    pub count : t'.len ≡ suc t.len
    pub found :
        (key : K)
        → assoc key (live_entries t'.levels) ≡ (
            if keys.equivalent key entry.key then some entry else assoc key (live_entries t.levels))

  abbrev pub Enters : ElasticTable K V → Option (ElasticTable K V) → Type ℓ
  Enters t result = (t' : ElasticTable K V) × (result ≡ some t') × Entered t t'

  pub Placed-Entered :
      (t t' : ElasticTable K V)
      → Absent entry.key (live_entries t.levels)
      → Placed entry t t'
      → Entered t t'
  Placed-Entered t t' absent p =
      let a = p.added in
      record {
        valid = p.valid;
        count = p.one;
        found = λ key.
            ap (assoc key) a.is
            ∙ assoc-insert key entry a.before a.behind (rw a.was at absent)
            ∙ ap
                (λ (x : List (SlotEntry K V)).
                  if keys.equivalent key entry.key then some entry else assoc key x)
                (sym a.was);
      }

  pub Resized-Absent :
      (slots : ℕ) (t t' : ElasticTable K V)
      → Resized slots t t'
      → Absent entry.key (live_entries t.levels)
      → Absent entry.key (live_entries t'.levels)
  Resized-Absent slots t t' r absent =
      none-Absent entry.key (live_entries t'.levels)
        (r.found entry.key ∙ assoc-Absent entry.key (live_entries t.levels) absent)

  pub Resized-Entered :
      (slots : ℕ) (t t1 t' : ElasticTable K V) → Resized slots t t1 → Entered t1 t' → Entered t t'
  Resized-Entered slots t t1 t' r e = record {
    valid = e.valid;
    count = omega (arith, e.count, r.count);
    found = λ key.
        e.found key
        ∙ ap
            (λ (x : Option (SlotEntry K V)).
              if keys.equivalent key entry.key then some entry else x)
            (r.found key);
  }

  -- The target's own placement, or what follows its failure.
  pub place_in_target-Enters :
      (t : ElasticTable K V)
      (on_failure : BatchTarget → ElasticTable K V → Option (ElasticTable K V))
      → IsValid t
      → Absent entry.key (live_entries t.levels)
      → ((failed : BatchTarget) (scheduler : BatchScheduler)
          → IsValid (record t { scheduler = scheduler })
          → Enters t (on_failure failed (record t { scheduler = scheduler })))
      → Enters t (place_in_target entry (prepared_key hash) key_fingerprint on_failure t)
  unfolding place_in_target
  place_in_target-Enters t on_failure v absent fails =
      let batch_target = (target t.len t.scheduler).0 in
      let scheduler = (target t.len t.scheduler).1 in
      let asked : ElasticTable K V = record t { scheduler = scheduler } in
      let valid = scheduler-IsValid t scheduler v in
      elim (Option-cases (
        choose_slot_for_new_key t.reserve_fraction t.levels (prepared_key hash).route
          batch_target)) [
            | inl nowhere ↦
                let (t', run, e) = fails batch_target scheduler valid in
                (t', rw (nowhere, place_in_target) run, e)
            | inr (placement, chosen) ↦
                let c =
                  choose_slot-Chosen t.reserve_fraction t.levels (prepared_key hash).route
                    batch_target placement v.few chosen in
                let (t', run, p) = place_new_entry-Placed asked entry placement valid c absent in
                let e = Placed-Entered asked t' absent p in
                (
                  t',
                  rw (chosen, place_in_target) run,
                  record { valid = e.valid; count = e.count; found = e.found },
                )
          ]
