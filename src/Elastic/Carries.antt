-- ===== src/Elastic/Carries.antt =====
-- elastic.rs: a change of a table that leaves the lookup of what it does not touch.
use opthash_rs.Prelude.{arith, sum, ℕ, ◌≡◌, ◌∙◌, sym, ap, inl, inr, true, List, get_elem?}
use mathlib.Core.List.{Memᴰ}
use opthash_rs.Elastic.Filter.{PreparedElasticKey, prepared_key}
use opthash_rs.Elastic.Recorded.{Kept}
use opthash_rs.Elastic.Schedule.{PhiRoute}
use opthash_rs.Elastic.Modify.{get-map, map-get}
use opthash_rs.Elastic.Key.{Hashing}
use opthash_rs.Elastic.Level.{Slot, Level, capacity}
use opthash_rs.Elastic.Table.{ElasticTable, is_exceptional}
use opthash_rs.Elastic.Routed.{Reachable}
use opthash_rs.Elastic.Valid.{schedule_of, capacities, Fits, IsValid}
use opthash_rs.Elastic.Extend.{Scheduled}

pub record Carries {ℓ} {K V : Type ℓ} (t t' : ElasticTable K V) : Type ℓ where
  pub flag : is_exceptional t ≡ true → is_exceptional t' ≡ true
  pub routes : (route : PhiRoute) → Memᴰ route t.probe_schedule → Memᴰ route t'.probe_schedule
  pub kept :
      (key : PreparedElasticKey) (level : ℕ)
      → Kept key level t.membership
      → Kept key level t'.membership
  pub shape : capacities t'.levels ≡ capacities t.levels

module _ {ℓ} {K V : Type ℓ} where
  pub Reachable-Carries :
      (t t' : ElasticTable K V) (prepared : PreparedElasticKey) (level slot : ℕ)
      → Carries t t'
      → Reachable t prepared level slot
      → Reachable t' prepared level slot
  Reachable-Carries t t' prepared level slot c (inr (inl exceptional)) =
      inr (inl (c.flag exceptional))
  Reachable-Carries t t' prepared level slot c (inr (inr (route, there, named, routed))) =
      inr (inr (route, c.routes route there, named, routed))
  Reachable-Carries t t' prepared level slot c (inl (zeroth, to)) = inl (
    zeroth,
    λ first' there'.
        let known = map-get capacity t'.levels 0 there' in
        let (first, there, same) =
          get-map capacity t.levels 0
            (ap (λ (xs : List ℕ). get_elem? xs 0) (sym c.shape) ∙ known) in
        rw same at (to first there),
  )

  module _ ⦃keys : Hashing K⦄ where
    pub Fits-Carries :
        (t t' : ElasticTable K V) (level slot : ℕ) (found : Slot K V)
        → Carries t t'
        → Fits t level slot found
        → Fits t' level slot found
    Fits-Carries t t' level slot found c (inl free) = inl free
    Fits-Carries t t' level slot found c (inr live) = inr (record {
      entry = live.entry;
      stored = live.stored;
      marked = live.marked;
      kept = c.kept (prepared_key (keys.hash_one live.entry.key)) level live.kept;
      reachable =
          Reachable-Carries t t' (prepared_key (keys.hash_one live.entry.key)) level slot c
            live.reachable;
    })

-- What a change of the other fields leaves.
pub record Same {ℓ} {K V : Type ℓ} (t t' : ElasticTable K V) : Type ℓ where
  pub total : t'.total_slots ≡ t.total_slots
  pub limit : t'.max_insertions ≡ t.max_insertions
  pub reserve : t'.reserve_fraction ≡ t.reserve_fraction

module _ {ℓ} {K V : Type ℓ} ⦃keys : Hashing K⦄ where
  -- A table that keeps its slots, its filter's words, and enough of its schedule.
  pub IsValid-Carries :
      (t t' : ElasticTable K V)
      → IsValid t
      → Carries t t'
      → Same t t'
      → t'.levels ≡ t.levels
      → t'.len ≡ t.len
      → t'.membership ≡ t.membership
      → Scheduled (capacities t'.levels) (schedule_of t')
      → IsValid t'
  IsValid-Carries t t' v c s levels len membership scheduled = record {
    few = rw levels v.few;
    total = s.total ∙ v.total ∙ ap sum (sym c.shape);
    limit = omega (arith, s.limit, s.total, v.limit);
    small = omega (arith, s.total, v.small);
    exponent = rw s.reserve v.exponent;
    words = λ p. rw membership (v.words (omega (arith, s.total)));
    four = rw membership v.four;
    scheduled = scheduled;
    cells = λ l i at found there here. Fits-Carries t t' l i found c (
        v.cells l i at found (ap (λ (x : List (Level K V)). get_elem? x l) (sym levels) ∙ there)
          here);
    counted = rw levels v.counted;
    len = rw levels (len ∙ v.len);
    distinct = rw levels v.distinct;
  }
