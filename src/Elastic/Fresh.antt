-- ===== src/Elastic/Fresh.antt =====
-- elastic.rs: an empty table for a geometry, and the rebuild into it.
use opthash_rs.Prelude.{
  ℕ, zero, suc, ◌+◌, ◌≤◌, ◌<◌, ◌≡◌, refl, ap, sym, ◌∙◌, inl, arith, Bool, true, some, List, [], ◌∷◌,
  length, length-replicate, get_elem?, map, sum, replicate, All,
}
use mathlib.Core.List.{append-nil}
use mathlib.Core.Path.{subst, ap₂}
use opthash_rs.Reserve.{ReserveFraction}
use opthash_rs.Epoch.{EpochState}
use opthash_rs.Control.{is_free, is_occupied}
use opthash_rs.Membership.{word_count}
use opthash_rs.Probe.PhiValue.{phi_value}
use opthash_rs.Elastic.Filter.{cleared_word}
use opthash_rs.Elastic.Recorded.{FourBins}
use opthash_rs.Elastic.Schedule.{prior_high_water}
use opthash_rs.Elastic.Shape.{ElasticGeometry, Shared, max_elastic_slots}
use opthash_rs.Elastic.Modify.{get-map}
use opthash_rs.Elastic.Key.{Hashing}
use opthash_rs.Elastic.Level.{
  Slot, Level, empty_slot, empty_slots, new_at, slot_entries, scan_entries,
}
use opthash_rs.Elastic.Table.{ElasticTable}
use opthash_rs.Elastic.Resize.{live_entries, fresh, rebuild}
use opthash_rs.Elastic.Valid.{capacities, tombstone_count, Counted, IsValid}
use opthash_rs.Elastic.Unique.{Moved, place_all-Moved}

module _ {ℓ} (K V : Type ℓ) where
  empty_length : (n : ℕ) → length (empty_slots {K = K} {V = V} n) ≡ n
  empty_length zero = refl
  empty_length (suc n) = ap suc (empty_length n)

  empty_scan : (n : ℕ) → scan_entries (empty_slots {K = K} {V = V} n) ≡ []
  unfolding scan_entries slot_entries is_occupied
  empty_scan zero = refl
  empty_scan (suc n) = empty_scan n

  empty_tombs : (n : ℕ) → tombstone_count (empty_slots {K = K} {V = V} n) ≡ 0
  empty_tombs zero = refl
  empty_tombs (suc n) = omega (arith, empty_tombs n)

  empty_free :
      (n i : ℕ) {found : Slot K V}
      → get_elem? (empty_slots {K = K} {V = V} n) i ≡ some found
      → is_free found.control ≡ true
  unfolding is_free
  empty_free zero i e = absurd (cc e)
  empty_free (suc n) zero {found} e =
      let same : empty_slot ≡ found = cc in
      subst (λ (x : Slot K V). is_free x.control ≡ true) same refl
  empty_free (suc n) (suc i) e = empty_free n i e

  new_free :
      (n i : ℕ) {found : Slot K V}
      → get_elem? (new_at {K = K} {V = V} n).slots i ≡ some found
      → is_free found.control ≡ true
  unfolding new_at
  new_free n i e = empty_free n i e

  fresh_capacities : (caps : List ℕ) → capacities (map (new_at {K = K} {V = V}) caps) ≡ caps
  unfolding new_at
  fresh_capacities [] = refl
  fresh_capacities (n ∷ caps) =
      ap₂ (λ (x : ℕ) (xs : List ℕ). x ∷ xs) (empty_length n) (fresh_capacities caps)

  pub fresh_live : (caps : List ℕ) → live_entries (map (new_at {K = K} {V = V}) caps) ≡ []
  unfolding live_entries new_at
  fresh_live [] = refl
  fresh_live (n ∷ caps) = rw (empty_scan n) (fresh_live caps)

  fresh-Counted : (caps : List ℕ) → All Counted (map (new_at {K = K} {V = V}) caps)
  unfolding new_at
  fresh-Counted [] = tt
  fresh-Counted (n ∷ caps) =
      ((sym (ap length (empty_scan n)), sym (empty_tombs n)), fresh-Counted caps)

length-levels {ℓ} : {A : Type ℓ} (m : ℕ → A) (xs : List ℕ) → length (map m xs) ≡ length xs
length-levels m [] = refl
length-levels m (x ∷ xs) = ap suc (length-levels m xs)

FourBins-fresh : (n : ℕ) → FourBins (replicate n cleared_word)
unfolding replicate
FourBins-fresh zero = tt
FourBins-fresh (suc n) = (refl, FourBins-fresh n)

pub no_position : (i q : ℕ) → 0 < i → 0 < phi_value i q
unfolding phi_value
no_position i q h = omega arith

pub no_prior : prior_high_water 0 ≡ 0
unfolding prior_high_water
no_prior = refl

some_words : (slots : ℕ) → 0 < slots → 0 < word_count slots
unfolding word_count
some_words slots h = omega arith

module _ {ℓ} {K V : Type ℓ} ⦃keys : Hashing K⦄ (g : ElasticGeometry)
    (reserve : ReserveFraction) where
  pub fresh-IsValid :
      (epoch : EpochState)
      → Shared g.total_slots g
      → g.total_slots ≤ max_elastic_slots
      → g.max_insertions ≤ g.total_slots
      → 1 ≤ reserve.exponent
      → IsValid (record (fresh {K = K} {V = V} g reserve) { epoch = epoch })
  unfolding fresh
  fresh-IsValid epoch s small limit exponent =
      let caps = g.level_capacities in
      let total = s.levels in
      let shape = fresh_capacities K V caps in
      record {
        few = omega (arith, length-levels (new_at {K = K} {V = V}) caps, s.few);
        total = rw shape (sym s.levels);
        limit = limit;
        small = small;
        exponent = exponent;
        words = λ p.
            omega
              (arith, some_words (sum caps), length-replicate (word_count (sum caps)) cleared_word);
        four = FourBins-fresh (word_count (sum caps));
        scheduled = λ level q upper there pos routed low.
            absurd (omega (arith, no_position (level + 1) q (omega arith), no_prior));
        cells = λ l i at found there here.
            let (n, _, same) = get-map (new_at {K = K} {V = V}) caps l there in
            inl (new_free K V n i (ap (λ (x : Level K V). get_elem? x.slots i) same ∙ here));
        counted = fresh-Counted K V caps;
        len = sym (ap length (fresh_live K V caps));
        distinct = rw (fresh_live K V caps) tt;
      }

  -- A rebuild moves every entry, without a panic when the new geometry has room.
  pub rebuild-Moved :
      (t : ElasticTable K V)
      → IsValid t
      → reserve ≡ t.reserve_fraction
      → Shared g.total_slots g
      → g.total_slots ≤ max_elastic_slots
      → g.max_insertions ≤ g.total_slots
      → t.len ≤ g.total_slots
      → (exceptional : Bool) × (t' : ElasticTable K V) × (rebuild t g ≡ some (exceptional, t'))
        × Moved
            (live_entries t.levels)
            (record (fresh {K = K} {V = V} g reserve) { epoch = t.epoch })
            t'
  unfolding rebuild fresh
  rebuild-Moved t v same s small limit room =
      let start : ElasticTable K V = record (fresh {K = K} {V = V} g reserve) { epoch = t.epoch } in
      let empty = fresh_live K V g.level_capacities in
      let (exceptional, t', run, m) =
        place_all-Moved (live_entries t.levels) start
          (fresh-IsValid t.epoch s small limit (rw same v.exponent)) (omega (arith, v.len))
          (rw (empty, append-nil (live_entries t.levels)) v.distinct) in
      (exceptional, t', rw (sym same) run, m)
