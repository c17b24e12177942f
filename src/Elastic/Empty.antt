-- ===== src/Elastic/Empty.antt =====
-- elastic.rs: a new table.
use opthash_rs.Prelude.{
  ℕ, ◌≤◌, ◌≡◌, refl, ap, sym, ◌∙◌, arith, Option, none, some, Option-cases, Result, err, inl, inr,
  List, ok, ◌>>=◌,
}
use mathlib.Core.Path.{subst}
use opthash_rs.Reserve.{ReserveFraction}
use opthash_rs.Epoch.{initial_state}
use opthash_rs.Elastic.Shape.{
  ElasticGeometry, Shared, for_slots, for_slots-Shared, max_elastic_slots,
}
use opthash_rs.Elastic.Key.{Hashing}
use opthash_rs.Elastic.Table.{ElasticTable, find_entry}
use opthash_rs.Elastic.Resize.{TryReserveError, fresh, try_from_geometry}
use opthash_rs.Elastic.Refine.{find_entry-assoc}
use opthash_rs.Elastic.Assoc.{assoc}
use opthash_rs.Elastic.Valid.{IsValid}
use opthash_rs.Elastic.Fresh.{fresh_live, fresh-IsValid}
use opthash_rs.Elastic.InsertLaws.{value_for}

-- A table without entries.
pub record IsEmpty {ℓ} {K V : Type ℓ} ⦃keys : Hashing K⦄ (slots : ℕ) (t : ElasticTable K V)
    : Type ℓ where
  pub valid : IsValid t
  pub total : t.total_slots ≡ slots
  pub count : t.len ≡ 0
  pub values : (q : K) → value_for t q ≡ none

pub fresh-IsEmpty {ℓ} :
    {K V : Type ℓ} ⦃keys : Hashing K⦄ (slots : ℕ) (g : ElasticGeometry) (reserve : ReserveFraction)
    → Shared slots g
    → slots ≤ max_elastic_slots
    → 1 ≤ reserve.exponent
    → IsEmpty slots (fresh {K = K} {V = V} g reserve)
unfolding fresh find_entry assoc
fresh-IsEmpty {K} {V} slots g reserve s small exponent =
    let v =
      fresh-IsValid {K = K} {V = V} g reserve initial_state
        (subst (λ (n : ℕ). Shared n g) (sym s.slots) s) (omega (arith, s.slots))
        (omega (arith, s.limit, s.slots)) exponent in
    record {
      valid = v;
      total = s.slots;
      count = refl;
      values = λ q.
          ap (λ o. o >>= λ entry. some entry.value)
            (find_entry-assoc (fresh {K = K} {V = V} g reserve) q v
              ∙ ap (assoc q) (fresh_live K V g.level_capacities));
    }

-- What the allocation of an empty table for a geometry returns.
pub data NewCases {ℓ} {K V : Type ℓ} ⦃keys : Hashing K⦄
    (build_arena : List ℕ → Option TryReserveError) (slots : ℕ) (g : ElasticGeometry)
    : Result (ElasticTable K V) TryReserveError → Type ℓ where
  refused :
      (error : TryReserveError)
      → build_arena g.level_capacities ≡ some error
      → NewCases build_arena slots g (err error)
  allocated :
      (t : ElasticTable K V)
      → build_arena g.level_capacities ≡ none
      → IsEmpty slots t
      → NewCases build_arena slots g (ok t)

-- The two outcomes for a shape.
shape-NewCases {ℓ} :
    {K V : Type ℓ} ⦃keys : Hashing K⦄ (build_arena : List ℕ → Option TryReserveError) (slots : ℕ)
    (reserve : ReserveFraction) (g : ElasticGeometry)
    → Shared slots g
    → slots ≤ max_elastic_slots
    → 1 ≤ reserve.exponent
    → NewCases {K = K} {V = V} build_arena slots g (try_from_geometry build_arena g reserve)
unfolding try_from_geometry
shape-NewCases build_arena slots reserve g s small exponent =
    elim (Option-cases (build_arena g.level_capacities)) [
      | inl built ↦
          rw (built, try_from_geometry)
            (allocated (fresh g reserve) built (fresh-IsEmpty slots g reserve s small exponent))
      | inr (error, refusal) ↦ rw (refusal, try_from_geometry) (refused error refusal)
    ]

-- For up to `2 ^ 32` slots and a positive reserve exponent there is a geometry, whose allocation
-- gives the error with which the arena for its level capacities is refused, or else a well-formed
-- table with that many slots, no entries, and no value for any key.
pub try_from_geometry-NewCases {ℓ} :
    {K V : Type ℓ} ⦃keys : Hashing K⦄ (build_arena : List ℕ → Option TryReserveError) (slots : ℕ)
    (reserve : ReserveFraction)
    → slots ≤ max_elastic_slots
    → 1 ≤ reserve.exponent
    → (g : ElasticGeometry) × (for_slots slots reserve ≡ some (some g))
      × NewCases {K = K} {V = V} build_arena slots g (try_from_geometry build_arena g reserve)
try_from_geometry-NewCases build_arena slots reserve small exponent =
    let (g, shaped, s) = for_slots-Shared slots reserve exponent small in
    (g, shaped, shape-NewCases build_arena slots reserve g s small exponent)
