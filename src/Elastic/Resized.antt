-- ===== src/Elastic/Resized.antt =====
-- elastic.rs: a table after a resize.
use opthash_rs.Prelude.{
  ℕ, ◌≤◌, ◌<◌, ◌≡◌, refl, ap, sym, ◌∙◌, inl, inr, arith, true, ◌||◌, Option, none, some, List, ◌++◌,
  Result, ok, err, ltb, ltb→lt, ltb→le, Bool-cases, Option-cases,
}
use mathlib.Core.List.{append-nil}
use mathlib.Core.Path.{subst}
use opthash_rs.Reserve.{ReserveFraction}
use opthash_rs.Epoch.{EpochTransition, EpochState, start_epoch}
use opthash_rs.Elastic.Shape.{
  ElasticGeometry, Shared, for_slots, for_slots-Shared, max_elastic_slots,
}
use opthash_rs.Elastic.Key.{Hashing}
use opthash_rs.Elastic.Level.{SlotEntry}
use opthash_rs.Elastic.Table.{ElasticTable, is_exceptional}
use opthash_rs.Elastic.Resize.{
  TryReserveError, capacity_overflow, is_recovery, live_entries, fresh, try_resize_to,
  try_resize_with, resize_with_transition,
}
use opthash_rs.Elastic.Assoc.{assoc}
use opthash_rs.Elastic.Valid.{IsValid}
use opthash_rs.Elastic.Carries.{Carries, IsValid-Carries}
use opthash_rs.Elastic.Fresh.{fresh_live, rebuild-Moved}

for_slots-over :
    (slots : ℕ) (reserve : ReserveFraction)
    → ltb max_elastic_slots slots ≡ true
    → for_slots slots reserve ≡ some none
unfolding for_slots
for_slots-over slots reserve over = rw over refl

-- A shape that is given covers the slots it was asked for.
pub shaped-Shared :
    (slots : ℕ) (reserve : ReserveFraction) (g : ElasticGeometry)
    → 1 ≤ reserve.exponent
    → for_slots slots reserve ≡ some (some g)
    → (slots ≤ max_elastic_slots) × Shared slots g
shaped-Shared slots reserve g exponent shaped = elim (Bool-cases (ltb max_elastic_slots slots)) [
  | inl over ↦ absurd (cc (for_slots-over slots reserve over, shaped))
  | inr within ↦
      let small = ltb→le _ _ within in
      let (g', shaped', s) = for_slots-Shared slots reserve exponent small in
      let same : g' ≡ g = cc in (small, subst (Shared slots) same s)
]

module _ {ℓ} {K V : Type ℓ} ⦃keys : Hashing K⦄ where
  -- A table of a number of slots with the entries of another.
  pub record Resized (slots : ℕ) (t t' : ElasticTable K V) : Type ℓ where
    pub valid : IsValid t'
    pub total : t'.total_slots ≡ slots
    pub reserve : t'.reserve_fraction ≡ t.reserve_fraction
    pub count : t'.len ≡ t.len
    pub found : (key : K) → assoc key (live_entries t'.levels) ≡ assoc key (live_entries t.levels)

  pub epoch-IsValid :
      (t : ElasticTable K V) (epoch : EpochState) → IsValid t → IsValid (record t { epoch = epoch })
  unfolding is_exceptional
  epoch-IsValid t epoch v =
      let t' : ElasticTable K V = record t { epoch = epoch } in
      let c : Carries t t' = record {
        flag = λ e. e;
        routes = λ r m. m;
        kept = λ key l k. k;
        shape = refl;
      } in
      IsValid-Carries t t' v c (record { total = refl; limit = refl; reserve = refl }) refl refl
        refl v.scheduled

  try_resize_to-Resized :
      (build_arena : List ℕ → Option TryReserveError) (slots : ℕ) (g : ElasticGeometry)
      (transition : EpochTransition) (t : ElasticTable K V)
      → IsValid t
      → Shared slots g
      → slots ≤ max_elastic_slots
      → t.len ≤ slots
      → build_arena g.level_capacities ≡ none
      → (t' : ElasticTable K V) × (try_resize_to build_arena g transition t ≡ some (ok t'))
        × Resized slots t t'
  unfolding try_resize_to fresh
  try_resize_to-Resized build_arena slots g transition t v s small room built =
      let named = s.slots in
      let s' = subst (λ (n : ℕ). Shared n g) (sym named) s in
      let (exceptional, moved, run, m) =
        rebuild-Moved g t.reserve_fraction t v refl s' (omega (arith, s.slots))
          (omega (arith, s.limit, s.slots)) (omega (arith, s.slots)) in
      let epoch = start_epoch transition (is_recovery transition || exceptional) t.epoch in
      let none_yet = fresh_live K V g.level_capacities in
      (
        record moved { epoch = epoch },
        rw (built, run, try_resize_to) refl,
        record {
          valid = epoch-IsValid moved epoch m.valid;
          total = m.same.total ∙ named;
          reserve = m.same.reserve;
          count = omega (arith, m.count, v.len);
          found = λ key.
              m.found key
              ∙ ap (λ (x : List (SlotEntry K V)). assoc key (live_entries t.levels ++ x)) none_yet
              ∙ ap (assoc key) (append-nil (live_entries t.levels));
        },
      )

  try_resize_to-refused :
      (build_arena : List ℕ → Option TryReserveError) (g : ElasticGeometry)
      (transition : EpochTransition) (t : ElasticTable K V) {error : TryReserveError}
      → build_arena g.level_capacities ≡ some error
      → try_resize_to build_arena g transition t ≡ some (err error)
  unfolding try_resize_to
  try_resize_to-refused build_arena g transition t refusal = rw (refusal, try_resize_to) refl

  -- What a resize of a well-formed table to at least as many slots as it has entries returns.
  pub data ResizeCases (build_arena : List ℕ → Option TryReserveError) (slots : ℕ)
      (t : ElasticTable K V) : Option (Result (ElasticTable K V) TryReserveError) → Type ℓ where
    overflow :
        max_elastic_slots < slots → ResizeCases build_arena slots t (some (err capacity_overflow))
    refused :
        (g : ElasticGeometry) (error : TryReserveError)
        → Shared slots g
        → build_arena g.level_capacities ≡ some error
        → ResizeCases build_arena slots t (some (err error))
    resized :
        (g : ElasticGeometry) (t' : ElasticTable K V)
        → Shared slots g
        → build_arena g.level_capacities ≡ none
        → Resized slots t t'
        → ResizeCases build_arena slots t (some (ok t'))

  -- A resize of a well-formed table to at least as many slots as it has entries does not panic. It
  -- gives a capacity overflow above `2 ^ 32` slots, the allocator's error if the arena for a
  -- geometry of that many slots is refused, and else a well-formed table of that many slots with as
  -- many entries, whose list of live entries has the same entry for every key.
  pub try_resize-ResizeCases :
      (build_arena : List ℕ → Option TryReserveError) (slots : ℕ) (transition : EpochTransition)
      (t : ElasticTable K V)
      → IsValid t
      → t.len ≤ slots
      → ResizeCases build_arena slots t (try_resize_with build_arena slots transition t)
  unfolding try_resize_with
  try_resize-ResizeCases build_arena slots transition t v room =
      elim (Bool-cases (ltb max_elastic_slots slots)) [
        | inl over ↦ rw (for_slots-over slots t.reserve_fraction over) (overflow (ltb→lt _ _ over))
        | inr within ↦
            let small = ltb→le _ _ within in
            let (g, shaped, s) = for_slots-Shared slots t.reserve_fraction v.exponent small in
            elim (Option-cases (build_arena g.level_capacities)) [
              | inl built ↦
                  let (t', run, r) =
                    try_resize_to-Resized build_arena slots g transition t v s small room built in
                  rw (shaped, run) (resized g t' s built r)
              | inr (error, refusal) ↦
                  rw (shaped, try_resize_to-refused build_arena g transition t refusal)
                    (refused g error s refusal)
            ]
      ]

  -- The resize that an operation makes, into a shape whose arena can be had.
  pub resize-Resized :
      (build_arena : List ℕ → Option TryReserveError) (slots : ℕ) (transition : EpochTransition)
      (t : ElasticTable K V) (g : ElasticGeometry)
      → IsValid t
      → for_slots slots t.reserve_fraction ≡ some (some g)
      → build_arena g.level_capacities ≡ none
      → t.len ≤ slots
      → (t' : ElasticTable K V) × (resize_with_transition build_arena slots transition t ≡ some t')
        × Resized slots t t'
  unfolding resize_with_transition try_resize_with
  resize-Resized build_arena slots transition t g v shaped built room =
      let (small, s) = shaped-Shared slots t.reserve_fraction g v.exponent shaped in
      let (t', run, r) =
        try_resize_to-Resized build_arena slots g transition t v s small room built in
      (t', rw (shaped, run) refl, r)
