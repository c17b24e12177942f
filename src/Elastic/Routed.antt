-- ===== src/Elastic/Routed.antt =====
-- elastic.rs: where the lookup leads a key.
use opthash_rs.Prelude.{
  ℕ, ◌*◌, ◌/◌, ◌%◌, ◌^◌, ◌≡◌, ◌⊎◌, refl, ap, inl, inr, arith, Bool-cases, true, false, some, List,
  get_elem?, ◌==◌, ==_iff, ◌<<<◌, bit_and,
}
use opthash_rs.Prelude.Bits.{bit, bit-and}
use opthash_rs.Prelude.Log.{pow2-pos, div_unique}
use native.Mathlib.Nat.{zero-div}
use mathlib.Core.List.{Memᴰ}
use opthash_rs.Elastic.Filter.{PreparedElasticKey}
use opthash_rs.Elastic.Schedule.{PhiRoute, route_level}
use opthash_rs.Elastic.Level.{Level, capacity}
use opthash_rs.Elastic.Table.{
  ElasticTable, h11_counter_base, route_prepared_counter_for_upper, is_exceptional,
}

-- The full scan, or a route of the list, leads a key to a location.
abbrev pub ByRoutes {ℓ} :
    {K V : Type ℓ} → ElasticTable K V → PreparedElasticKey → ℕ → ℕ → List PhiRoute → Type 0
ByRoutes t prepared level slot routes =
    (is_exceptional t ≡ true)
    ⊎ ((route : PhiRoute) × Memᴰ route routes
        × (route_level route ≡ level)
        × (route_prepared_counter_for_upper prepared.route route.counter_base route.range_upper
            ≡ some slot))

-- A location to which the lookup leads a key: as above, or the first slot of level zero.
abbrev pub Reachable {ℓ} : {K V : Type ℓ} → ElasticTable K V → PreparedElasticKey → ℕ → ℕ → Type ℓ
Reachable {K} {V} t prepared level slot =
    ((level ≡ 0)
      × ((first : Level K V)
          → get_elem? t.levels 0 ≡ some first
          → route_prepared_counter_for_upper prepared.route h11_counter_base (capacity first)
            ≡ some slot))
    ⊎ ByRoutes t prepared level slot t.probe_schedule

pub bit_masked : (level mask : ℕ) → bit level mask ≡ 1 → (bit_and mask (1 <<< level) == 0) ≡ false
bit_masked level mask set =
    let p = pow2-pos level in
    let one : 1 * 2 ^ level / 2 ^ level ≡ 1 =
      div_unique (2 ^ level) 1 0 (1 * 2 ^ level) (omega arith) p in
    let both = bit-and level mask (1 * 2 ^ level) in
    let nothing : 0 / 2 ^ level % 2 ≡ 0 = rw (zero-div (2 ^ level)) refl in
    elim (Bool-cases (bit_and mask (1 * 2 ^ level) == 0)) [
      | inr some_bit ↦ some_bit
      | inl clear ↦
          let e = (==_iff _ _).0 clear in
          absurd (omega (arith, ap (λ (x : ℕ). x / 2 ^ level % 2) e))
    ]
