-- ===== src/Elastic/Lookup.antt =====
-- elastic.rs: what the lookup finds.
use opthash_rs.Prelude.{
  ℕ, ◌≡◌, inl, inr, Bool-cases, none, some, Option-cases, List, [], ◌∷◌, ◌==◌, ◌<<<◌, bit_and,
}
use mathlib.Core.Path.{subst}
use opthash_rs.Control.{control_fingerprint}
use opthash_rs.Elastic.Filter.{PreparedElasticKey, prepared_key, expanded_level_mask, route_filter}
use opthash_rs.Elastic.Schedule.{PhiRoute, route_level}
use opthash_rs.Elastic.Key.{Hashing}
use opthash_rs.Elastic.Level.{SlotEntry, Level, capacity}
use opthash_rs.Elastic.Table.{
  ElasticTable, Hit, h11_counter_base, route_prepared_counter_for_upper, is_exceptional,
  entry_if_match, find_by_full_scan, walk_schedule, find_beyond_first, find_from_first,
  find_by_exact_schedule, find,
}
use opthash_rs.Elastic.Match.{Matches, entry_if_match-Matches, scan_levels_sound}

module _ {ℓ} {K V : Type ℓ} ⦃keys : Hashing K⦄ (t : ElasticTable K V) (key : K)
    (prepared : PreparedElasticKey) (key_fingerprint : ℕ) where
  abbrev FoundAt : Hit K V → Type ℓ
  FoundAt hit = Matches t.levels key_fingerprint key hit.level hit.slot hit.entry

  full_scan_sound :
      {hit : Hit K V} → find_by_full_scan t key key_fingerprint ≡ some hit → FoundAt hit
  unfolding find_by_full_scan
  full_scan_sound e = scan_levels_sound t.levels key_fingerprint key t.levels 0 e

  match_sound :
      (level slot : ℕ) (entry : SlotEntry K V) {hit : Hit K V}
      → entry_if_match t.levels level slot key_fingerprint key ≡ some entry
      → record { level = level; slot = slot; entry = entry } ≡ hit
      → FoundAt hit
  match_sound level slot entry there same =
      subst FoundAt same (entry_if_match-Matches t.levels key_fingerprint key level slot there)

  walk_sound :
      (level_mask : ℕ) (routes : List PhiRoute) {hit : Hit K V}
      → walk_schedule t key prepared key_fingerprint level_mask routes ≡ some hit
      → FoundAt hit
  unfolding walk_schedule
  walk_sound level_mask [] e = elim (Bool-cases (is_exceptional t)) [
    | inl scan ↦ full_scan_sound (rw (scan, walk_schedule) at e)
    | inr stop ↦ absurd (cc (rw (stop, walk_schedule) at e))
  ]
  walk_sound level_mask (route ∷ routes) {hit} e =
      elim (Bool-cases (bit_and level_mask (1 <<< route_level route) == 0)) [
        | inl skip ↦ walk_sound level_mask routes (rw (skip, walk_schedule) at e)
        | inr visit ↦
            elim (Option-cases (
              route_prepared_counter_for_upper prepared.route route.counter_base
                route.range_upper)) [
                  | inl rejected ↦ full_scan_sound (rw (visit, rejected, walk_schedule) at e)
                  | inr (slot, routed) ↦
                      elim (Option-cases
                        (entry_if_match t.levels (route_level route) slot key_fingerprint key)) [
                          | inl other ↦
                              walk_sound level_mask routes
                                (rw (visit, routed, other, walk_schedule) at e)
                          | inr (entry, there) ↦
                              match_sound (route_level route) slot entry there
                                (cc (rw (visit, routed, there, walk_schedule) at e))
                        ]
                ]
      ]

  first_sound :
      (first : Level K V) {hit : Hit K V}
      → find_from_first t key prepared key_fingerprint first ≡ some hit
      → FoundAt hit
  unfolding find_from_first find_beyond_first
  first_sound first {hit} e =
      elim (Option-cases
        (route_prepared_counter_for_upper prepared.route h11_counter_base (capacity first))) [
          | inl rejected ↦ full_scan_sound (rw (rejected, find_from_first) at e)
          | inr (slot, routed) ↦
              elim (Option-cases (entry_if_match t.levels 0 slot key_fingerprint key)) [
                | inr (entry, there) ↦
                    match_sound 0 slot entry there (cc (rw (routed, there, find_from_first) at e))
                | inl other ↦
                    let beyond = rw (routed, other, find_from_first) at e in
                    elim (Bool-cases ((route_filter prepared t.membership).maybe_present)) [
                      | inr absent ↦ absurd (cc (rw (absent, find_beyond_first) at beyond))
                      | inl maybe ↦
                          walk_sound (expanded_level_mask (route_filter prepared t.membership))
                            t.probe_schedule (rw (maybe, find_beyond_first) at beyond)
                    ]
              ]
        ]

  find_by_sound :
      {hit : Hit K V}
      → find_by_exact_schedule t key prepared key_fingerprint ≡ some hit
      → FoundAt hit
  unfolding find_by_exact_schedule
  find_by_sound {hit} e = elim (Bool-cases (t.len == 0)) [
    | inl empty ↦ absurd (cc (rw (empty, find_by_exact_schedule) at e))
    | inr some_entries ↦ of_levels t.levels (rw (some_entries, find_by_exact_schedule) at e)
  ]
    where
      of_levels :
          (levels : List (Level K V))
          → (elim levels [
            | [] ↦ none
            | first ∷ rest ↦ find_from_first t key prepared key_fingerprint first
          ])
            ≡ some hit
          → FoundAt hit
      of_levels [] e = absurd (cc e)
      of_levels (first ∷ rest) e = first_sound first e

-- What the lookup finds is an entry that the table stores at the location returned, with the key's
-- control byte, and whose key is equivalent to the key.
pub find-Matches {ℓ} :
    {K V : Type ℓ} ⦃keys : Hashing K⦄ (t : ElasticTable K V) (key : K) (hit : Hit K V)
    → find t key ≡ some hit
    → Matches t.levels (control_fingerprint (keys.hash_one key)) key hit.level hit.slot hit.entry
unfolding find
find-Matches ⦃keys⦄ t key hit e =
    find_by_sound t key (prepared_key (keys.hash_one key)) (control_fingerprint (keys.hash_one key))
      e
