-- ===== src/Elastic/Filter.antt =====
-- elastic.rs: the key's filter bits, and what the filter records and answers. A write through an
-- index is `modify`; the arena's words are a list.
use opthash_rs.Prelude.{
  ℕ, zero, suc, ◌-◌, ◌%◌, Bool, false, none, some, List, [], ◌∷◌, length, get_elem?, ltb, ◌==◌,
  if◌then◌else◌, ◌<<<◌, ◌>>>◌, bit_and, bit_or, u32_mod,
}
use opthash_rs.Probe.Mix.{PreparedElasticProbe, prepare_elastic, routing_signature}
use opthash_rs.Membership.{MetadataWord, from_signature, word}

abbrev pub elastic_probe_seed : ℕ
elastic_probe_seed = 0x2D35_8DCC_AA6C_78A5

abbrev pub route_summary_levels : ℕ
route_summary_levels = 16

abbrev pub membership_bits : ℕ
membership_bits = 3

pub record PreparedElasticKey : Type 0 where
  pub route : PreparedElasticProbe
  pub membership : ℕ

unfoldable pub prepared_key : ℕ → PreparedElasticKey
unfolding prepare_elastic routing_signature from_signature
prepared_key hash =
    let route = prepare_elastic (record { seed = elastic_probe_seed }) hash in
    record { route = route; membership = from_signature membership_bits (routing_signature route) }

unfoldable pub summary_bin : PreparedElasticKey → ℕ
summary_bin key = bit_and key.route.key 3

pub record ElasticRouteFilter : Type 0 where
  pub maybe_present : Bool
  pub level_mask : ℕ

-- On `u32`: the shift drops what leaves the word.
unfoldable pub expanded_level_mask : ElasticRouteFilter → ℕ
expanded_level_mask filter =
    let saturated = bit_and (filter.level_mask >>> (route_summary_levels - 1)) 1 in
    let all = if saturated == 0 then 0 else u32_mod - saturated in
    bit_or filter.level_mask ((all <<< (route_summary_levels - 1)) % u32_mod)

unfoldable pub summary_level : ℕ → ℕ
summary_level level =
    if ltb level (route_summary_levels - 1) then level else route_summary_levels - 1

abbrev pub modify {ℓ} : {A : Type ℓ} → List A → ℕ → (A → A) → List A
modify [] i f = []
modify (x ∷ xs) zero f = f x ∷ xs
modify (x ∷ xs) (suc i) f = x ∷ modify xs i f

abbrev pub set_bits : PreparedElasticKey → ℕ → MetadataWord → MetadataWord
set_bits key level metadata = record {
  membership = bit_or metadata.membership key.membership;
  level_bins =
      modify metadata.level_bins (summary_bin key)
        (λ (bin : ℕ). bit_or bin (1 <<< summary_level level));
}

unfoldable pub record_membership : PreparedElasticKey → ℕ → List MetadataWord → List MetadataWord
unfolding word
record_membership key level filter =
    let words = length filter in
    if words == 0 then filter else modify filter (word key.route.key words) (set_bits key level)

abbrev pub nothing_recorded : ElasticRouteFilter
nothing_recorded = record { maybe_present = false; level_mask = 0 }

-- The code reads without a check: both indices are within their lists.
abbrev pub read_word : PreparedElasticKey → MetadataWord → ElasticRouteFilter
read_word key metadata = elim (get_elem? metadata.level_bins (summary_bin key)) [
  | none ↦ nothing_recorded
  | some bin ↦ record {
    maybe_present = bit_and metadata.membership key.membership == key.membership;
    level_mask = bin;
  }
]

unfoldable pub route_filter : PreparedElasticKey → List MetadataWord → ElasticRouteFilter
unfolding word
route_filter key filter =
    let words = length filter in
    let read : ElasticRouteFilter = elim (get_elem? filter (word key.route.key words)) [
      | none ↦ nothing_recorded
      | some metadata ↦ read_word key metadata
    ] in
    if words == 0 then nothing_recorded else read

abbrev pub cleared_word : MetadataWord
cleared_word = record { membership = 0; level_bins = 0 ∷ 0 ∷ 0 ∷ 0 ∷ [] }

-- `clear_membership` writes zeros over every word.
unfoldable pub clear_membership : List MetadataWord → List MetadataWord
clear_membership [] = []
clear_membership (metadata ∷ filter) = cleared_word ∷ clear_membership filter
