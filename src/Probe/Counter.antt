-- ===== src/Probe/Counter.antt =====
-- exact/probe.rs: the domains and the packed counters.
use opthash_rs.Prelude.{
  ℕ, ◌^◌, Option, none, some, ◌||◌, ltb, leb, if◌then◌else◌, ◌<<<◌, ◌>>>◌, bit_and, bit_or, ◌>>=◌,
}

pub data ProbeDomain : Type 0 where
  elastic_ordinary : ℕ → ProbeDomain
  funnel_ordinary : ℕ → ProbeDomain
  funnel_special_primary funnel_special_fallback_choice_a funnel_special_fallback_choice_b :
      ProbeDomain

abbrev pub elastic_level_shift : ℕ
elastic_level_shift = 16

abbrev pub elastic_logical_shift : ℕ
elastic_logical_shift = 3

abbrev pub elastic_level_limit : ℕ
elastic_level_limit = 2 ^ 5

abbrev pub elastic_logical_limit : ℕ
elastic_logical_limit = 2 ^ 13

abbrev pub elastic_rejection_limit : ℕ
elastic_rejection_limit = 2 ^ 3

abbrev pub range_word_cap : ℕ
range_word_cap = 8

abbrev pub funnel_level_limit : ℕ
funnel_level_limit = 2 ^ 46

abbrev pub funnel_logical_limit : ℕ
funnel_logical_limit = 2 ^ 8

abbrev pub funnel_rejection_limit : ℕ
funnel_rejection_limit = 2 ^ 8

-- Within the limits no shift leaves the `u32`.
unfoldable pub elastic_counter_base : ℕ → ℕ → ℕ
elastic_counter_base level logical_probe_index =
    bit_or (level <<< elastic_level_shift) (logical_probe_index <<< elastic_logical_shift)

unfoldable pub try_pack_elastic_counter : ℕ → ℕ → ℕ → Option ℕ
unfolding elastic_counter_base
try_pack_elastic_counter level logical_probe_index rejection_index =
    if leb elastic_level_limit level
      || leb elastic_logical_limit logical_probe_index
      || leb elastic_rejection_limit rejection_index
    then none
    else some (bit_or (elastic_counter_base level logical_probe_index) rejection_index)

unfoldable pub elastic_counter_level : ℕ → ℕ
elastic_counter_level counter = bit_and (counter >>> elastic_level_shift) 0x1f

-- The tag and the level of a domain; `none` for one that has no Funnel counter.
unfoldable pub domain_fields : ProbeDomain → Option (ℕ × ℕ)
domain_fields (funnel_ordinary level) =
    if ltb level funnel_level_limit then some (0, level) else none
domain_fields funnel_special_primary = some (1, 0)
domain_fields funnel_special_fallback_choice_a = some (2, 0)
domain_fields funnel_special_fallback_choice_b = some (3, 0)
domain_fields (elastic_ordinary level) = none

unfoldable pub funnel_counter : ℕ × ℕ → ℕ → ℕ → ℕ
funnel_counter (tag, level) logical_probe_index rejection_index =
    bit_or (bit_or (bit_or (tag <<< 62) (level <<< 16)) (logical_probe_index <<< 8)) rejection_index

unfoldable pub try_pack_funnel_counter : ProbeDomain → ℕ → ℕ → Option ℕ
try_pack_funnel_counter domain logical_probe_index rejection_index =
    if leb funnel_logical_limit logical_probe_index || leb funnel_rejection_limit rejection_index
    then none
    else domain_fields domain >>= λ fields.
        some (funnel_counter fields logical_probe_index rejection_index)

unfoldable pub ordinary_counter_base : ℕ → Option ℕ
unfolding try_pack_funnel_counter domain_fields funnel_counter
ordinary_counter_base level = try_pack_funnel_counter (funnel_ordinary level) 0 0

abbrev pub funnel_special_primary_base : Option ℕ
funnel_special_primary_base = try_pack_funnel_counter funnel_special_primary 0 0

abbrev pub funnel_special_fallback_a_base : Option ℕ
funnel_special_fallback_a_base = try_pack_funnel_counter funnel_special_fallback_choice_a 0 0

abbrev pub funnel_special_fallback_b_base : Option ℕ
funnel_special_fallback_b_base = try_pack_funnel_counter funnel_special_fallback_choice_b 0 0
