-- ===== src/Probe/Packing.antt =====
-- The packed counters are collision-free.
use opthash_rs.Prelude.{
  ℕ, ◌+◌, ◌*◌, ◌/◌, ◌^◌, ◌<◌, none, some, ◌≡◌, sym, ◌∙◌, arith, bit_or, inl, inr, Option-cases,
  if◌then◌else◌, ◌==◌,
}
use mathlib.Core.Path.{ap₂}
use opthash_rs.Prelude.Bits.{bit_or_fields, bit_and_mask}
use opthash_rs.Probe.Counter.{
  ProbeDomain, elastic_ordinary, funnel_ordinary, funnel_special_primary,
  funnel_special_fallback_choice_a, funnel_special_fallback_choice_b, elastic_counter_base,
  try_pack_elastic_counter, elastic_counter_level, domain_fields, funnel_counter,
  try_pack_funnel_counter,
}

pub elastic_counter_base_lem :
    (level logical : ℕ)
    → logical < 2 ^ 13
    → elastic_counter_base level logical ≡ level * 2 ^ 16 + logical * 2 ^ 3
unfolding elastic_counter_base
elastic_counter_base_lem level logical h = bit_or_fields 16 level (logical * 2 ^ 3) (omega arith)

pub pack_fields :
    (level logical rejection : ℕ)
    → logical < 2 ^ 13
    → rejection < 2 ^ 3
    → bit_or (elastic_counter_base level logical) rejection
      ≡ level * 2 ^ 16 + logical * 2 ^ 3 + rejection
pack_fields level logical rejection h k =
    let e : level * 2 ^ 16 + logical * 2 ^ 3 ≡ (level * 2 ^ 13 + logical) * 2 ^ 3 = omega arith in
    rw (elastic_counter_base_lem level logical h, e)
      (bit_or_fields 3 (level * 2 ^ 13 + logical) rejection k)

-- What a successful pack says: the three fields are in range and the counter is their sum.
pub record IsPacked (level logical rejection counter : ℕ) : Type 0 where
  pub level_fits : level < 2 ^ 5
  pub logical_fits : logical < 2 ^ 13
  pub rejection_fits : rejection < 2 ^ 3
  pub value : counter ≡ level * 2 ^ 16 + logical * 2 ^ 3 + rejection

pub try_pack_elastic-IsPacked :
    (level logical rejection : ℕ) {counter : ℕ}
    → try_pack_elastic_counter level logical rejection ≡ some counter
    → IsPacked level logical rejection counter
unfolding try_pack_elastic_counter
try_pack_elastic-IsPacked level logical rejection e = record {
  level_fits = ground arith;
  logical_fits = ground arith;
  rejection_fits = ground arith;
  value = ground (arith, pack_fields level logical rejection);
}

-- `elastic_counter_level` reads the level back from a packed counter.
pub elastic_counter_level-pack :
    (level logical rejection : ℕ) {counter : ℕ}
    → IsPacked level logical rejection counter
    → elastic_counter_level counter ≡ level
unfolding elastic_counter_level
elastic_counter_level-pack level logical rejection {counter} p =
    bit_and_mask 5 (counter / 2 ^ 16) ∙ omega arith

-- Two requests that pack to one Elastic counter are the same request.
pub try_pack_elastic_injective :
    (level logical rejection level' logical' rejection' : ℕ) {counter : ℕ}
    → try_pack_elastic_counter level logical rejection ≡ some counter
    → try_pack_elastic_counter level' logical' rejection' ≡ some counter
    → (level ≡ level') × (logical ≡ logical') × (rejection ≡ rejection')
try_pack_elastic_injective level logical rejection level' logical' rejection' e e' =
    let p = try_pack_elastic-IsPacked level logical rejection e in
    let q = try_pack_elastic-IsPacked level' logical' rejection' e' in omega arith

pub funnel_counter_lem :
    (tag level logical rejection : ℕ)
    → level < 2 ^ 46
    → logical < 2 ^ 8
    → rejection < 2 ^ 8
    → funnel_counter (tag, level) logical rejection
      ≡ tag * 2 ^ 62 + level * 2 ^ 16 + logical * 2 ^ 8 + rejection
unfolding funnel_counter
funnel_counter_lem tag level logical rejection a b c =
    let x = bit_or_fields 62 tag (level * 2 ^ 16) (omega arith) in
    let e : tag * 2 ^ 62 + level * 2 ^ 16 ≡ (tag * 2 ^ 46 + level) * 2 ^ 16 = omega arith in
    let y = bit_or_fields 16 (tag * 2 ^ 46 + level) (logical * 2 ^ 8) (omega arith) in
    let f : (tag * 2 ^ 46 + level) * 2 ^ 16 + logical * 2 ^ 8
        ≡ ((tag * 2 ^ 46 + level) * 2 ^ 8 + logical) * 2 ^ 8 =
      omega arith in
    let z = bit_or_fields 8 ((tag * 2 ^ 46 + level) * 2 ^ 8 + logical) rejection c in
    rw (x, e, y, f, z) (omega arith)

-- The fields of a domain name it.
domain_fields_range :
    (domain : ProbeDomain) {tag level : ℕ}
    → domain_fields domain ≡ some (tag, level)
    → (tag < 4) × (level < 2 ^ 46)
unfolding domain_fields
domain_fields_range (funnel_ordinary level) e = ground arith
domain_fields_range funnel_special_primary e = ground arith
domain_fields_range funnel_special_fallback_choice_a e = ground arith
domain_fields_range funnel_special_fallback_choice_b e = ground arith
domain_fields_range (elastic_ordinary level) e = cc

domain_of : ℕ → ℕ → ProbeDomain
domain_of tag level =
    if tag == 0
    then funnel_ordinary level
    else if tag == 1
    then funnel_special_primary
    else if tag == 2
    then funnel_special_fallback_choice_a
    else funnel_special_fallback_choice_b

domain_of-fields :
    (domain : ProbeDomain) {tag level : ℕ}
    → domain_fields domain ≡ some (tag, level)
    → domain_of tag level ≡ domain
unfolding domain_fields domain_of
domain_of-fields (funnel_ordinary level) e = ground arith
domain_of-fields funnel_special_primary e = ground arith
domain_of-fields funnel_special_fallback_choice_a e = ground arith
domain_of-fields funnel_special_fallback_choice_b e = ground arith
domain_of-fields (elastic_ordinary level) e = cc

pub record IsFunnelPacked (domain : ProbeDomain) (logical rejection counter : ℕ) : Type 0 where
  pub tag : ℕ
  pub level : ℕ
  pub fields : domain_fields domain ≡ some (tag, level)
  pub logical_fits : logical < 2 ^ 8
  pub rejection_fits : rejection < 2 ^ 8
  pub value : counter ≡ funnel_counter (tag, level) logical rejection

pub try_pack_funnel-IsFunnelPacked :
    (domain : ProbeDomain) (logical rejection : ℕ) {counter : ℕ}
    → try_pack_funnel_counter domain logical rejection ≡ some counter
    → IsFunnelPacked domain logical rejection counter
try_pack_funnel-IsFunnelPacked domain logical rejection {counter} e =
    elim (Option-cases (domain_fields domain)) [
      | inl refused ↦ absurd (no_fields refused)
      | inr ((tag, level), there) ↦ record {
        tag = tag;
        level = level;
        fields = there;
        logical_fits = unfold try_pack_funnel_counter in ground arith;
        rejection_fits = unfold try_pack_funnel_counter in ground arith;
        value = packed (tag, level) there;
      }
    ]
  where
    no_fields : domain_fields domain ≡ none → ⊥
    no_fields refused = unfold try_pack_funnel_counter in ground arith

    packed :
        (fields : ℕ × ℕ)
        → domain_fields domain ≡ some fields
        → counter ≡ funnel_counter fields logical rejection
    packed fields there = unfold try_pack_funnel_counter in ground arith

-- Two requests that pack to one Funnel counter are the same request, over all four domains.
pub try_pack_funnel_injective :
    (domain domain' : ProbeDomain) (logical rejection logical' rejection' : ℕ) {counter : ℕ}
    → try_pack_funnel_counter domain logical rejection ≡ some counter
    → try_pack_funnel_counter domain' logical' rejection' ≡ some counter
    → (domain ≡ domain') × (logical ≡ logical') × (rejection ≡ rejection')
try_pack_funnel_injective domain domain' logical rejection logical' rejection' e e' =
    let p = try_pack_funnel-IsFunnelPacked domain logical rejection e in
    let q = try_pack_funnel-IsFunnelPacked domain' logical' rejection' e' in
    let r = domain_fields_range domain p.fields in
    let s = domain_fields_range domain' q.fields in
    let v =
      funnel_counter_lem p.tag p.level logical rejection r.1 p.logical_fits p.rejection_fits in
    let w =
      funnel_counter_lem q.tag q.level logical' rejection' s.1 q.logical_fits q.rejection_fits in
    let same = p.value ∙ v in
    let same' = q.value ∙ w in
    let tags : p.tag ≡ q.tag = omega arith in
    let levels : p.level ≡ q.level = omega arith in
    (
      sym (domain_of-fields domain p.fields)
          ∙ ap₂ domain_of tags levels
          ∙ domain_of-fields domain' q.fields,
      omega arith,
      omega arith,
    )
