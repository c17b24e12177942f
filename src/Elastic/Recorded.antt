-- ===== src/Elastic/Recorded.antt =====
-- elastic.rs: the records and the reads of the filter, in sequence.
use opthash_rs.Prelude.{
  ℕ, zero, suc, ◌*◌, ◌^◌, ◌<◌, ◌≡◌, refl, ap, ◌∙◌, arith, true, false, some, List, [], ◌∷◌, length,
  get_elem?, All, ◌==◌, ==_iff, bit_and, bit_or, u64_mod,
}
use opthash_rs.Prelude.Bits.{
  Covers, or-Covers_left, or-Covers_right, Covers-self, bit, bit-or, bit_and_mask,
}
use native.Mathlib.Nat.{div-lt_iff_lt-mul, mod-lt}
use opthash_rs.Probe.Mix.{prepare_elastic}
use opthash_rs.Membership.{MetadataWord, word}
use opthash_rs.Elastic.Modify.{length-modify, modify_self, modify_keeps, some_elem, All-get}
use opthash_rs.Elastic.Mask.{Marked, bit_or-one, expanded_bit}
use opthash_rs.Elastic.Filter.{
  PreparedElasticKey, prepared_key, summary_bin, expanded_level_mask, summary_level, modify,
  set_bits, record_membership, read_word, route_filter,
}

-- The reduction of a signature gives an index within the filter.
word-lt : (signature words : ℕ) → signature < u64_mod → 0 < words → word signature words < words
unfolding word
word-lt signature words h pos =
    let e = div-lt_iff_lt-mul {k = u64_mod} {x = signature * words} {y = words} (omega arith) in
    e.1 (grind arith)

-- One word in which the key's bits are set, and the level in its bin.
abbrev pub Keeps : PreparedElasticKey → ℕ → MetadataWord → Type 0
Keeps key level m =
    Covers m.membership key.membership
    × ((bin : ℕ) × (get_elem? m.level_bins (summary_bin key) ≡ some bin) × Marked level bin)

set-Keeps :
    (key other : PreparedElasticKey) (level level' : ℕ) (m : MetadataWord)
    → Keeps key level m
    → Keeps key level (set_bits other level' m)
set-Keeps key other level level' m (covers, bin) = (
  or-Covers_left m.membership other.membership key.membership covers,
  modify_keeps (λ (b : ℕ). bit_or b (1 * 2 ^ summary_level level')) (Marked level)
      (λ b marked. bit-or (summary_level level) b (1 * 2 ^ summary_level level') ∙ omega arith)
      m.level_bins (summary_bin other) (summary_bin key) bin,
)

-- The filter keeps a key at a level; its words have four bins each.
abbrev pub FourBins : List MetadataWord → Type 0
FourBins filter = All (λ m. length m.level_bins ≡ 4) filter

abbrev pub Kept : PreparedElasticKey → ℕ → List MetadataWord → Type 0
Kept key level filter =
    (m : MetadataWord) × (get_elem? filter (word key.route.key (length filter)) ≡ some m)
    × Keeps key level m

FourBins-modify :
    (key : PreparedElasticKey) (level : ℕ) (filter : List MetadataWord) (i : ℕ)
    → FourBins filter
    → FourBins (modify filter i (set_bits key level))
FourBins-modify key level [] i h = h
FourBins-modify key level (m ∷ filter) zero h =
    (length-modify _ m.level_bins (summary_bin key) ∙ h.0, h.1)
FourBins-modify key level (m ∷ filter) (suc i) h = (h.0, FourBins-modify key level filter i h.1)

record_modify :
    (key : PreparedElasticKey) (level : ℕ) (filter : List MetadataWord)
    → record_membership key level filter
      ≡ modify filter (word key.route.key (length filter)) (set_bits key level)
unfolding record_membership
record_modify key level [] = refl
record_modify key level (m ∷ filter) =
    let some_words : (suc (length filter) == 0) ≡ false = ground arith in rw some_words refl

pub length-record :
    (key : PreparedElasticKey) (level : ℕ) (filter : List MetadataWord)
    → length (record_membership key level filter) ≡ length filter
length-record key level filter =
    ap length (record_modify key level filter)
    ∙ length-modify (set_bits key level) filter (word key.route.key (length filter))

-- A record never removes what the filter keeps.
pub record-Kept :
    (key other : PreparedElasticKey) (level level' : ℕ) (filter : List MetadataWord)
    → Kept key level filter
    → Kept key level (record_membership other level' filter)
record-Kept key other level level' filter kept =
    let at = word other.route.key (length filter) in
    rw (length-record other level' filter, record_modify other level' filter)
      (modify_keeps (set_bits other level') (Keeps key level) (set-Keeps key other level level')
        filter at (word key.route.key (length filter)) kept)

pub record-Kept_self :
    (key : PreparedElasticKey) (level : ℕ) (filter : List MetadataWord)
    → key.route.key < u64_mod
    → 0 < length filter
    → FourBins filter
    → Kept key level (record_membership key level filter)
unfolding summary_bin
record-Kept_self key level filter h pos four =
    let at = word key.route.key (length filter) in
    let (m, there) = some_elem filter at (word-lt key.route.key (length filter) h pos) in
    let bins = All-get (λ m. length m.level_bins ≡ 4) filter at four there in
    let bin_fits : summary_bin key < length m.level_bins =
      omega (arith, bins, bit_and_mask 2 key.route.key) in
    let (bin, bin_there) = some_elem m.level_bins (summary_bin key) bin_fits in
    let b = λ (x : ℕ). bit_or x (1 * 2 ^ summary_level level) in
    rw (length-record key level filter, record_modify key level filter)
      (
        set_bits key level m,
        modify_self (set_bits key level) filter at there,
        (
          or-Covers_right m.membership key.membership key.membership (Covers-self key.membership),
          (
            b bin,
            modify_self b m.level_bins (summary_bin key) bin_there,
            bit_or-one (summary_level level) bin,
          ),
        ),
      )

pub FourBins-record :
    (key : PreparedElasticKey) (level : ℕ) (filter : List MetadataWord)
    → FourBins filter
    → FourBins (record_membership key level filter)
FourBins-record key level filter h =
    rw (record_modify key level filter)
      (FourBins-modify key level filter (word key.route.key (length filter)) h)

-- The records made after one.
abbrev pub record_all : List (PreparedElasticKey × ℕ) → List MetadataWord → List MetadataWord
record_all [] filter = filter
record_all ((key, level) ∷ more) filter = record_all more (record_membership key level filter)

record_all-Kept :
    (more : List (PreparedElasticKey × ℕ)) (key : PreparedElasticKey) (level : ℕ)
    (filter : List MetadataWord)
    → Kept key level filter
    → Kept key level (record_all more filter)
record_all-Kept [] key level filter kept = kept
record_all-Kept ((other, level') ∷ more) key level filter kept =
    record_all-Kept more key level (record_membership other level' filter)
      (record-Kept key other level level' filter kept)

read_word-known :
    (key : PreparedElasticKey) (m : MetadataWord) {bin : ℕ}
    → get_elem? m.level_bins (summary_bin key) ≡ some bin
    → (bit_and m.membership key.membership == key.membership) ≡ true
    → read_word key m ≡ record { maybe_present = true; level_mask = bin }
read_word-known key m there present = rw (there, read_word, present) refl

pub route_filter-Kept :
    (key : PreparedElasticKey) (level : ℕ) (filter : List MetadataWord)
    → level < 32
    → Kept key level filter
    → ((route_filter key filter).maybe_present ≡ true)
      × (bit level (expanded_level_mask (route_filter key filter)) ≡ 1)
unfolding route_filter
route_filter-Kept key level [] h (m, there, k) = absurd (ground (arith, there))
route_filter-Kept key level (x ∷ filter) h (m, there, (covers, (bin, bin_there, marked))) =
    let some_words : (suc (length filter) == 0) ≡ false = ground arith in
    let present = (==_iff (bit_and m.membership key.membership) key.membership).1 covers in
    let level_bit = expanded_bit true level bin h marked in
    let read = read_word-known key m bin_there present in
    rw (some_words, there, read) (refl, level_bit)

pub prepared_key-lt : (hash : ℕ) → (prepared_key hash).route.key < u64_mod
unfolding prepared_key prepare_elastic
prepared_key-lt hash = mod-lt _ (omega arith)

-- In a filter of at least one word, with four bins in each, a key that was recorded at a level below
-- 32 is reported as possibly present, with the bit of its level set in the expanded mask, whatever
-- was in the filter before and whatever is recorded later.
pub record_membership-no_false_negative :
    (hash level : ℕ) (filter : List MetadataWord) (more : List (PreparedElasticKey × ℕ))
    → level < 32
    → 0 < length filter
    → FourBins filter
    → ((route_filter
          (prepared_key hash)
          (record_all more (record_membership (prepared_key hash) level filter))).maybe_present
        ≡ true)
      × (bit level (
            expanded_level_mask (
              route_filter
                (prepared_key hash)
                (record_all more (record_membership (prepared_key hash) level filter))))
          ≡ 1)
record_membership-no_false_negative hash level filter more h some_words four =
    let key = prepared_key hash in
    route_filter-Kept key level (record_all more (record_membership key level filter)) h (
      record_all-Kept more key level (record_membership key level filter)
        (record-Kept_self key level filter (prepared_key-lt hash) some_words four))
