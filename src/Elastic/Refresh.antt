-- ===== src/Elastic/Refresh.antt =====
-- elastic.rs: a table after its filter was recorded anew.
use opthash_rs.Prelude.{
  ℕ, zero, suc, ◌+◌, ◌<◌, ◌≡◌, refl, ap, sym, ◌∙◌, inl, inr, arith, true, some, List, [], ◌∷◌,
  length, get_elem?,
}
use mathlib.Core.Path.{subst}
use mathlib.Core.List.{Memᴰ}
use mathlib.Core.List.Memᴰ
use opthash_rs.Control.{is_occupied, control_fingerprint_lem}
use opthash_rs.Membership.{MetadataWord}
use opthash_rs.Elastic.Filter.{
  PreparedElasticKey, prepared_key, record_membership, clear_membership,
}
use opthash_rs.Elastic.Recorded.{
  Kept, FourBins, record-Kept, record-Kept_self, FourBins-record, length-record, prepared_key-lt,
}
use opthash_rs.Elastic.Modify.{get_below}
use opthash_rs.Elastic.Key.{Hashing}
use opthash_rs.Elastic.Level.{SlotEntry, Slot, Level, scan_entries}
use opthash_rs.Elastic.Table.{ElasticTable, is_exceptional}
use opthash_rs.Elastic.Delete.{record_entries, record_levels, refresh_membership}
use opthash_rs.Elastic.Entries.{split_slots, slot_entries-stored}
use opthash_rs.Elastic.Valid.{IsValid}

pub cleared_length : (filter : List MetadataWord) → length (clear_membership filter) ≡ length filter
unfolding clear_membership
cleared_length [] = refl
cleared_length (m ∷ filter) = ap suc (cleared_length filter)

pub cleared-FourBins : (filter : List MetadataWord) → FourBins (clear_membership filter)
unfolding clear_membership
cleared-FourBins [] = tt
cleared-FourBins (m ∷ filter) = (refl, cleared-FourBins filter)

words_stay :
    (key : PreparedElasticKey) (level : ℕ) (filter : List MetadataWord)
    → Kept key level filter
    → 0 < length filter
words_stay key level filter (m, there, k) = omega (arith, get_below filter _ there)

-- A filter that can record: some words, of four bins each.
abbrev Ready : ℕ → List MetadataWord → Type 0
Ready words filter = (length filter ≡ words) × FourBins filter

module _ {ℓ} {K V : Type ℓ} ⦃keys : Hashing K⦄ where
  abbrev prepared : SlotEntry K V → PreparedElasticKey
  prepared entry = prepared_key (keys.hash_one entry.key)

  entries-Ready :
      (words level : ℕ) (entries : List (SlotEntry K V)) (filter : List MetadataWord)
      → Ready words filter
      → Ready words (record_entries level entries filter)
  unfolding record_entries
  entries-Ready words level [] filter r = r
  entries-Ready words level (entry ∷ entries) filter (n, four) =
      entries-Ready words level entries (record_membership (prepared entry) level filter) (
        length-record (prepared entry) level filter ∙ n,
        FourBins-record (prepared entry) level filter four,
      )

  entries-Kept :
      (key : PreparedElasticKey) (l level : ℕ) (entries : List (SlotEntry K V))
      (filter : List MetadataWord)
      → Kept key l filter
      → Kept key l (record_entries level entries filter)
  unfolding record_entries
  entries-Kept key l level [] filter k = k
  entries-Kept key l level (entry ∷ entries) filter k =
      entries-Kept key l level entries (record_membership (prepared entry) level filter)
        (record-Kept key (prepared entry) l level filter k)

  entries-Kept_self :
      (words level : ℕ) (entries : List (SlotEntry K V)) (filter : List MetadataWord)
      {entry : SlotEntry K V}
      → 0 < words
      → Ready words filter
      → Memᴰ entry entries
      → Kept (prepared entry) level (record_entries level entries filter)
  unfolding record_entries
  entries-Kept_self words level [] filter pos r m = elim m [ ]
  entries-Kept_self words level (first ∷ entries) filter {entry} pos (n, four) m = elim m [
    | Memᴰ.head e ↦
        subst
          (λ (x : SlotEntry K V).
            Kept (prepared x) level
              (record_entries level entries (record_membership (prepared first) level filter)))
          (sym e)
          (entries-Kept (prepared first) level level entries
            (record_membership (prepared first) level filter)
            (record-Kept_self (prepared first) level filter
              (prepared_key-lt (keys.hash_one first.key)) (omega arith) four))
    | Memᴰ.tail later ↦
        entries-Kept_self words level entries (record_membership (prepared first) level filter) pos
          (
            length-record (prepared first) level filter ∙ n,
            FourBins-record (prepared first) level filter four,
          )
          later
  ]

  levels-Ready :
      (words from : ℕ) (levels : List (Level K V)) (filter : List MetadataWord)
      → Ready words filter
      → Ready words (record_levels from levels filter)
  unfolding record_levels
  levels-Ready words from [] filter r = r
  levels-Ready words from (level ∷ levels) filter r =
      levels-Ready words (from + 1) levels (record_entries from (scan_entries level.slots) filter)
        (entries-Ready words from (scan_entries level.slots) filter r)

  levels-Kept :
      (key : PreparedElasticKey) (l from : ℕ) (levels : List (Level K V))
      (filter : List MetadataWord)
      → Kept key l filter
      → Kept key l (record_levels from levels filter)
  unfolding record_levels
  levels-Kept key l from [] filter k = k
  levels-Kept key l from (level ∷ levels) filter k =
      levels-Kept key l (from + 1) levels (record_entries from (scan_entries level.slots) filter)
        (entries-Kept key l from (scan_entries level.slots) filter k)

  levels-Kept_self :
      (words from level : ℕ) (levels : List (Level K V)) (filter : List MetadataWord)
      (at : Level K V) {entry : SlotEntry K V}
      → 0 < words
      → Ready words filter
      → get_elem? levels level ≡ some at
      → Memᴰ entry (scan_entries at.slots)
      → Kept (prepared entry) (from + level) (record_levels from levels filter)
  unfolding record_levels
  levels-Kept_self words from level [] filter at pos r there m = absurd (cc there)
  levels-Kept_self words from zero (first ∷ levels) filter at {entry} pos r there m =
      let same : first ≡ at = cc in
      let e : from ≡ from + 0 = omega arith in
      let m' = subst (λ (x : Level K V). Memᴰ entry (scan_entries x.slots)) (sym same) m in
      levels-Kept (prepared entry) (from + 0) (from + 1) levels
        (record_entries from (scan_entries first.slots) filter)
        (subst
          (λ (l : ℕ).
            Kept (prepared entry) l (record_entries from (scan_entries first.slots) filter))
          e (entries-Kept_self words from (scan_entries first.slots) filter pos r m'))
  levels-Kept_self words from (suc level) (first ∷ levels) filter at {entry} pos r there m =
      let e : from + 1 + level ≡ from + suc level = omega arith in
      subst
        (λ (l : ℕ).
          Kept (prepared entry) l (
            record_levels (from + 1) levels
              (record_entries from (scan_entries first.slots) filter)))
        e
        (levels-Kept_self words (from + 1) level levels
          (record_entries from (scan_entries first.slots) filter) at pos
          (entries-Ready words from (scan_entries first.slots) filter r) there m)

  scan-mem :
      (slots : List (Slot K V)) (i : ℕ) (found : Slot K V) {entry : SlotEntry K V}
      → get_elem? slots i ≡ some found
      → is_occupied found.control ≡ true
      → found.entry ≡ some entry
      → Memᴰ entry (scan_entries slots)
  scan-mem slots i found {entry} there occupied stored =
      let s = split_slots slots i found there in
      let one = slot_entries-stored found occupied stored in
      subst (Memᴰ entry) (sym s.whole) (
        Memᴰ.append_right s.before
          (Memᴰ.append_left s.behind (subst (Memᴰ entry) (sym one) (Memᴰ.head refl))))

  -- The filter recorded anew keeps every live entry.
  pub refresh_membership-IsValid :
      (t : ElasticTable K V) → IsValid t → IsValid (refresh_membership t)
  unfolding refresh_membership is_exceptional
  refresh_membership-IsValid t v =
      let words = length t.membership in
      let cleared : Ready words (clear_membership t.membership) =
        (cleared_length t.membership, cleared-FourBins t.membership) in
      let ready = levels-Ready words 0 t.levels (clear_membership t.membership) cleared in
      let t' = refresh_membership t in
      record {
        few = v.few;
        total = v.total;
        limit = v.limit;
        small = v.small;
        exponent = v.exponent;
        words = λ p. omega (arith, ready.0, v.words p);
        four = ready.1;
        scheduled = v.scheduled;
        cells = λ l s at found there here. elim (v.cells l s at found there here) [
          | inl free ↦ inl free
          | inr live ↦
              let (_, _, _, byte, _, _, _) =
                control_fingerprint_lem (keys.hash_one live.entry.key)
                  (keys.hash_one-lt live.entry.key) in
              let occupied : is_occupied found.control ≡ true = rw live.marked byte in
              let m = scan-mem at.slots s found here occupied live.stored in
              let z : 0 + l ≡ l = omega arith in
              inr (record {
                entry = live.entry;
                stored = live.stored;
                marked = live.marked;
                kept =
                    subst (λ (i : ℕ). Kept (prepared live.entry) i t'.membership) z
                      (levels-Kept_self words 0 l t.levels (clear_membership t.membership) at
                        (words_stay (prepared live.entry) l t.membership live.kept) cleared there
                        m);
                reachable = live.reachable;
              })
        ];
        counted = v.counted;
        len = v.len;
        distinct = v.distinct;
      }
