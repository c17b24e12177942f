-- ===== src/Elastic/Refine.antt =====
-- elastic.rs: the lookup against the list of live entries.
use opthash_rs.Prelude.{
  ℕ, ◌<◌, ◌≡◌, refl, ap, sym, ◌∙◌, inl, inr, arith, true, some, Option-cases, List, length,
  get_elem?, bind_some,
}
use mathlib.Core.Path.{subst}
use mathlib.Core.List.{Memᴰ}
use mathlib.Core.List.Memᴰ
use opthash_rs.Control.{is_occupied_free, control_fingerprint, control_fingerprint_lem}
use opthash_rs.Elastic.Filter.{prepared_key}
use opthash_rs.Elastic.Recorded.{Kept}
use opthash_rs.Elastic.Routed.{Reachable}
use opthash_rs.Elastic.Modify.{get_below}
use opthash_rs.Elastic.Key.{Hashing}
use opthash_rs.Elastic.Level.{SlotEntry, control_at, get_ref}
use opthash_rs.Elastic.Table.{ElasticTable, Hit, find, find_entry}
use opthash_rs.Elastic.Resize.{live_entries}
use opthash_rs.Elastic.Match.{Matches}
use opthash_rs.Elastic.Lookup.{find-Matches}
use opthash_rs.Elastic.Walk.{find_by_complete}
use opthash_rs.Elastic.Entries.{Place, locate_entry, split_entries, slot_entries-stored}
use opthash_rs.Elastic.Assoc.{assoc, assoc-mem, assoc-some}
use opthash_rs.Elastic.Valid.{Live, IsValid}

Memᴰ-length {ℓ} : {A : Type ℓ} {a : A} {xs : List A} → Memᴰ a xs → 0 < length xs
Memᴰ-length (Memᴰ.head e) = omega arith
Memᴰ-length (Memᴰ.tail m) = omega arith

module _ {ℓ} {K V : Type ℓ} ⦃keys : Hashing K⦄ where
  -- The live slot of an entry.
  pub slot_with_key :
      (t : ElasticTable K V) {entry : SlotEntry K V}
      → IsValid t
      → (place : Place t.levels entry) → Live t place.level place.slot place.found
  slot_with_key t v place =
      elim (v.cells place.level place.slot place.at place.found place.there place.here) [
        | inr live ↦ live
        | inl free ↦ absurd (cc (rw (is_occupied_free place.found.control, free) at place.occupied))
      ]

  -- What matches a key is a live entry.
  pub Matches-mem :
      (t : ElasticTable K V) (key : K) (level slot : ℕ) {entry : SlotEntry K V}
      → Matches t.levels (control_fingerprint (keys.hash_one key)) key level slot entry
      → Memᴰ entry (live_entries t.levels)
  unfolding control_at get_ref
  Matches-mem t key level slot {entry} (s, equal) =
      let (found, here, held) = bind_some (get_elem? s.at.slots slot) _ s.held in
      let stored : found.entry ≡ some entry = rw here at s.stored in
      let (_, _, _, occupied, _, _, _) =
        control_fingerprint_lem (keys.hash_one key) (keys.hash_one-lt key) in
      let control : found.control ≡ control_fingerprint (keys.hash_one key) = cc in
      let split = split_entries t.levels level slot s.at found s.there here in
      let one = slot_entries-stored found (rw control occupied) stored in
      subst (Memᴰ entry) (sym split.whole) (
        Memᴰ.append_right split.before
          (Memᴰ.append_left split.behind (subst (Memᴰ entry) (sym one) (Memᴰ.head refl))))

  -- In a well-formed table the lookup finds an entry that is live.
  pub find-live :
      (t : ElasticTable K V) (key : K) {entry : SlotEntry K V}
      → IsValid t
      → Memᴰ entry (live_entries t.levels)
      → keys.equivalent key entry.key ≡ true
      → (hit : Hit K V) × (find t key ≡ some hit)
  unfolding find control_at get_ref
  find-live t key {entry} v m equal =
      let place = locate_entry t.levels m in
      let live = slot_with_key t v place in
      let same : live.entry ≡ entry = cc (live.stored, place.stored) in
      let hash : keys.hash_one live.entry.key ≡ keys.hash_one key =
        ap (λ (e : SlotEntry K V). keys.hash_one e.key) same
        ∙ sym (keys.hash_one-equivalent key entry.key equal) in
      let level = place.level in
      let matched : Matches t.levels (control_fingerprint (keys.hash_one key)) key level place.slot
          entry =
        (
          record {
            at = place.at;
            there = place.there;
            held = rw (place.here, live.marked, hash) refl;
            stored = rw place.here place.stored;
          },
          equal,
        ) in
      let below = get_below t.levels level place.there in
      let few = v.few in
      find_by_complete t key (prepared_key (keys.hash_one key))
        (control_fingerprint (keys.hash_one key)) level place.slot entry matched
        (omega (arith, v.len, Memᴰ-length m)) (omega arith)
        (subst (λ (h : ℕ). Kept (prepared_key h) level t.membership) hash live.kept)
        (subst (λ (h : ℕ). Reachable t (prepared_key h) level place.slot) hash live.reachable)

-- In a well-formed table the lookup returns the entry that its list of live entries has for the
-- key, and nothing when the list has none.
pub find_entry-assoc {ℓ} :
    {K V : Type ℓ} ⦃keys : Hashing K⦄ (t : ElasticTable K V) (key : K)
    → IsValid t
    → find_entry t key ≡ assoc key (live_entries t.levels)
unfolding find_entry
find_entry-assoc t key v = elim (Option-cases (find t key)) [
  | inr (hit, found) ↦
      let m = find-Matches t key hit found in
      rw found (
        sym (
          assoc-mem key (live_entries t.levels) v.distinct (Matches-mem t key hit.level hit.slot m)
            m.1))
  | inl nothing ↦ elim (Option-cases (assoc key (live_entries t.levels))) [
    | inl none_there ↦ rw nothing (sym none_there)
    | inr (entry, there) ↦
        let (m, equal) = assoc-some key (live_entries t.levels) there in
        let (hit, found) = find-live t key v m equal in absurd (cc)
  ]
]
