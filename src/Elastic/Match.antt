-- ===== src/Elastic/Match.antt =====
-- elastic.rs: the comparison of one slot, and the full scan.
use opthash_rs.Prelude.{
  ℕ, zero, suc, ◌+◌, ◌-◌, ◌≤◌, ◌<◌, ◌≡◌, ◌≢◌, refl, ap, sym, ◌∙◌, inl, inr, arith, Bool, Bool-cases,
  true, false, none, some, Option-cases, List, [], ◌∷◌, get_elem?, ◌==◌, ==_iff, ==_refl,
  if◌then◌else◌, bind_some,
}
use mathlib.Core.Path.{subst}
use opthash_rs.Elastic.Modify.{get_below}
use opthash_rs.Elastic.Key.{Hashing}
use opthash_rs.Elastic.Level.{SlotEntry, Level, capacity, control_at, get_ref}
use opthash_rs.Elastic.Table.{Hit, entry_if_match, scan_level, scan_levels}

-- A slot that holds a control byte and an entry.
pub record Stored {ℓ} {K V : Type ℓ} (levels : List (Level K V)) (level slot control : ℕ)
    (entry : SlotEntry K V) : Type ℓ where
  pub at : Level K V
  pub there : get_elem? levels level ≡ some at
  pub held : control_at at slot ≡ some control
  pub stored : get_ref at slot ≡ some entry

if_both {ℓ} :
    {A : Type ℓ} (b c : Bool) (a : A) {x : A}
    → (if b then (if c then some a else none) else none) ≡ some x
    → (b ≡ true) × (c ≡ true) × (a ≡ x)
if_both true true a e = (refl, refl, cc e)
if_both true false a e = absurd (cc e)
if_both false c a e = absurd (cc e)

pub control_at-below {ℓ} :
    {K V : Type ℓ} (at : Level K V) (slot : ℕ) {control : ℕ}
    → control_at at slot ≡ some control
    → slot < capacity at
unfolding control_at
control_at-below at slot e =
    let (found, there, _) = bind_some (get_elem? at.slots slot) _ e in get_below at.slots slot there

module _ {ℓ} {K V : Type ℓ} ⦃keys : Hashing K⦄ (levels : List (Level K V)) (key_fingerprint : ℕ)
    (key : K) where
  -- A location that holds an entry with the fingerprint and an equivalent key.
  abbrev pub Matches : ℕ → ℕ → SlotEntry K V → Type ℓ
  Matches level slot entry =
      Stored levels level slot key_fingerprint entry × (keys.equivalent key entry.key ≡ true)

  pub entry_if_match-Matches :
      (level slot : ℕ) {entry : SlotEntry K V}
      → entry_if_match levels level slot key_fingerprint key ≡ some entry
      → Matches level slot entry
  unfolding entry_if_match
  entry_if_match-Matches level slot {entry} e =
      let (at, there, e1) = bind_some (get_elem? levels level) _ e in
      let (control, held, e2) = bind_some (control_at at slot) _ e1 in
      let (found, stored, e3) = bind_some (get_ref at slot) _ e2 in
      let (byte, equal, same) =
        if_both (control == key_fingerprint) (keys.equivalent key found.key) found e3 in
      let c = (==_iff control key_fingerprint).0 byte in
      (
        record {
          at = at;
          there = there;
          held = held ∙ ap (λ (t : ℕ). some t) c;
          stored = stored ∙ ap (λ (t : SlotEntry K V). some t) same;
        },
        subst (λ (t : SlotEntry K V). keys.equivalent key t.key ≡ true) same equal,
      )

  pub Matches-entry_if_match :
      (level slot : ℕ) {entry : SlotEntry K V}
      → Matches level slot entry
      → entry_if_match levels level slot key_fingerprint key ≡ some entry
  unfolding entry_if_match
  Matches-entry_if_match level slot (s, equal) =
      rw (s.there, s.held, s.stored, ==_refl key_fingerprint, equal) refl

  scan_level_sound :
      (level count slot : ℕ) {hit : Hit K V}
      → scan_level levels level key_fingerprint key count slot ≡ some hit
      → Matches hit.level hit.slot hit.entry
  unfolding scan_level
  scan_level_sound level zero slot e = absurd (cc e)
  scan_level_sound level (suc count) slot {hit} e =
      elim (Option-cases (entry_if_match levels level slot key_fingerprint key)) [
        | inl other ↦ scan_level_sound level count (slot + 1) (rw (other, scan_level) at e)
        | inr (entry, there) ↦
            let same : record { level = level; slot = slot; entry = entry } ≡ hit =
              cc (rw (there, scan_level) at e) in
            subst (λ (h : Hit K V). Matches h.level h.slot h.entry) same
              (entry_if_match-Matches level slot there)
      ]

  pub scan_levels_sound :
      (rest : List (Level K V)) (level : ℕ) {hit : Hit K V}
      → scan_levels levels key_fingerprint key rest level ≡ some hit
      → Matches hit.level hit.slot hit.entry
  unfolding scan_levels
  scan_levels_sound [] level e = absurd (cc e)
  scan_levels_sound (found ∷ rest) level {hit} e =
      elim (Option-cases (scan_level levels level key_fingerprint key (capacity found) 0)) [
        | inl nowhere ↦ scan_levels_sound rest (level + 1) (rw (nowhere, scan_levels) at e)
        | inr (h, there) ↦
            let same : h ≡ hit = cc (rw (there, scan_levels) at e) in
            subst (λ (h : Hit K V). Matches h.level h.slot h.entry) same
              (scan_level_sound level (capacity found) 0 there)
      ]

  scan_level_complete :
      (level count from slot : ℕ) {entry : SlotEntry K V}
      → Matches level slot entry
      → from ≤ slot
      → slot < from + count
      → (hit : Hit K V) × (scan_level levels level key_fingerprint key count from ≡ some hit)
  unfolding scan_level
  scan_level_complete level zero from slot m ge lt = absurd (omega arith)
  scan_level_complete level (suc count) from slot m ge lt =
      elim (Option-cases (entry_if_match levels level from key_fingerprint key)) [
        | inr (other, there) ↦
            (record { level = level; slot = from; entry = other }, rw (there, scan_level) refl)
        | inl none_here ↦ elim (Bool-cases (from == slot)) [
          | inl same ↦
              let e = (==_iff from slot).0 same in
              absurd (cc (rw (e, Matches-entry_if_match level slot m) at none_here))
          | inr differ ↦
              let (hit, found) =
                scan_level_complete level count (from + 1) slot m (ground arith) (omega arith) in
              (hit, rw (none_here, scan_level) found)
        ]
      ]

  pub scan_levels_complete :
      (rest : List (Level K V)) (from level slot : ℕ) (at : Level K V) {entry : SlotEntry K V}
      → Matches level slot entry
      → slot < capacity at
      → from ≤ level
      → get_elem? rest (level - from) ≡ some at
      → (hit : Hit K V) × (scan_levels levels key_fingerprint key rest from ≡ some hit)
  unfolding scan_levels
  scan_levels_complete [] from level slot at m lt ge there = absurd (cc there)
  scan_levels_complete (found ∷ rest) from level slot at m lt ge there =
      elim (Option-cases (scan_level levels from key_fingerprint key (capacity found) 0)) [
        | inr (hit, run) ↦ (hit, rw (run, scan_levels) refl)
        | inl none_here ↦ elim (Bool-cases (from == level)) [
          | inl same ↦
              let e = (==_iff from level).0 same in
              let first : level - from ≡ 0 = omega arith in
              let here : some found ≡ some at = rw first at there in
              let one : at ≡ found = cc in
              let lt' : slot < capacity found =
                subst (λ (x : Level K V). slot < capacity x) one lt in
              let (hit, run) =
                scan_level_complete from (capacity found) 0 slot (rw (sym e) at m) (omega arith)
                  (omega arith) in
              absurd (cc (rw run at none_here))
          | inr differ ↦
              let ne : from ≢ level = λ e. ground arith in
              let later : level - from ≡ suc (level - (from + 1)) = omega arith in
              let (hit, run) =
                scan_levels_complete rest (from + 1) level slot at m lt (omega arith)
                  (rw later at there) in
              (hit, rw (none_here, scan_levels) run)
        ]
      ]
