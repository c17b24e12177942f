-- ===== src/Elastic/Entries.antt =====
-- The live entries of a table, and what a write to one slot changes among them.
use opthash_rs.Prelude.{
  ℕ, zero, suc, ◌≡◌, refl, ap, sym, ◌∙◌, true, false, some, List, [], ◌∷◌, ◌++◌, get_elem?,
  Option-cases, inl, inr, Bool-cases,
}
use mathlib.Core.List.{Memᴰ, append_assoc}
use mathlib.Core.List.Memᴰ
use mathlib.Core.Path.{subst}
use opthash_rs.Control.{is_occupied}
use opthash_rs.Elastic.Filter.{modify}
use opthash_rs.Elastic.Level.{SlotEntry, Slot, Level, slot_entries, scan_entries}
use opthash_rs.Elastic.Resize.{live_entries}

module _ {ℓ} {K V : Type ℓ} where
  pub slot_entries-stored :
      (slot : Slot K V) {entry : SlotEntry K V}
      → is_occupied slot.control ≡ true
      → slot.entry ≡ some entry
      → slot_entries slot ≡ entry ∷ []
  unfolding slot_entries
  slot_entries-stored slot occupied stored = rw (occupied, stored, slot_entries) refl

  pub slot_entries-free :
      (slot : Slot K V) → is_occupied slot.control ≡ false → slot_entries slot ≡ []
  unfolding slot_entries
  slot_entries-free slot free = rw (free, slot_entries) refl

  pub slot_entries-mem :
      (slot : Slot K V) {entry : SlotEntry K V}
      → Memᴰ entry (slot_entries slot)
      → (is_occupied slot.control ≡ true) × (slot.entry ≡ some entry)
  unfolding slot_entries
  slot_entries-mem slot {entry} m = elim (Bool-cases (is_occupied slot.control)) [
    | inr free ↦ absurd (Memᴰ.not-nil (subst (Memᴰ entry) (slot_entries-free slot free) m))
    | inl occupied ↦ elim (Option-cases slot.entry) [
      | inl nothing ↦ absurd (Memᴰ.not-nil (rw (occupied, nothing, slot_entries) at m))
      | inr (found, there) ↦
          let one = subst (Memᴰ entry) (slot_entries-stored slot occupied there) m in
          (occupied, there ∙ ap (λ (x : SlotEntry K V). some x) (sym (Memᴰ.eq_of_singleton one)))
    ]
  ]

  -- A middle part with more before it, and with more after it.
  shift :
      (a b m c : List (SlotEntry K V)) {x : List (SlotEntry K V)}
      → x ≡ b ++ (m ++ c)
      → a ++ x ≡ (a ++ b) ++ (m ++ c)
  shift a b m c e = ap (λ (y : List (SlotEntry K V)). a ++ y) e ∙ sym (append_assoc a b (m ++ c))

  trail :
      (b m c d : List (SlotEntry K V)) {x : List (SlotEntry K V)}
      → x ≡ b ++ (m ++ c)
      → x ++ d ≡ b ++ (m ++ (c ++ d))
  trail b m c d e =
      ap (λ (y : List (SlotEntry K V)). y ++ d) e
      ∙ append_assoc b (m ++ c) d
      ∙ ap (λ (y : List (SlotEntry K V)). b ++ y) (append_assoc m c d)

  -- One slot's entries within a scan, before and after a change of the slot.
  pub record SlotSplit (slots : List (Slot K V)) (i : ℕ) (found : Slot K V) : Type ℓ where
    pub before : List (SlotEntry K V)
    pub behind : List (SlotEntry K V)
    pub whole : scan_entries slots ≡ before ++ (slot_entries found ++ behind)
    pub changed :
        (f : Slot K V → Slot K V)
        → scan_entries (modify slots i f) ≡ before ++ (slot_entries (f found) ++ behind)

  pub split_slots :
      (slots : List (Slot K V)) (i : ℕ) (found : Slot K V)
      → get_elem? slots i ≡ some found
      → SlotSplit slots i found
  unfolding scan_entries
  split_slots [] i found there = absurd (cc there)
  split_slots (slot ∷ slots) zero found there =
      let same : slot ≡ found = cc in
      subst (SlotSplit (slot ∷ slots) 0) same
        (record { before = []; behind = scan_entries slots; whole = refl; changed = λ f. refl })
  split_slots (slot ∷ slots) (suc i) found there =
      let s = split_slots slots i found there in
      record {
        before = slot_entries slot ++ s.before;
        behind = s.behind;
        whole = shift (slot_entries slot) s.before (slot_entries found) s.behind s.whole;
        changed =
            λ f. shift (slot_entries slot) s.before (slot_entries (f found)) s.behind (s.changed f);
      }

  -- The same within the table, the level being changed at that slot.
  pub record EntrySplit (levels : List (Level K V)) (level slot : ℕ) (at : Level K V)
      (found : Slot K V) : Type ℓ where
    pub before : List (SlotEntry K V)
    pub behind : List (SlotEntry K V)
    pub whole : live_entries levels ≡ before ++ (slot_entries found ++ behind)
    pub changed :
        (g : Level K V → Level K V) (f : Slot K V → Slot K V)
        → (g at).slots ≡ modify at.slots slot f
        → live_entries (modify levels level g) ≡ before ++ (slot_entries (f found) ++ behind)

  pub split_entries :
      (levels : List (Level K V)) (level slot : ℕ) (at : Level K V) (found : Slot K V)
      → get_elem? levels level ≡ some at
      → get_elem? at.slots slot ≡ some found
      → EntrySplit levels level slot at found
  unfolding live_entries
  split_entries [] level slot at found there here = absurd (cc there)
  split_entries (first ∷ levels) zero slot at found there here =
      let same : first ≡ at = cc in
      let s = split_slots at.slots slot found here in
      subst (λ (x : Level K V). EntrySplit (x ∷ levels) 0 slot at found) (sym same)
        (record {
          before = s.before;
          behind = s.behind ++ live_entries levels;
          whole = trail s.before (slot_entries found) s.behind (live_entries levels) s.whole;
          changed = λ g f e.
              ap (λ (x : List (Slot K V)). scan_entries x ++ live_entries levels) e
              ∙ trail s.before (slot_entries (f found)) s.behind (live_entries levels)
                  (s.changed f);
        })
  split_entries (first ∷ levels) (suc level) slot at found there here =
      let s = split_entries levels level slot at found there here in
      record {
        before = scan_entries first.slots ++ s.before;
        behind = s.behind;
        whole = shift (scan_entries first.slots) s.before (slot_entries found) s.behind s.whole;
        changed = λ g f e.
            shift (scan_entries first.slots) s.before (slot_entries (f found)) s.behind
              (s.changed g f e);
      }

  -- A live entry stands in a slot.
  pub record Place (levels : List (Level K V)) (entry : SlotEntry K V) : Type ℓ where
    pub level : ℕ
    pub slot : ℕ
    pub at : Level K V
    pub found : Slot K V
    pub there : get_elem? levels level ≡ some at
    pub here : get_elem? at.slots slot ≡ some found
    pub occupied : is_occupied found.control ≡ true
    pub stored : found.entry ≡ some entry

  slot_of :
      (slots : List (Slot K V)) {entry : SlotEntry K V}
      → Memᴰ entry (scan_entries slots)
      → (i : ℕ) × (found : Slot K V) × (get_elem? slots i ≡ some found)
        × (is_occupied found.control ≡ true)
        × (found.entry ≡ some entry)
  unfolding scan_entries
  slot_of [] m = absurd (Memᴰ.not-nil m)
  slot_of (slot ∷ slots) m = elim (Memᴰ.append_cases (slot_entries slot) m) [
    | inl first ↦
        let (occupied, stored) = slot_entries-mem slot first in (0, slot, refl, occupied, stored)
    | inr later ↦
        let (i, found, there, occupied, stored) = slot_of slots later in
        (suc i, found, there, occupied, stored)
  ]

  pub locate_entry :
      (levels : List (Level K V)) {entry : SlotEntry K V}
      → Memᴰ entry (live_entries levels)
      → Place levels entry
  unfolding live_entries
  locate_entry [] m = absurd (Memᴰ.not-nil m)
  locate_entry (level ∷ levels) m = elim (Memᴰ.append_cases (scan_entries level.slots) m) [
    | inl first ↦
        let (i, found, there, occupied, stored) = slot_of level.slots first in
        record {
          level = 0;
          slot = i;
          at = level;
          found = found;
          there = refl;
          here = there;
          occupied = occupied;
          stored = stored;
        }
    | inr later ↦
        let p = locate_entry levels later in
        record {
          level = suc p.level;
          slot = p.slot;
          at = p.at;
          found = p.found;
          there = p.there;
          here = p.here;
          occupied = p.occupied;
          stored = p.stored;
        }
  ]
