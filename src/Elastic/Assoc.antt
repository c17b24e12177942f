-- ===== src/Elastic/Assoc.antt =====
-- The abstract table: a list of entries with distinct keys, and its lookup.
use opthash_rs.Prelude.{
  ◌≡◌, refl, ap, sym, ◌∙◌, inl, inr, Bool-cases, true, false, Option, none, some, List, [], ◌∷◌,
  ◌++◌, All, if◌then◌else◌,
}
use mathlib.Core.List.{Memᴰ}
use mathlib.Core.Path.{subst}
use opthash_rs.Elastic.Key.{Hashing}
use opthash_rs.Elastic.Level.{SlotEntry}

module _ {ℓ} {K : Type ℓ} ⦃keys : Hashing K⦄ where
  inequivalent_symm : (a b : K) → keys.equivalent a b ≡ false → keys.equivalent b a ≡ false
  inequivalent_symm a b e = elim (Bool-cases (keys.equivalent b a)) [
    | inr apart ↦ apart
    | inl same ↦ absurd (cc (keys.equivalent_symm b a same, e))
  ]

  -- Equivalent keys have the same answers.
  equivalent_left :
      (a b c : K)
      → keys.equivalent a b ≡ true
      → keys.equivalent b c ≡ false
      → keys.equivalent a c ≡ false
  equivalent_left a b c same e = elim (Bool-cases (keys.equivalent a c)) [
    | inr apart ↦ apart
    | inl equal ↦ absurd (cc (keys.equivalent_trans b a c (keys.equivalent_symm a b same) equal, e))
  ]

  pub equivalent_right :
      (q a b : K) → keys.equivalent a b ≡ true → keys.equivalent q a ≡ keys.equivalent q b
  equivalent_right q a b same = elim (Bool-cases (keys.equivalent q a)) [
    | inl yes_there ↦ yes_there ∙ sym (keys.equivalent_trans q a b yes_there same)
    | inr apart ↦ elim (Bool-cases (keys.equivalent q b)) [
      | inr apart' ↦ apart ∙ sym apart'
      | inl equal ↦
          absurd (cc (keys.equivalent_trans q b a equal (keys.equivalent_symm a b same), apart))
    ]
  ]

module _ {ℓ} {K V : Type ℓ} ⦃keys : Hashing K⦄ where
  -- The entry with an equivalent key, if there is one.
  unfoldable pub assoc : K → List (SlotEntry K V) → Option (SlotEntry K V)
  assoc key [] = none
  assoc key (entry ∷ entries) = elim (keys.equivalent key entry.key) [
    | true ↦ some entry
    | false ↦ assoc key entries
  ]

  -- No entry of the list has an equivalent key.
  abbrev pub Absent : K → List (SlotEntry K V) → Type 0
  Absent key entries = All (λ entry. keys.equivalent key entry.key ≡ false) entries

  -- No two entries have equivalent keys.
  abbrev pub Distinct : List (SlotEntry K V) → Type 0
  Distinct [] = Unit
  Distinct (entry ∷ entries) = Absent entry.key entries × Distinct entries

  pub Absent-same :
      (key other : K) (entries : List (SlotEntry K V))
      → keys.equivalent key other ≡ true
      → Absent other entries
      → Absent key entries
  Absent-same key other [] same absent = tt
  Absent-same key other (entry ∷ entries) same absent = (
    equivalent_left key other entry.key same absent.0,
    Absent-same key other entries same absent.1,
  )

  pub assoc-Absent :
      (key : K) (entries : List (SlotEntry K V)) → Absent key entries → assoc key entries ≡ none
  unfolding assoc
  assoc-Absent key [] absent = refl
  assoc-Absent key (entry ∷ entries) absent =
      rw (absent.0, assoc) (assoc-Absent key entries absent.1)

  pub none-Absent :
      (key : K) (entries : List (SlotEntry K V)) → assoc key entries ≡ none → Absent key entries
  unfolding assoc
  none-Absent key [] e = tt
  none-Absent key (entry ∷ entries) e = elim (Bool-cases (keys.equivalent key entry.key)) [
    | inl here ↦ absurd (cc (rw (here, assoc) at e))
    | inr differ ↦ (differ, none-Absent key entries (rw (differ, assoc) at e))
  ]

  pub assoc-some :
      (key : K) (entries : List (SlotEntry K V)) {found : SlotEntry K V}
      → assoc key entries ≡ some found
      → Memᴰ found entries × (keys.equivalent key found.key ≡ true)
  unfolding assoc
  assoc-some key [] e = absurd (cc e)
  assoc-some key (entry ∷ entries) {found} e = elim (Bool-cases (keys.equivalent key entry.key)) [
    | inl here ↦
        let same : entry ≡ found = cc (rw (here, assoc) at e) in
        (
          Memᴰ.head (sym same),
          subst (λ (x : SlotEntry K V). keys.equivalent key x.key ≡ true) same here,
        )
    | inr differ ↦
        let (there, equal) = assoc-some key entries (rw (differ, assoc) at e) in
        (Memᴰ.tail there, equal)
  ]

  pub Absent-mem :
      (key : K) (entries : List (SlotEntry K V)) {found : SlotEntry K V}
      → Absent key entries
      → Memᴰ found entries
      → keys.equivalent key found.key ≡ false
  Absent-mem key [] absent m = elim m [ ]
  Absent-mem key (entry ∷ entries) absent (Memᴰ.head e) =
      subst (λ (x : SlotEntry K V). keys.equivalent key x.key ≡ false) (sym e) absent.0
  Absent-mem key (entry ∷ entries) absent (Memᴰ.tail m) = Absent-mem key entries absent.1 m

  pub assoc-mem :
      (key : K) (entries : List (SlotEntry K V)) {found : SlotEntry K V}
      → Distinct entries
      → Memᴰ found entries
      → keys.equivalent key found.key ≡ true
      → assoc key entries ≡ some found
  unfolding assoc
  assoc-mem key [] distinct m equal = elim m [ ]
  assoc-mem key (entry ∷ entries) {found} distinct m equal =
      elim (Bool-cases (keys.equivalent key entry.key)) [
        | inl here ↦
            rw (here, assoc)
              (elim m [
                | Memᴰ.head e ↦ ap (λ (x : SlotEntry K V). some x) (sym e)
                | Memᴰ.tail n ↦
                    let apart = Absent-mem entry.key entries distinct.0 n in
                    absurd (cc (equivalent_left key entry.key found.key here apart, equal))
              ])
        | inr differ ↦
            rw (differ, assoc)
              (elim m [
                | Memᴰ.head e ↦
                    let equal' =
                      subst (λ (x : SlotEntry K V). keys.equivalent key x.key ≡ true) e equal in
                    absurd (cc (equal', differ))
                | Memᴰ.tail n ↦ assoc-mem key entries distinct.1 n equal
              ])
      ]

  pub Absent-append :
      (key : K) (xs ys : List (SlotEntry K V))
      → Absent key (xs ++ ys)
      → Absent key xs × Absent key ys
  Absent-append key [] ys a = (tt, a)
  Absent-append key (x ∷ xs) ys a = let (b, c) = Absent-append key xs ys a.1 in ((a.0, b), c)

  pub append-Absent :
      (key : K) (xs ys : List (SlotEntry K V))
      → Absent key xs
      → Absent key ys
      → Absent key (xs ++ ys)
  append-Absent key [] ys a b = b
  append-Absent key (x ∷ xs) ys a b = (a.0, append-Absent key xs ys a.1 b)

  -- An entry with a new key put between two parts.
  pub Distinct-insert :
      (entry : SlotEntry K V) (xs ys : List (SlotEntry K V))
      → Distinct (xs ++ ys)
      → Absent entry.key (xs ++ ys)
      → Distinct (xs ++ (entry ∷ ys))
  Distinct-insert entry [] ys d a = (a, d)
  Distinct-insert entry (x ∷ xs) ys d a =
      let (l, r) = Absent-append x.key xs ys d.0 in
      (
        append-Absent x.key xs (entry ∷ ys) l (inequivalent_symm entry.key x.key a.0, r),
        Distinct-insert entry xs ys d.1 a.1,
      )

  pub Distinct-remove :
      (entry : SlotEntry K V) (xs ys : List (SlotEntry K V))
      → Distinct (xs ++ (entry ∷ ys))
      → Distinct (xs ++ ys) × Absent entry.key (xs ++ ys)
  Distinct-remove entry [] ys d = (d.1, d.0)
  Distinct-remove entry (x ∷ xs) ys d =
      let (l, r) = Absent-append x.key xs (entry ∷ ys) d.0 in
      let (d', a) = Distinct-remove entry xs ys d.1 in
      ((append-Absent x.key xs ys l r.1, d'), (inequivalent_symm x.key entry.key r.0, a))

  -- The lookup in a list with an entry put between two parts.
  pub assoc-insert :
      (key : K) (entry : SlotEntry K V) (xs ys : List (SlotEntry K V))
      → Absent entry.key (xs ++ ys)
      → assoc key (xs ++ (entry ∷ ys))
        ≡ (if keys.equivalent key entry.key then some entry else assoc key (xs ++ ys))
  unfolding assoc
  assoc-insert key entry [] ys a = elim (Bool-cases (keys.equivalent key entry.key)) [
    | inl here ↦ rw (here, assoc) refl
    | inr differ ↦ rw (differ, assoc) refl
  ]
  assoc-insert key entry (x ∷ xs) ys a =
      let rest = assoc-insert key entry xs ys a.1 in
      elim (Bool-cases (keys.equivalent key x.key)) [
        | inr differ ↦ rw (differ, assoc) rest
        | inl here ↦
            let apart : keys.equivalent key entry.key ≡ false =
              equivalent_left key x.key entry.key here (inequivalent_symm entry.key x.key a.0) in
            rw (here, apart, assoc) refl
      ]
