-- ===== src/Elastic/Modify.antt =====
-- What a write through an index changes, and what it keeps.
use opthash_rs.Prelude.{
  ℕ, zero, suc, ◌<◌, ◌≡◌, ◌≢◌, ◌⊎◌, refl, ap, ◌∙◌, inl, inr, arith, Bool-cases, some, List, [], ◌∷◌,
  length, get_elem?, map, All, ◌==◌, ==_iff,
}
use mathlib.Core.Path.{subst}
use opthash_rs.Membership.{MetadataWord}
use opthash_rs.Elastic.Filter.{modify}

module _ {ℓ} {A : Type ℓ} (f : A → A) where
  pub length-modify : (xs : List A) (i : ℕ) → length (modify xs i f) ≡ length xs
  length-modify [] i = refl
  length-modify (x ∷ xs) zero = refl
  length-modify (x ∷ xs) (suc i) = ap suc (length-modify xs i)

  pub modify_self :
      (xs : List A) (i : ℕ) {a : A}
      → get_elem? xs i ≡ some a
      → get_elem? (modify xs i f) i ≡ some (f a)
  modify_self [] i e = absurd (ground (arith, e))
  modify_self (x ∷ xs) zero e = cc
  modify_self (x ∷ xs) (suc i) e = modify_self xs i e

  modify_ne : (xs : List A) (i j : ℕ) → i ≢ j → get_elem? (modify xs i f) j ≡ get_elem? xs j
  modify_ne [] i j ne = refl
  modify_ne (x ∷ xs) zero zero ne = absurd (ne refl)
  modify_ne (x ∷ xs) zero (suc j) ne = refl
  modify_ne (x ∷ xs) (suc i) zero ne = refl
  modify_ne (x ∷ xs) (suc i) (suc j) ne = modify_ne xs i j (λ e. ne (ap suc e))

  -- A property that the change keeps holds at every index after it.
  pub modify_keeps :
      (P : A → Type ℓ)
      → ((a : A) → P a → P (f a))
      → (xs : List A) (i j : ℕ) → (a : A) × (get_elem? xs j ≡ some a) × P a
      → (b : A) × (get_elem? (modify xs i f) j ≡ some b) × P b
  modify_keeps P keep xs i j (a, there, p) = elim (Bool-cases (i == j)) [
    | inl same ↦ let e = (==_iff i j).0 same in (f a, rw e (modify_self xs j there), keep a p)
    | inr other ↦ (a, modify_ne xs i j (λ e. ground arith) ∙ there, p)
  ]

-- What stands at an index after a change.
pub modify_cases {ℓ} :
    {A : Type ℓ} (f : A → A) (xs : List A) (i j : ℕ) {b : A}
    → get_elem? (modify xs i f) j ≡ some b
    → ((i ≡ j) × ((a : A) × (get_elem? xs j ≡ some a) × (f a ≡ b))) ⊎ (get_elem? xs j ≡ some b)
modify_cases f [] i j e = inr e
modify_cases f (x ∷ xs) zero zero e = inl (refl, (x, refl, cc e))
modify_cases f (x ∷ xs) zero (suc j) e = inr e
modify_cases f (x ∷ xs) (suc i) zero e = inr e
modify_cases f (x ∷ xs) (suc i) (suc j) e = elim (modify_cases f xs i j e) [
  | inr other ↦ inr other
  | inl (same, changed) ↦ inl (ap suc same, changed)
]

-- A property of every element after a change.
pub All-modify {ℓ κ} :
    {A : Type ℓ} (P : A → Type κ) (f : A → A) (xs : List A) (i : ℕ)
    → All P xs
    → ((a : A) → get_elem? xs i ≡ some a → P a → P (f a))
    → All P (modify xs i f)
All-modify P f [] i all change = tt
All-modify P f (x ∷ xs) zero all change = (change x refl all.0, all.1)
All-modify P f (x ∷ xs) (suc i) all change = (all.0, All-modify P f xs i all.1 change)

-- A measure that the change keeps.
pub map-modify {ℓ κ} :
    {A : Type ℓ} {B : Type κ} (m : A → B) (f : A → A) (xs : List A) (i : ℕ)
    → ((a : A) → m (f a) ≡ m a)
    → map m (modify xs i f) ≡ map m xs
map-modify m f [] i same = refl
map-modify m f (x ∷ xs) zero same = ap (λ y. y ∷ map m xs) (same x)
map-modify m f (x ∷ xs) (suc i) same = ap (λ ys. m x ∷ ys) (map-modify m f xs i same)

pub get-map {ℓ κ} :
    {A : Type ℓ} {B : Type κ} (m : A → B) (xs : List A) (i : ℕ) {b : B}
    → get_elem? (map m xs) i ≡ some b
    → (a : A) × (get_elem? xs i ≡ some a) × (m a ≡ b)
get-map m [] i e = absurd (cc e)
get-map m (x ∷ xs) zero e = (x, refl, cc e)
get-map m (x ∷ xs) (suc i) e = get-map m xs i e

pub map-get {ℓ κ} :
    {A : Type ℓ} {B : Type κ} (m : A → B) (xs : List A) (i : ℕ) {a : A}
    → get_elem? xs i ≡ some a
    → get_elem? (map m xs) i ≡ some (m a)
map-get m [] i e = absurd (cc e)
map-get m (x ∷ xs) zero e = ap (λ y. some (m y)) (cc e)
map-get m (x ∷ xs) (suc i) e = map-get m xs i e

pub get_below {ℓ} :
    {A : Type ℓ} (xs : List A) (i : ℕ) {a : A} → get_elem? xs i ≡ some a → i < length xs
get_below [] i e = absurd (cc e)
get_below (x ∷ xs) zero e = omega arith
get_below (x ∷ xs) (suc i) e = omega (arith, get_below xs i e)

pub some_elem {ℓ} :
    {A : Type ℓ} (xs : List A) (i : ℕ) → i < length xs → (a : A) × (get_elem? xs i ≡ some a)
some_elem [] i h = absurd (omega arith)
some_elem (x ∷ xs) zero h = (x, refl)
some_elem (x ∷ xs) (suc i) h = some_elem xs i (omega arith)

pub All-get :
    (P : MetadataWord → Type 0) (xs : List MetadataWord) (i : ℕ) {a : MetadataWord}
    → All P xs
    → get_elem? xs i ≡ some a
    → P a
All-get P [] i h e = absurd (ground (arith, e))
All-get P (x ∷ xs) zero {a} h e = let same : x ≡ a = cc in subst P same h.0
All-get P (x ∷ xs) (suc i) h e = All-get P xs i h.1 e
