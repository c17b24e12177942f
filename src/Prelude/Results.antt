-- ===== src/Prelude/Results.antt =====
-- `Result`, and a panic beside it where the code asserts.
use mathlib.Core.Path.{◌≡◌}

pub data Result {ℓ κ} (A : Type ℓ) (E : Type κ) : Type (ℓ ⊔ κ) where
  ok : A → Result A E
  err : E → Result A E

abbrev pub Returns {ℓ κ ι} :
    {A : Type ℓ} {E : Type ι} → Result A E → (A → Type κ) → Type (ℓ ⊔ κ ⊔ ι)
Returns {A} r P = (a : A) × (r ≡ ok a) × P a
