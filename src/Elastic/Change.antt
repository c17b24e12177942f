-- ===== src/Elastic/Change.antt =====
-- elastic.rs: the change of one slot of a table.
use opthash_rs.Prelude.{ℕ, ◌≡◌, ◌∙◌, sym, ap, inl, inr, some, List, get_elem?, length}
use mathlib.Core.Path.{subst}
use opthash_rs.Elastic.Filter.{modify}
use opthash_rs.Elastic.Modify.{length-modify, modify_cases, map-modify}
use opthash_rs.Elastic.Key.{Hashing}
use opthash_rs.Elastic.Level.{Slot, Level, capacity}
use opthash_rs.Elastic.Table.{ElasticTable}
use opthash_rs.Elastic.Valid.{capacities, Fits, IsValid}
use opthash_rs.Elastic.Carries.{Carries, Fits-Carries}

module _ {ℓ} {K V : Type ℓ} (slot : ℕ) (g : Level K V → Level K V) (f : Slot K V → Slot K V)
    (inner : (a : Level K V) → (g a).slots ≡ modify a.slots slot f) where
  pub change-shape :
      (levels : List (Level K V)) (level : ℕ)
      → capacities (modify levels level g) ≡ capacities levels
  change-shape levels level =
      map-modify capacity g levels level (λ a. ap length (inner a) ∙ length-modify f a.slots slot)

  pub change-cells :
      ⦃keys : Hashing K⦄ (t t' : ElasticTable K V) (level : ℕ)
      → IsValid t
      → Carries t t'
      → t'.levels ≡ modify t.levels level g
      → ((a : Level K V) (x : Slot K V)
          → get_elem? t.levels level ≡ some a
          → get_elem? a.slots slot ≡ some x
          → Fits t' level slot (f x))
      → (l s : ℕ) (at : Level K V) (found : Slot K V) → get_elem? t'.levels l ≡ some at
      → get_elem? at.slots s ≡ some found
      → Fits t' l s found
  change-cells t t' level v c levels fits l s at found there here =
      elim (modify_cases g t.levels level l
        (ap (λ (x : List (Level K V)). get_elem? x l) (sym levels) ∙ there)) [
          | inr same ↦ Fits-Carries t t' l s found c (v.cells l s at found same here)
          | inl (e, (a, was, changed)) ↦
              let within : get_elem? (modify a.slots slot f) s ≡ some found =
                ap (λ (x : List (Slot K V)). get_elem? x s) (sym (inner a))
                ∙ ap (λ (x : Level K V). get_elem? x.slots s) changed
                ∙ here in
              elim (modify_cases f a.slots slot s within) [
                | inr same ↦ Fits-Carries t t' l s found c (v.cells l s a found was same)
                | inl (e', (x, was', changed')) ↦
                    let at_level = ap (λ (i : ℕ). get_elem? t.levels i) e ∙ was in
                    let at_slot = ap (λ (i : ℕ). get_elem? a.slots i) e' ∙ was' in
                    subst (λ (i : ℕ). Fits t' i s found) e
                      (subst (λ (i : ℕ). Fits t' level i found) e'
                        (subst (Fits t' level slot) changed' (fits a x at_level at_slot)))
              ]
        ]
