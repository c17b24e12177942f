-- ===== src/Probe/PhiQuery.antt =====
-- exact/probe.rs: what `elastic_phi` returns, in terms of its own coordinates.
use opthash_rs.Prelude.{
  ℕ, ◌*◌, ◌≤◌, ◌<◌, ◌≡◌, refl, sym, ◌∙◌, arith, Bool-cases, inl, inr, ok, ltb, lt→ltb, checked,
  u128_mod,
}
use opthash_rs.Probe.Phi.{elastic_phi, or_overflow}
use opthash_rs.Probe.PhiValue.{phi_value, elastic_phi-value}
use opthash_rs.Probe.PhiOrder.{phi_value_injective, phi_value-lt, phi_value_mono}

coordinate_pos : (i j v : ℕ) → elastic_phi i j ≡ ok v → (0 < i) × (0 < j)
unfolding elastic_phi
coordinate_pos i j v e = ground arith

fits_value : (w v : ℕ) → or_overflow (checked u128_mod w) ≡ ok v → w ≡ v
fits_value w v e = elim (Bool-cases (ltb w u128_mod)) [
  | inl fits ↦ cc (rw fits at e)
  | inr over ↦ absurd (cc (rw over at e))
]

pub phi-ok : (i j v : ℕ) → elastic_phi i j ≡ ok v → phi_value i j ≡ v
phi-ok i j v e =
    let p = coordinate_pos i j v e in
    fits_value (phi_value i j) v (sym (elastic_phi-value i j p.0 p.1) ∙ e)

-- Two coordinate pairs with the same position are the same pair.
pub elastic_phi_injective :
    (i j i' j' v : ℕ) → elastic_phi i j ≡ ok v → elastic_phi i' j' ≡ ok v → (i ≡ i') × (j ≡ j')
elastic_phi_injective i j i' j' v e e' =
    let p = coordinate_pos i j v e in
    let p' = coordinate_pos i' j' v e' in
    phi_value_injective i j i' j' p.0 p.1 p'.0 p'.1 (phi-ok i j v e ∙ sym (phi-ok i' j' v e'))

-- At one level the positions of two probes that have one are ordered as the probes are.
pub elastic_phi_mono :
    (i j k v w : ℕ) → elastic_phi i j ≡ ok v → elastic_phi i k ≡ ok w → j < k → v < w
elastic_phi_mono i j k v w e e' h =
    let p = coordinate_pos i j v e in
    let m = phi_value_mono i j k p.1 h in omega (arith, phi-ok i j v e, phi-ok i k w e')

-- Positive coordinates with `16 * i * j^2` within `u128` have a position, and it is below that.
pub elastic_phi-bounded :
    (i j : ℕ)
    → 0 < i
    → 0 < j
    → 16 * i * (j * j) ≤ u128_mod
    → (v : ℕ) × (elastic_phi i j ≡ ok v) × (v < 16 * i * (j * j))
elastic_phi-bounded i j hi hj h =
    let b = phi_value-lt i j hi hj in
    let f = lt→ltb (phi_value i j) u128_mod (omega arith) in
    (phi_value i j, elastic_phi-value i j hi hj ∙ (rw f refl), b)
