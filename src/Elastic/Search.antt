-- ===== src/Elastic/Search.antt =====
-- elastic.rs: the positions of the probes of a table, and the binary search among them.
use opthash_rs.Prelude.{
  ℕ, zero, suc, ◌+◌, ◌-◌, ◌*◌, ◌/◌, ◌^◌, ◌≤◌, ◌<◌, ◌≡◌, refl, ap, sym, ◌∙◌, inl, inr, arith,
  Bool-cases, some, ok, ltb, leb, ltb→lt, ltb→le, leb→le, leb→lt,
}
use opthash_rs.Prelude.Log.{pow2-suc}
use native.Mathlib.Nat.{mul-le-mul}
use opthash_rs.Probe.Phi.{elastic_phi}
use opthash_rs.Probe.PhiValue.{phi_value}
use opthash_rs.Probe.PhiOrder.{phi_value_mono}
use opthash_rs.Probe.PhiQuery.{phi-ok, elastic_phi-bounded}
use opthash_rs.Elastic.Schedule.{uniform_search_cap, probe_search, first_paper_probe_after}

-- The levels of a table and the probes that are searched have positions.
pub phi_there :
    (level p : ℕ)
    → level < 32
    → 0 < p
    → p ≤ 4097
    → elastic_phi (level + 1) p ≡ ok (phi_value (level + 1) p)
phi_there level p h pos few =
    let square : p * p ≤ 4097 * 4097 = mul-le-mul few few in
    let product : 16 * (level + 1) * (p * p) ≤ 16 * 33 * (4097 * 4097) =
      mul-le-mul {n₂ = 16 * 33} (omega arith) square in
    let (v, there, _) = elastic_phi-bounded (level + 1) p (omega arith) pos (omega arith) in
    there ∙ ap (λ (t : ℕ). ok t) (sym (phi-ok (level + 1) p v there))

pub phi_mono : (i j k : ℕ) → 0 < j → j ≤ k → phi_value i j ≤ phi_value i k
phi_mono i j k pos h = elim (Bool-cases (ltb j k)) [
  | inl less ↦ omega (arith, phi_value_mono i j k pos (ltb→lt _ _ less))
  | inr ge ↦
      let e : j ≡ k = omega (arith, ltb→le _ _ ge) in omega (arith, ap (λ (t : ℕ). phi_value i t) e)
]

-- The least probe, up to one more than the cap, whose position exceeds `position`.
pub record FirstAfter (level position probe : ℕ) : Type 0 where
  pub positive : 0 < probe
  pub capped : probe ≤ uniform_search_cap + 1
  pub before : (p : ℕ) → 0 < p → p < probe → phi_value (level + 1) p ≤ position
  pub after : (p : ℕ) → probe ≤ p → p ≤ uniform_search_cap → position < phi_value (level + 1) p

probe_search-FirstAfter :
    (level position fuel lower upper : ℕ)
    → level < 32
    → upper - lower < 2 ^ fuel
    → 0 < lower
    → lower ≤ upper
    → upper ≤ uniform_search_cap + 1
    → ((p : ℕ) → 0 < p → p < lower → phi_value (level + 1) p ≤ position)
    → ((p : ℕ) → upper ≤ p → p ≤ uniform_search_cap → position < phi_value (level + 1) p)
    → (probe : ℕ) × (probe_search (level + 1) position fuel lower upper ≡ some probe)
      × FirstAfter level position probe
unfolding probe_search
probe_search-FirstAfter level position zero lower upper h narrow pos order capped before after =
    let same : upper ≡ lower = omega arith in
    (
      lower,
      refl,
      record {
        positive = pos;
        capped = omega arith;
        before = before;
        after = λ p ge le. after p (omega arith) le;
      },
    )
probe_search-FirstAfter level position (suc fuel) lower upper h narrow pos order capped before
      after =
    elim (Bool-cases (ltb lower upper)) [
      | inr done ↦
          let same : upper ≡ lower = omega (arith, ltb→le _ _ done) in
          (
            lower,
            rw (done, probe_search) refl,
            record {
              positive = pos;
              capped = omega arith;
              before = before;
              after = λ p ge le. after p (omega arith) le;
            },
          )
      | inl more ↦
          let less = ltb→lt _ _ more in
          let middle = lower + (upper - lower) / 2 in
          let halves = pow2-suc fuel in
          let there = phi_there level middle h (omega arith) (omega arith) in
          elim (Bool-cases (leb (phi_value (level + 1) middle) position)) [
            | inl low ↦
                let below = leb→le _ _ low in
                let (probe, found, first) =
                  probe_search-FirstAfter level position fuel (middle + 1) upper h (omega arith)
                    (omega arith) (omega arith) capped
                    (λ p some_p lt.
                      omega (arith, phi_mono (level + 1) p middle some_p (omega arith)))
                    after in
                (probe, (rw (more, there, low, probe_search) found), first)
            | inr high ↦
                let above = leb→lt _ _ high in
                let (probe, found, first) =
                  probe_search-FirstAfter level position fuel lower middle h (omega arith) pos
                    (omega arith) (omega arith) before
                    (λ p ge le. omega (arith, phi_mono (level + 1) middle p (omega arith) ge)) in
                (probe, (rw (more, there, high, probe_search) found), first)
          ]
    ]

-- For each of the 32 possible levels the binary search returns, within its fuel, the least probe
-- whose position exceeds the one given, or one more than the search cap if there is none up to the
-- cap.
pub first_paper_probe_after-FirstAfter :
    (level position : ℕ)
    → level < 32
    → (probe : ℕ) × (first_paper_probe_after (level + 1) position ≡ some probe)
      × FirstAfter level position probe
unfolding first_paper_probe_after
first_paper_probe_after-FirstAfter level position h =
    probe_search-FirstAfter level position 13 1 (uniform_search_cap + 1) h (omega arith)
      (omega arith) (omega arith) (omega arith) (λ p pos lt. absurd (omega arith))
      (λ p ge le. absurd (omega arith))
