-- ===== src/Probe/Reduced.antt =====
-- exact/probe.rs: what the loop of the range reduction returns.
use opthash_rs.Prelude.{
  ℕ, zero, suc, ◌+◌, ◌*◌, ◌≤◌, ◌<◌, ◌≡◌, ◌⊎◌, inl, inr, refl, ap, arith, true, false, Result, ok,
  err, Bool-cases, ◌==◌, u64_mod, ==_iff, if◌then◌else◌,
}
use opthash_rs.Probe.Range.{
  ProbeIndex, RangeReductionError, rejection_limit_exceeded, accepts, high_half, threshold,
  reduce_from, reduce_probe_words,
}
use native.Mathlib.Nat.{div-lt_iff_lt-mul}

high_half-lt : (upper word : ℕ) → word < u64_mod → 0 < upper → high_half upper word < upper
high_half-lt upper word h pos =
    (div-lt_iff_lt-mul {k = u64_mod} {x = word * upper} {y = upper} (omega arith)).1 (grind arith)

-- What the loop returns: the first accepted word gives the index, or all of them were rejected.
pub record FirstAccepted (upper t : ℕ) (word : ℕ → ℕ) (from : ℕ) (p : ProbeIndex) : Type 0 where
  pub at : ℕ
  pub start : from ≤ at
  pub count : p.random_word_count ≡ at + 1
  pub index : p.index ≡ high_half upper (word at)
  pub accepted : accepts upper t (word at) ≡ true
  pub rejected : (j : ℕ) → from ≤ j → j < at → accepts upper t (word j) ≡ false

abbrev pub Reduced : ℕ → ℕ → (ℕ → ℕ) → ℕ → ℕ → Result ProbeIndex RangeReductionError → Type 0
Reduced upper t word from end r =
    ((p : ProbeIndex) × (r ≡ ok p)
      × FirstAccepted upper t word from p
      × (p.random_word_count ≤ end))
    ⊎ ((r ≡ err (rejection_limit_exceeded end))
        × ((j : ℕ) → from ≤ j → j < end → accepts upper t (word j) ≡ false))

reduce_from-Reduced :
    (upper t : ℕ) (word : ℕ → ℕ) (left from end : ℕ)
    → from + left ≡ end
    → Reduced upper t word from end (reduce_from upper t word left from)
unfolding reduce_from
reduce_from-Reduced upper t word zero from end e =
    let same : from ≡ end = omega arith in
    inr (ap (λ n. err (rejection_limit_exceeded n)) same, λ j a b. absurd (omega arith))
reduce_from-Reduced upper t word (suc left) from end e =
    elim (Bool-cases (accepts upper t (word from))) [
      | inl yes_here ↦
          rw (yes_here, if◌then◌else◌)
            (inl (
              record { index = high_half upper (word from); random_word_count = from + 1 },
              refl,
              record {
                at = from;
                start = omega arith;
                count = refl;
                index = refl;
                accepted = yes_here;
                rejected = λ j a b. absurd (omega arith);
              },
              omega arith,
            ))
      | inr not_here ↦
          rw (not_here, if◌then◌else◌)
            (later not_here (reduce_from-Reduced upper t word left (from + 1) end (omega arith)))
    ]
  where
    extend :
        accepts upper t (word from) ≡ false
        → (stop : ℕ) → ((j : ℕ) → from + 1 ≤ j → j < stop → accepts upper t (word j) ≡ false)
        → (j : ℕ) → from ≤ j
        → j < stop
        → accepts upper t (word j) ≡ false
    extend no_first stop rest j a b = elim (Bool-cases (j == from)) [
      | inl same ↦ rw ((==_iff j from).0 same) no_first
      | inr more ↦ rest j (ground arith) b
    ]

    later :
        {r : Result ProbeIndex RangeReductionError}
        → accepts upper t (word from) ≡ false
        → Reduced upper t word (from + 1) end r
        → Reduced upper t word from end r
    later no_first (inl (p, run, f, n)) = inl (
      p,
      run,
      record {
        at = f.at;
        start = omega (arith, f.start);
        count = f.count;
        index = f.index;
        accepted = f.accepted;
        rejected = extend no_first f.at f.rejected;
      },
      n,
    )
    later no_first (inr (run, all)) = inr (run, extend no_first end all)

-- For a positive bound and words of 64 bits the reduction returns the index of the first accepted
-- word, below the bound, after at most the allowed number of words; it fails with the limit error
-- exactly when every allowed word is rejected.
pub reduce_probe_words-Reduced :
    (upper max_random_words : ℕ) (word : ℕ → ℕ)
    → 0 < upper
    → ((j : ℕ) → word j < u64_mod)
    → Reduced upper
        (threshold upper)
        word
        0
        max_random_words
        (reduce_probe_words upper max_random_words word)
      × ((p : ProbeIndex) → reduce_probe_words upper max_random_words word ≡ ok p → p.index < upper)
unfolding reduce_probe_words
reduce_probe_words-Reduced upper max_random_words word pos fits =
    let nonzero : (upper == 0) ≡ false = ground arith in
    let r =
      reduce_from-Reduced upper (threshold upper) word max_random_words 0 max_random_words
        (omega arith) in
    rw nonzero (r, λ p e. below p e r)
  where
    below :
        {r : Result ProbeIndex RangeReductionError} (p : ProbeIndex)
        → r ≡ ok p
        → Reduced upper (threshold upper) word 0 max_random_words r
        → p.index < upper
    below p e (inl (q, run, f, n)) =
        let same : p ≡ q = cc in rw (same, f.index) (high_half-lt upper (word f.at) (fits f.at) pos)
    below p e (inr (run, all)) = cc
