-- ===== src/Elastic/Batch.antt =====
-- elastic.rs: sequences of calls of `BatchScheduler`.
use opthash_rs.Prelude.{
  ℕ, zero, suc, ◌+◌, ◌-◌, ◌≤◌, ◌<◌, ◌≡◌, refl, ap, inl, inr, arith, true, false, Bool-cases, List,
  [], ◌∷◌, length, ltb, leb, le→leb, ◌==◌, ◌||◌, saturating, u64_mod,
}
use opthash_rs.Elastic.Scheduler.{
  BatchScheduler, running_ends, ends_passed, end_at, batch_at, sync, reset, new_scheduler,
  target_of, target,
}

-- Ends that do not fall, from a lower bound.
abbrev Rising : ℕ → List ℕ → Type 0
Rising low [] = Unit
Rising low (end ∷ ends) = (low ≤ end) × Rising end ends

running-Rising :
    (total : ℕ) (plan : List ℕ) → total < u64_mod → Rising total (running_ends total plan)
unfolding running_ends
running-Rising total [] h = tt
running-Rising total (quota ∷ plan) h =
    (omega arith, running-Rising (saturating (total + quota)) plan (omega arith))

Rising-end_at :
    (ends : List ℕ) (low i : ℕ) → Rising low ends → i < length ends → low ≤ end_at ends i
Rising-end_at [] low i r h = absurd (omega arith)
Rising-end_at (end ∷ ends) low zero r h = r.0
Rising-end_at (end ∷ ends) low (suc i) r h =
    omega (arith, r.0, Rising-end_at ends end i r.1 (omega arith))

end_at_mono :
    (ends : List ℕ) (low j i : ℕ)
    → Rising low ends
    → j ≤ i
    → i < length ends
    → end_at ends j ≤ end_at ends i
end_at_mono [] low j i r h k = absurd (omega arith)
end_at_mono (end ∷ ends) low zero zero r h k = omega arith
end_at_mono (end ∷ ends) low zero (suc i) r h k = Rising-end_at ends end i r.1 (omega arith)
end_at_mono (end ∷ ends) low (suc j) zero r h k = absurd (omega arith)
end_at_mono (end ∷ ends) low (suc j) (suc i) r h k =
    end_at_mono ends end j i r.1 (omega arith) (omega arith)

-- The ends before `i` are passed and that of `i` is not.
passed-window :
    (ends : List ℕ) (i len : ℕ)
    → i < length ends
    → ((j : ℕ) → j < i → end_at ends j ≤ len)
    → len < end_at ends i
    → ends_passed ends len ≡ i
passed-window [] i len h before stop = absurd (omega arith)
passed-window (end ∷ ends) zero len h before stop = ground arith
passed-window (end ∷ ends) (suc i) len h before stop =
    let first = le→leb end len (before 0 (omega arith)) in
    let rest =
      passed-window ends i len (omega arith) (λ j below. before (suc j) (omega arith)) stop in
    rw first (ap suc rest)

-- The window that the scheduler caches is that of its index.
record Windowed (ends : List ℕ) (s : BatchScheduler) : Type 0 where
  pub same : s.batch_ends ≡ ends
  pub within : s.current_batch_index ≤ length ends - 1
  pub start : 0 < s.current_batch_index → s.batch_start ≡ end_at ends (s.current_batch_index - 1)
  pub stop : 0 < length ends → s.batch_end ≡ end_at ends s.current_batch_index

sync-Windowed :
    (ends : List ℕ) (s : BatchScheduler) (len : ℕ)
    → s.batch_ends ≡ ends
    → (length ends ≡ 0 → s.current_batch_index ≡ 0)
    → Windowed ends (sync len s) × ((sync len s).current_batch_index ≡ batch_at ends len)
unfolding sync
sync-Windowed [] s len same none_yet =
    let e : (length s.batch_ends == 0) ≡ true = rw same refl in
    let z = none_yet refl in
    rw e (
      record {
        same = same;
        within = omega arith;
        start = λ pos. absurd (omega arith);
        stop = λ pos. absurd (omega arith);
      },
      omega arith,
    )
sync-Windowed (end ∷ ends) s len same none_yet =
    let e : (length s.batch_ends == 0) ≡ false = rw same (ground arith) in
    rw (e, same)
      (
        record {
          same = refl;
          within = omega arith;
          start = λ pos. ground arith;
          stop = λ pos. refl;
        },
        refl,
      )

-- A count within the cached window needs no search.
window-batch_at :
    (ends : List ℕ) (low : ℕ) (s : BatchScheduler) (len : ℕ)
    → Rising low ends
    → Windowed ends s
    → len < s.batch_end
    → s.batch_start ≤ len
    → s.current_batch_index ≡ batch_at ends len
window-batch_at [] low s len rising w below above = omega (arith, w.within)
window-batch_at (end ∷ ends) low s len rising w below above =
    let i = s.current_batch_index in
    let before : (j : ℕ) → j < i → end_at (end ∷ ends) j ≤ len = λ j h.
      let up =
        end_at_mono (end ∷ ends) low j (i - 1) rising (omega arith) (omega (arith, w.within)) in
      omega (arith, up, w.start (omega arith)) in
    let passed =
      passed-window (end ∷ ends) i len (omega (arith, w.within)) before
        (omega (arith, w.stop (omega arith))) in
    omega (arith, passed, w.within)

target-Windowed :
    (ends : List ℕ) (low : ℕ) (s : BatchScheduler) (len : ℕ)
    → Rising low ends
    → Windowed ends s
    → Windowed ends (target len s).1 × ((target len s).0 ≡ target_of (batch_at ends len))
unfolding target
target-Windowed ends low s len rising w =
    elim (Bool-cases (leb s.batch_end len || ltb len s.batch_start)) [
      | inl outside ↦
          let (w', e) = sync-Windowed ends s len w.same (λ z. omega (arith, w.within)) in
          rw outside (w', ap target_of e)
      | inr inside ↦
          let bounds : (len < s.batch_end) × (s.batch_start ≤ len) = ground arith in
          rw inside (w, ap target_of (window-batch_at ends low s len rising w bounds.0 bounds.1))
    ]

-- What is asked of a scheduler between two rebuilds of the table: targets and resets.
pub data Ask : Type 0 where
  ask_target : ℕ → Ask
  ask_reset : Ask

abbrev pub asked : List Ask → BatchScheduler → BatchScheduler
asked [] s = s
asked (ask_target len ∷ asks) s = asked asks (target len s).1
asked (ask_reset ∷ asks) s = asked asks (reset s)

asked-Windowed :
    (ends : List ℕ) (asks : List Ask) (s : BatchScheduler)
    → Rising 0 ends
    → Windowed ends s
    → Windowed ends (asked asks s)
unfolding reset
asked-Windowed ends [] s rising w = w
asked-Windowed ends (ask_target len ∷ asks) s rising w =
    asked-Windowed ends asks (target len s).1 rising (target-Windowed ends 0 s len rising w).0
asked-Windowed ends (ask_reset ∷ asks) s rising w =
    asked-Windowed ends asks (sync 0 s) rising
      (sync-Windowed ends s 0 w.same (λ z. omega (arith, w.within))).0

new-Windowed : (plan : List ℕ) → Windowed (running_ends 0 plan) (new_scheduler plan)
unfolding new_scheduler reset
new-Windowed plan =
    (sync-Windowed (running_ends 0 plan)
      (record {
        batch_ends = running_ends 0 plan;
        current_batch_index = 0;
        batch_start = 0;
        batch_end = u64_mod - 1;
      })
      0 refl (λ z. refl)).0

-- For every batch plan and every sequence of earlier targets and resets, the target for a live count
-- is the batch that the prefix sums of the plan give for that count, and the last batch beyond them:
-- the cached window never changes the answer.
pub target-asked :
    (plan : List ℕ) (asks : List Ask) (len : ℕ)
    → (target len (asked asks (new_scheduler plan))).0
      ≡ target_of (batch_at (running_ends 0 plan) len)
target-asked plan asks len =
    let rising = running-Rising 0 plan (omega arith) in
    (target-Windowed (running_ends 0 plan) 0 (asked asks (new_scheduler plan)) len rising
      (asked-Windowed (running_ends 0 plan) asks (new_scheduler plan) rising (new-Windowed plan))).1
