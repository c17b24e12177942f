-- ===== src/Epoch/View.antt =====
-- The four fields of the lifecycle word, and what each operation does to them.
use opthash_rs.Prelude.{
  ℕ, ◌+◌, ◌-◌, ◌*◌, ◌/◌, ◌%◌, ◌^◌, ◌<◌, min, ◌≡◌, refl, ap, ◌∙◌, arith, bit_and, bit_or, u64_mod,
}
use opthash_rs.Prelude.Bits.{
  bit_and_mask, bit_and_field, bit_and_complement, bit_or_split, bit_or_fields, bit_or_comm,
  bit_or-zero, bit_or-zero_left, bit_or_step,
}
use opthash_rs.Epoch.{
  EpochState, EpochTransition, initial, growth, tombstone_cleanup, explicit_resize, clear,
  placement_recovery, generation, placement_recoveries, note_delete, start, note_placement_recovery,
  transition_bits, transition_from_bits, recovery_mask, had_delete_mask,
}

-- `word` holds the fields, each within its width.
pub record Holds (gen rec tr del word : ℕ) : Type 0 where
  pub whole : word ≡ ((del * 2 ^ 3 + tr) * 2 ^ 28 + rec) * 2 ^ 32 + gen
  pub gen_fits : gen < 2 ^ 32
  pub rec_fits : rec < 2 ^ 28
  pub tr_fits : tr < 2 ^ 3
  pub del_fits : del < 2

pub Holds_split :
    (word : ℕ)
    → word < u64_mod
    → Holds (word % 2 ^ 32) (word / 2 ^ 32 % 2 ^ 28) (word / 2 ^ 60 % 2 ^ 3) (word / 2 ^ 63) word
Holds_split word h = record {
  whole = omega arith;
  gen_fits = omega arith;
  rec_fits = omega arith;
  tr_fits = omega arith;
  del_fits = omega arith;
}

holds_word :
    (gen rec tr del : ℕ) {word : ℕ}
    → word ≡ ((del * 2 ^ 3 + tr) * 2 ^ 28 + rec) * 2 ^ 32 + gen
    → gen < 2 ^ 32
    → rec < 2 ^ 28
    → tr < 2 ^ 3
    → del < 2
    → Holds gen rec tr del word
holds_word gen rec tr del e a b c d = record {
  whole = e;
  gen_fits = a;
  rec_fits = b;
  tr_fits = c;
  del_fits = d;
}

pub transition_bits-lt : (transition : EpochTransition) → transition_bits transition < 6
unfolding transition_bits
transition_bits-lt initial = omega arith
transition_bits-lt growth = omega arith
transition_bits-lt tombstone_cleanup = omega arith
transition_bits-lt explicit_resize = omega arith
transition_bits-lt clear = omega arith
transition_bits-lt placement_recovery = omega arith

-- `transition_from_bits` inverts the discriminants.
pub transition_from_bits-transition_bits :
    (transition : EpochTransition) → transition_from_bits (transition_bits transition) ≡ transition
unfolding transition_bits transition_from_bits
transition_from_bits-transition_bits initial = refl
transition_from_bits-transition_bits growth = refl
transition_from_bits-transition_bits tombstone_cleanup = refl
transition_from_bits-transition_bits explicit_resize = refl
transition_from_bits-transition_bits clear = refl
transition_from_bits-transition_bits placement_recovery = refl

module _ {gen rec tr del : ℕ} (s : EpochState) (h : Holds gen rec tr del s.lifecycle) where
  pub generation-Holds : generation s ≡ gen
  unfolding generation
  generation-Holds = bit_and_mask 32 s.lifecycle ∙ omega arith

  recovery_field : bit_and s.lifecycle recovery_mask ≡ rec * 2 ^ 32
  recovery_field = bit_and_field 32 28 s.lifecycle ∙ omega arith

  pub placement_recoveries-Holds : placement_recoveries s ≡ rec
  unfolding placement_recoveries
  placement_recoveries-Holds = rw recovery_field (omega arith)

  pub transition_field : bit_and s.lifecycle ((2 ^ 3 - 1) * 2 ^ 60) / 2 ^ 60 ≡ tr
  transition_field = rw (bit_and_field 60 3 s.lifecycle) (omega arith)

  pub delete_field : bit_and s.lifecycle ((2 ^ 1 - 1) * 2 ^ 63) ≡ del * 2 ^ 63
  delete_field = bit_and_field 63 1 s.lifecycle ∙ omega arith

  pub note_delete-Holds : Holds gen rec tr 1 (note_delete s).lifecycle
  unfolding note_delete
  note_delete-Holds =
      let low = (tr * 2 ^ 28 + rec) * 2 ^ 32 + gen in
      let e : s.lifecycle ≡ del * 2 ^ 63 + low = omega arith in
      let split = bit_or_split 63 del low 1 0 (omega arith) (omega arith) in
      let set : bit_or del 1 ≡ 1 =
        let none_left : del / 2 ≡ 0 = omega arith in
        bit_or_step del 1 ∙ rw (none_left, bit_or-zero_left 0) (omega arith) in
      let value = ap (λ (t : ℕ). bit_or t had_delete_mask) e ∙ split in
      holds_word gen rec tr 1 (omega (arith, value, set, bit_or-zero low)) (omega arith)
        (omega arith) (omega arith) (omega arith)

  pub start-Holds :
      (transition : EpochTransition)
      → Holds
          (min (gen + 1) (2 ^ 32 - 1))
          rec
          (transition_bits transition)
          0
          (start transition s).lifecycle
  unfolding start
  start-Holds transition =
      let g = min (gen + 1) (2 ^ 32 - 1) in
      let t = transition_bits transition in
      let low = bit_or_fields 32 rec g (omega arith) in
      let b = transition_bits-lt transition in
      let high = bit_or_fields 60 t (rec * 2 ^ 32 + g) (omega arith) in
      let flip = bit_or_comm (rec * 2 ^ 32 + g) (rec * 2 ^ 32 + g) (t * 2 ^ 60) (omega arith) in
      rw (recovery_field, generation-Holds, low, flip, high)
        (holds_word g rec t 0 (omega arith) (omega arith) (omega arith) (omega arith) (omega arith))

  pub note_placement_recovery-Holds :
      Holds gen (min (rec + 1) (2 ^ 28 - 1)) tr del (note_placement_recovery s).lifecycle
  unfolding note_placement_recovery
  note_placement_recovery-Holds =
      let r = min (rec + 1) (2 ^ 28 - 1) in
      let high = del * 2 ^ 3 + tr in
      let kept : bit_and s.lifecycle (u64_mod - 1 - recovery_mask) ≡ high * 2 ^ 60 + gen =
        omega
          (arith, bit_and_complement 64 s.lifecycle recovery_mask (omega arith), recovery_field) in
      let field : 0 * 2 ^ 60 + r * 2 ^ 32 ≡ r * 2 ^ 32 = omega arith in
      let split =
        rw field at (bit_or_split 60 high gen 0 (r * 2 ^ 32) (omega arith) (omega arith)) in
      let flip = bit_or_comm gen gen (r * 2 ^ 32) (omega arith) in
      let low = bit_or_fields 32 r gen (omega arith) in
      rw (kept, placement_recoveries-Holds)
        (holds_word gen r tr del (omega (arith, split, flip, low, bit_or-zero high)) (omega arith)
          (omega arith) (omega arith) (omega arith))
