-- ===== src/Control.antt =====
-- raw/control.rs: the control byte of a slot, and the fingerprint that an occupied one holds.
use opthash_rs.Prelude.{
  ℕ, ◌/◌, ◌^◌, ◌≤◌, ◌<◌, ◌≡◌, refl, arith, max, Bool, true, false, not, ltb, ◌==◌, if◌then◌else◌,
  ◌>>>◌, bit_and, u64_mod,
}
use opthash_rs.Prelude.Bits.{bit_and_mask}

abbrev pub ctrl_empty : ℕ
ctrl_empty = 0

abbrev pub ctrl_tombstone : ℕ
ctrl_tombstone = 0x80

abbrev pub fingerprint_mask : ℕ
fingerprint_mask = 0x7f

unfoldable pub is_occupied : ℕ → Bool
is_occupied byte = not (bit_and byte fingerprint_mask == 0)

unfoldable pub is_free : ℕ → Bool
is_free byte = bit_and byte fingerprint_mask == 0

-- `u8::try_from` fails above 255, and gives 0 then.
unfoldable pub control_fingerprint : ℕ → ℕ
control_fingerprint hash =
    let masked = bit_and (hash >>> 57) fingerprint_mask in
    max (if ltb 255 masked then 0 else masked) 1

-- A byte is occupied or free.
pub is_occupied_free : (byte : ℕ) → is_occupied byte ≡ not (is_free byte)
unfolding is_occupied is_free
is_occupied_free byte = refl

fingerprint_value : (hash : ℕ) → hash < u64_mod → control_fingerprint hash ≡ max (hash / 2 ^ 57) 1
unfolding control_fingerprint
fingerprint_value hash h =
    let m = bit_and_mask 7 (hash / 2 ^ 57) in
    let low : hash / 2 ^ 57 < 128 = omega arith in ground (arith, m, low)

-- The control byte written for a 64-bit hash is the top seven bits of the hash, or 1 if they are
-- zero: it lies between 1 and 127, and it reads as occupied and not free, unlike the empty byte and
-- the tombstone.
pub control_fingerprint_lem :
    (hash : ℕ)
    → hash < u64_mod
    → (control_fingerprint hash ≡ max (hash / 2 ^ 57) 1)
      × (1 ≤ control_fingerprint hash)
      × (control_fingerprint hash < ctrl_tombstone)
      × (is_occupied (control_fingerprint hash) ≡ true)
      × (is_free (control_fingerprint hash) ≡ false)
      × (is_free ctrl_empty ≡ true)
      × (is_free ctrl_tombstone ≡ true)
unfolding is_occupied is_free
control_fingerprint_lem hash h =
    let v = fingerprint_value hash h in
    let pos : 1 ≤ control_fingerprint hash = omega arith in
    let low : control_fingerprint hash < 128 = omega arith in
    let m = bit_and_mask 7 (control_fingerprint hash) in
    let byte : bit_and (control_fingerprint hash) 127 ≡ control_fingerprint hash = omega arith in
    let some_bit : (control_fingerprint hash == 0) ≡ false = ground arith in
    (v, pos, low, rw (byte, some_bit) refl, rw (byte, some_bit) refl, refl, refl)
