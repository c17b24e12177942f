-- ===== src/Elastic/Key.antt =====
-- The type parameters of a table: what it asks of a key's equality and of the hasher. A hash is a
-- `u64`.
use opthash_rs.Prelude.{ℕ, ◌<◌, ◌≡◌, Bool, true, u64_mod}

-- Keys that are equal in this sense need not be the same value.
pub record Hashing {ℓ} (K : Type ℓ) : Type ℓ where
  pub equivalent : K → K → Bool
  pub hash_one : K → ℕ
  pub equivalent_refl : (a : K) → equivalent a a ≡ true
  pub equivalent_symm : (a b : K) → equivalent a b ≡ true → equivalent b a ≡ true
  pub equivalent_trans :
      (a b c : K) → equivalent a b ≡ true → equivalent b c ≡ true → equivalent a c ≡ true
  pub hash_one-equivalent : (a b : K) → equivalent a b ≡ true → hash_one a ≡ hash_one b
  pub hash_one-lt : (a : K) → hash_one a < u64_mod
