-- ===== src/Membership.antt =====
-- membership.rs: the words of the membership filter and the bits of a key.
use opthash_rs.Prelude.{ℕ, zero, suc, ◌*◌, List, [], ◌∷◌, ◌<<<◌, ◌>>>◌, bit_and, bit_or, div_ceil}

abbrev pub slots_per_word : ℕ
slots_per_word = 10

unfoldable pub word_count : ℕ → ℕ
word_count total_slots = div_ceil total_slots slots_per_word

unfoldable pub refresh_deletes : ℕ → ℕ
refresh_deletes max_insertions = max_insertions

-- The four level bins are a list of that length.
pub record MetadataWord : Type 0 where
  pub membership : ℕ
  pub level_bins : List ℕ

-- The loop over the fields of the signature.
unfoldable pub set_fields : ℕ → List ℕ → ℕ → ℕ → ℕ
set_fields zero shifts signature bits = bits
set_fields (suc fields) [] signature bits = bits
set_fields (suc fields) (shift ∷ shifts) signature bits =
    set_fields fields shifts signature (bit_or bits (1 <<< bit_and (signature >>> shift) 63))

abbrev pub field_shifts : List ℕ
field_shifts = 0 ∷ 32 ∷ 16 ∷ []

-- The code admits one to three fields.
unfoldable pub from_signature : ℕ → ℕ → ℕ
unfolding set_fields
from_signature fields signature = set_fields fields field_shifts signature 0

unfoldable pub word : ℕ → ℕ → ℕ
word signature words = (signature * words) >>> 64
