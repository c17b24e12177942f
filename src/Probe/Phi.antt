-- ===== src/Probe/Phi.antt =====
-- exact/probe.rs: the position code of the Elastic query order and the probe budget.
use opthash_rs.Prelude.{
  ℕ, zero, suc, ◌+◌, ◌-◌, ◌*◌, ◌/◌, ◌%◌, ◌^◌, Option, none, some, Result, ok, err, ltb, leb, ◌==◌,
  ◌||◌, if◌then◌else◌, ◌<<<◌, ◌>>>◌, ◌>>=◌, bit_and, bit_or, checked, u64_mod, u128_mod,
}
use opthash_rs.Prelude.Log.{bit_length}

pub data PhiCoordinate : Type 0 where
  i_coordinate j_coordinate : PhiCoordinate

pub data PhiError : Type 0 where
  zero_coordinate : PhiCoordinate → PhiError
  phi_overflow : PhiError

unfoldable pub append_bit : ℕ → ℕ → Option ℕ
append_bit prefix bit = do value ← checked u128_mod (prefix * 2); checked u128_mod (value + bit)

-- The loop over the bits of `j` from the top, a marker before each.
unfoldable pub append_pairs : ℕ → ℕ → ℕ → Option ℕ
unfolding append_bit
append_pairs j zero encoded = some encoded
append_pairs j (suc bit_index) encoded = do
  marked ← append_bit encoded 1
  paired ← append_bit marked (bit_and (j >>> bit_index) 1)
  append_pairs j bit_index paired

-- The loop over the bits of `i`.
unfoldable pub append_bits : ℕ → ℕ → ℕ → Option ℕ
unfolding append_bit
append_bits i zero encoded = some encoded
append_bits i (suc bit_index) encoded = do
  next ← append_bit encoded (bit_and (i >>> bit_index) 1)
  append_bits i bit_index next

abbrev pub or_overflow : Option ℕ → Result ℕ PhiError
or_overflow none = err phi_overflow
or_overflow (some value) = ok value

unfoldable pub elastic_phi : ℕ → ℕ → Result ℕ PhiError
elastic_phi i j =
    if i == 0
    then err (zero_coordinate i_coordinate)
    else if j == 0
    then err (zero_coordinate j_coordinate)
    else or_overflow (do
      pairs ← append_pairs j (bit_length j) 0
      delimited ← append_bit pairs 0
      append_bits i (bit_length i) delimited)

-- On `u32`; the value is below `2 ^ 16`, so no shift leaves the word.
unfoldable pub spread_low_16 : ℕ → ℕ
spread_low_16 value =
    let a = bit_and (bit_or value (value <<< 8)) 0x00ff_00ff in
    let b = bit_and (bit_or a (a <<< 4)) 0x0f0f_0f0f in
    let c = bit_and (bit_or b (b <<< 2)) 0x3333_3333 in bit_and (bit_or c (c <<< 1)) 0x5555_5555

unfoldable pub elastic_phi_bounded : ℕ → ℕ → Option ℕ
unfolding spread_low_16
elastic_phi_bounded i j =
    let i_bits = bit_length i in
    let pair_bits = bit_length j * 2 in
    let encoded_bits = pair_bits + 1 + i_bits in
    let pairs = bit_or (spread_low_16 j) (bit_and 0xaaaa_aaaa ((1 <<< pair_bits) % u64_mod - 1)) in
    if i == 0 || j == 0
    then none
    else if leb (2 ^ 16) j
    then none
    else if ltb 64 encoded_bits
    then none
    else if leb 64 (i_bits + 1)
    then none
    else some (bit_or ((pairs <<< (i_bits + 1)) % u64_mod) i)

pub data ElasticProbeBudgetError : Type 0 where
  invalid_free_slots : ℕ → ℕ → ElasticProbeBudgetError
  zero_constant budget_overflow : ElasticProbeBudgetError

abbrev pub or_budget_overflow : Option ℕ → Result ℕ ElasticProbeBudgetError
or_budget_overflow none = err budget_overflow
or_budget_overflow (some value) = ok value

unfoldable pub ratio_ceiling : ℕ → ℕ → Option ℕ
ratio_ceiling free_slots level_slots =
    let quotient = level_slots / free_slots in
    if level_slots % free_slots == 0 then some quotient else checked u64_mod (quotient + 1)

unfoldable pub elastic_dyadic_probe_budget : ℕ → ℕ → ℕ → ℕ → Result ℕ ElasticProbeBudgetError
unfolding ratio_ceiling
elastic_dyadic_probe_budget free_slots level_slots reserve_exponent c =
    if free_slots == 0 || ltb level_slots free_slots
    then err (invalid_free_slots free_slots level_slots)
    else if c == 0
    then err zero_constant
    else or_budget_overflow (do
      ratio ← ratio_ceiling free_slots level_slots
      let log_ceiling = bit_length (ratio - 1)
      log_squared ← checked u64_mod (log_ceiling * log_ceiling)
      let capped = if ltb log_squared reserve_exponent then log_squared else reserve_exponent
      checked u64_mod (c * capped))
