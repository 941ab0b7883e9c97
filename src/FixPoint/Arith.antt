-- ===== src/FixPoint/Arith.antt =====
-- src/hsr_battle_agent/battle_runtime/property.py, the fixed-point arithmetic: both encodings are
-- decoded to the common scale 2^-26, computed there, saturated to a signed qword and encoded again.
use hsr_battle_agent.Base.{
  ◌+◌, ◌-◌, ◌%◌, ◌^◌, Bool, ◌&&◌, ◌==◌, if◌then◌else◌, Result, ok, ◌>>=◌, ◌>>◌,
}
use hsr_battle_agent.Base.Int.{ℤ, pos, negsuc, ◌+ℤ◌, ◌-ℤ◌, ◌*ℤ◌, ltb_ℤ, eqb_ℤ, fdiv, fmod}
use hsr_battle_agent.FixPoint.{
  mask64, to_signed64, validate_raw, int64_min, int64_max, fixpoint_less, fixpoint_greater,
}

-- `_decode_fixpoint_common`
unfoldable pub decode_fixpoint_common : ℤ → ℤ
decode_fixpoint_common raw =
    let word = mask64 raw in
    if word % 2 == 1 then to_signed64 (word - word % 2) else fdiv (to_signed64 word) (2 ^ 7)

-- `_saturate_common`
unfoldable pub saturate_common : ℤ → ℤ
saturate_common value =
    if ltb_ℤ value int64_min then int64_min else if ltb_ℤ int64_max value then int64_max else value

-- `(common & ~1 & _MASK64) | 1`
abbrev encode_extended : ℤ → ℤ
encode_extended common = pos (mask64 common - mask64 common % 2 + 1)

-- `-_STANDARD_VALUE_LIMIT < value < _STANDARD_VALUE_LIMIT`
abbrev fits_standard : ℤ → Bool
fits_standard value = ltb_ℤ (negsuc (2 ^ 30 - 1)) value && ltb_ℤ value (pos (2 ^ 30))

unfoldable pub encode_saturated : ℤ → ℤ
unfolding ◌*ℤ◌
encode_saturated common =
    if fmod common (2 ^ 26) == 0
    then if fits_standard (fdiv common (2 ^ 26))
      then pos (mask64 (fdiv common (2 ^ 26) *ℤ pos (2 ^ 33)))
      else encode_extended common
    else encode_extended common

-- `_encode_fixpoint_common`
unfoldable pub encode_fixpoint_common : ℤ → ℤ
unfolding encode_saturated saturate_common
encode_fixpoint_common common = encode_saturated (saturate_common common)

unfoldable pub fixedpoint_add : ℤ → ℤ → Result ℤ
fixedpoint_add left right = do
  validate_raw left
  validate_raw right
  ok (encode_fixpoint_common (decode_fixpoint_common left +ℤ decode_fixpoint_common right))

unfoldable pub fixedpoint_subtract : ℤ → ℤ → Result ℤ
fixedpoint_subtract left right = do
  validate_raw left
  validate_raw right
  ok (encode_fixpoint_common (decode_fixpoint_common left -ℤ decode_fixpoint_common right))

unfoldable pub fixedpoint_multiply : ℤ → ℤ → Result ℤ
fixedpoint_multiply left right = do
  validate_raw left
  validate_raw right
  let product = decode_fixpoint_common left *ℤ decode_fixpoint_common right
  ok (encode_fixpoint_common (fdiv product (2 ^ 26)))

-- `apply_modify_function`: 1 sets, 2 adds, 3 multiplies, 4 takes the lesser and 5 the greater; any
-- other id sets.
unfoldable pub apply_modify_function : ℤ → ℤ → ℤ → Result ℤ
apply_modify_function function_id old operand = do
  validate_raw old
  validate_raw operand
  if eqb_ℤ function_id (pos 1)
      then ok operand
      else if eqb_ℤ function_id (pos 2)
      then fixedpoint_add old operand
      else if eqb_ℤ function_id (pos 3)
      then fixedpoint_multiply old operand
      else if eqb_ℤ function_id (pos 4)
      then (do less ← fixpoint_less old operand; ok (if less then old else operand))
      else if eqb_ℤ function_id (pos 5)
      then (do greater ← fixpoint_greater operand old; ok (if greater then operand else old))
      else ok operand
