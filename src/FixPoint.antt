-- ===== src/FixPoint.antt =====
-- src/hsr_battle_agent/battle_runtime/predicates.py: the comparisons of the game's FixPoint numbers,
-- which are one raw qword with two encodings. Bit 0 clear is STANDARD, a signed value at the scale
-- 2^-33; bit 0 set is EXTENDED, the signed rest at the scale 2^-26.
-- The sign -1, 0, 1 that the code computes is `Ordering`'s `lt`, `eq`, `gt`. `x & ~1` and `x & 127`
-- on a word are written `x - x % 2` and `x % 128`.
pub mod Order
pub mod Arith
pub mod ArithLaws
use Prim.Native.Nat.{compare}
use hsr_battle_agent.Base.{
  ℕ, ◌+◌, ◌-◌, ◌*◌, ◌/◌, ◌%◌, ◌^◌, Ordering, Bool, true, false, not, ◌&&◌, Option, none, some, ltb,
  leb, ◌==◌, if◌then◌else◌, Result, ok, value_error, guard, ◌>>=◌, ◌>>◌,
}
use hsr_battle_agent.Base.Int.{
  ℤ, pos, negsuc, ◌*ℤ◌, ltb_ℤ, leb_ℤ, fdiv, fmod, compare_ℤ, pos_part, neg_part,
}

-- `_INT64_MIN`, `_INT64_MAX` and `_MASK64`
abbrev pub int64_min : ℤ
int64_min = negsuc (2 ^ 63 - 1)

abbrev pub int64_max : ℤ
int64_max = pos (2 ^ 63 - 1)

abbrev pub word_max : ℤ
word_max = pos (2 ^ 64 - 1)

-- `value & _MASK64`
abbrev pub mask64 : ℤ → ℕ
mask64 value = fmod value (2 ^ 64)

-- `_to_signed64` of a word
abbrev pub to_signed64 : ℕ → ℤ
to_signed64 value = if ltb value (2 ^ 63) then pos value else negsuc (2 ^ 64 - value - 1)

-- `_sar64`, the arithmetic shift right
abbrev pub sar64 : ℕ → ℕ → ℕ
sar64 value shift = mask64 (fdiv (to_signed64 value) (2 ^ shift))

abbrev pub is_raw : ℤ → Bool
is_raw value = leb_ℤ int64_min value && leb_ℤ value word_max

unfoldable pub validate_raw : ℤ → Result (Unit {0})
validate_raw value = guard (is_raw value) value_error

-- `_signed_cmp`
abbrev pub signed_cmp : ℤ → ℤ → Ordering
signed_cmp lhs rhs = compare_ℤ lhs rhs

abbrev pub is_eq : Ordering → Bool
is_eq Ordering.eq = true
is_eq _ = false

-- `comparison`, but for a tie that a non-zero fraction settles.
abbrev pub tie_break : Ordering → ℕ → Ordering → Ordering
tie_break comparison fraction won =
    if is_eq comparison && not (fraction == 0) then won else comparison

-- `_fixpoint_compare` after its two operands are masked to words.
unfoldable pub compare_words : ℕ → ℕ → Ordering
compare_words lhs rhs =
    if lhs % 2 == 1
    then if rhs % 2 == 1
      then signed_cmp (to_signed64 (lhs - lhs % 2)) (to_signed64 (rhs - rhs % 2))
      else tie_break (signed_cmp (to_signed64 (lhs - lhs % 2)) (to_signed64 (sar64 rhs 7)))
          (rhs % 128) Ordering.lt
    else if rhs % 2 == 1
    then tie_break (signed_cmp (to_signed64 (sar64 lhs 7)) (to_signed64 (rhs - rhs % 2)))
        (lhs % 128) Ordering.gt
    else signed_cmp (to_signed64 lhs) (to_signed64 rhs)

unfoldable pub fixpoint_compare : ℤ → ℤ → Ordering
fixpoint_compare lhs rhs = compare_words (mask64 lhs) (mask64 rhs)

-- The six operators validate both operands and read the sign.
abbrev read_sign : (Ordering → Bool) → ℤ → ℤ → Result Bool
read_sign test lhs rhs = do validate_raw lhs; validate_raw rhs; ok (test (fixpoint_compare lhs rhs))

abbrev pub is_lt : Ordering → Bool
is_lt Ordering.lt = true
is_lt _ = false

abbrev pub is_gt : Ordering → Bool
is_gt Ordering.gt = true
is_gt _ = false

unfoldable pub fixpoint_equal : ℤ → ℤ → Result Bool
unfolding validate_raw
fixpoint_equal = read_sign is_eq

unfoldable pub fixpoint_not_equal : ℤ → ℤ → Result Bool
unfolding validate_raw
fixpoint_not_equal = read_sign (λ c. not (is_eq c))

unfoldable pub fixpoint_less : ℤ → ℤ → Result Bool
unfolding validate_raw
fixpoint_less = read_sign is_lt

unfoldable pub fixpoint_less_equal : ℤ → ℤ → Result Bool
unfolding validate_raw
fixpoint_less_equal = read_sign (λ c. not (is_gt c))

unfoldable pub fixpoint_greater : ℤ → ℤ → Result Bool
unfolding validate_raw
fixpoint_greater = read_sign is_gt

unfoldable pub fixpoint_greater_equal : ℤ → ℤ → Result Bool
unfolding validate_raw
fixpoint_greater_equal = read_sign (λ c. not (is_lt c))

unfoldable pub fixpoint_is_zero : ℤ → Result Bool
unfolding validate_raw
fixpoint_is_zero value = do validate_raw value; ok (ltb (mask64 value) 2)

unfoldable pub fixpoint_is_negative : ℤ → Result Bool
unfolding validate_raw
fixpoint_is_negative value = do validate_raw value; ok (mask64 value / 2 ^ 63 == 1)

unfoldable pub fixpoint_is_positive : ℤ → Result Bool
unfolding validate_raw
fixpoint_is_positive value = do
  validate_raw value
  ok (ltb_ℤ (pos 0) (to_signed64 (mask64 value - mask64 value % 2)))

-- `abs(value) >= _EXTENDED_THRESHOLD`
abbrev needs_extended : ℤ → Bool
needs_extended value = leb (2 ^ 30) (pos_part value + neg_part value)

-- The `| 1` sets the low bit of a word that is a multiple of 2^26.
unfoldable pub fixpoint_from_int32 : ℤ → Result ℤ
unfolding ◌*ℤ◌
fixpoint_from_int32 value = do
  guard (leb_ℤ (negsuc (2 ^ 31 - 1)) value && leb_ℤ value (pos (2 ^ 31 - 1))) value_error
  ok (
      if needs_extended value
      then pos (mask64 (value *ℤ pos (2 ^ 26)) + 1)
      else pos (mask64 (value *ℤ pos (2 ^ 33))))

-- `EvaluatorSpec`, with its raw qword
pub record EvaluatorSpec : Type 0 where
  pub fixpoint_raw : ℤ

-- A null or wrong-typed operand is `none`, as `_coerce_evaluator_spec` makes it.
unfoldable pub evaluator_spec_from_int32 : ℤ → Result EvaluatorSpec
unfolding fixpoint_from_int32
evaluator_spec_from_int32 value = do
  raw ← fixpoint_from_int32 value
  ok (record { fixpoint_raw = raw })

unfoldable pub evaluator_spec_fixpoint_equal_int32 : Option EvaluatorSpec → ℤ → Result Bool
unfolding fixpoint_equal fixpoint_from_int32
evaluator_spec_fixpoint_equal_int32 none rhs = ok false
evaluator_spec_fixpoint_equal_int32 (some spec) rhs = do
  raw ← fixpoint_from_int32 rhs
  fixpoint_equal spec.fixpoint_raw raw

unfoldable pub evaluator_spec_fixpoint_equal_raw : Option EvaluatorSpec → ℤ → Result Bool
unfolding fixpoint_equal
evaluator_spec_fixpoint_equal_raw none rhs = ok false
evaluator_spec_fixpoint_equal_raw (some spec) rhs = fixpoint_equal spec.fixpoint_raw rhs

unfoldable pub evaluator_spec_fixpoint_not_equal_raw : Option EvaluatorSpec → ℤ → Result Bool
unfolding fixpoint_not_equal
evaluator_spec_fixpoint_not_equal_raw none rhs = ok true
evaluator_spec_fixpoint_not_equal_raw (some spec) rhs = fixpoint_not_equal spec.fixpoint_raw rhs
