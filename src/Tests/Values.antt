-- ===== src/Tests/Values.antt =====
-- Dynamic values: battle_runtime/values.py on concrete cells.
use hsr_battle_agent.Base.{[], arith, false, ok, refl, some, true, ◌*◌, ◌^◌, ◌↔◌, ◌∷◌, ◌≡◌}
use hsr_battle_agent.Base.Float.{finite}
use hsr_battle_agent.Base.Int.{negsuc, pos, ℤ}
use hsr_battle_agent.Values.{
  DynamicValue, check_payload, dynamic_value_equals, float_value, string_value,
}
use hsr_battle_agent.Values.Equality.{Shared, content, dynamic_value_equals-content}
use hsr_battle_agent.Values.Float32.{int64_to_float32}
use hsr_battle_agent.Values.Float32.Rounding.{RoundsTo, int64_to_float32-RoundsTo}
use hsr_battle_agent.Values.Ranges.{Coerced, check_payload-Coerced}

abbrev large : ℤ
large = negsuc 16777216

-- A tie between 2^24 and 2^24 + 2 goes to the even significand.
rounded : int64_to_float32 large ≡ finite true (16777216 * 2 ^ 1074)
unfolding int64_to_float32
rounded = refl

carried_up : int64_to_float32 (pos 33554431) ≡ finite false (33554432 * 2 ^ 1074)
unfolding int64_to_float32
carried_up = refl

int64_to_float32-RoundsTo_example : RoundsTo true 16777217 (int64_to_float32 large) (5 * 2 ^ 3)
int64_to_float32-RoundsTo_example = int64_to_float32-RoundsTo large 5 3 refl (omega arith)

abbrev minus_zero : DynamicValue
minus_zero = float_value (finite true 0)

abbrev zero_float : DynamicValue
zero_float = float_value (finite false 0)

-- One code point beyond the basic plane and its two surrogates are the same units.
surrogates :
    dynamic_value_equals
      (string_value (some (0x10400 ∷ [])))
      (string_value (some (0xD801 ∷ 0xDC00 ∷ [])))
    ≡ true
unfolding dynamic_value_equals
surrogates = refl

dynamic_value_equals-content_example :
    (dynamic_value_equals minus_zero zero_float ≡ true)
    ↔ Shared (content minus_zero) (content zero_float)
dynamic_value_equals-content_example = dynamic_value_equals-content minus_zero zero_float

abbrev huge : DynamicValue
huge = float_value (finite true (2 ^ 1140))

huge_checked : check_payload huge ≡ ok huge
unfolding check_payload
huge_checked = refl

check_payload-Coerced_example : Coerced huge
check_payload-Coerced_example = check_payload-Coerced huge huge_checked
