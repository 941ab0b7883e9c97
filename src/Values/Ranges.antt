-- ===== src/Values/Ranges.antt =====
-- src/hsr_battle_agent/battle_runtime/values.py: the integer coercions and their ranges.
use hsr_battle_agent.Base.{
  arith, false, ok, true, ℕ, ◌*◌, ◌-◌, ◌/◌, ◌<◌, ◌≤◌, ◌≡◌, ◌^◌, refl, ap, sym, inl, inr, ◌⊎◌,
}
use hsr_battle_agent.Base.Int.{fmod, negsuc, pos, ℤ, ◌≤ℤ◌, ◌<ℤ◌}
use hsr_battle_agent.Base.Float.{Float, finite, infinite, nan, unit}
use hsr_battle_agent.Values.{
  DynamicValue, bool_value, check_payload, double_to_int_trunc, dynamic_value_to_int,
  dynamic_value_type, dynamic_value_to_long, dynamic_value_to_uint, float_value, int32_from_low32,
  int_value,
}

-- A signed integer of `bits + 1` bits.
abbrev pub InRange : ℕ → ℤ → Type 0
InRange bits v = (negsuc (2 ^ bits - 1) ≤ℤ v) × (v <ℤ pos (2 ^ bits))

pub record Coerced (value : DynamicValue) : Type 0 where
  pub int_range : InRange 31 (dynamic_value_to_int value)
  pub long_range : InRange 63 (dynamic_value_to_long value)
  pub uint_low32 : dynamic_value_to_uint value ≡ pos (fmod (dynamic_value_to_long value) (2 ^ 32))
  pub int_low32 :
      (dynamic_value_type value ≡ 1)
      ⊎ (dynamic_value_to_uint value ≡ pos (fmod (dynamic_value_to_int value) (2 ^ 32)))

div-le_of_le : (k n d : ℕ) → 0 < d → n ≤ k * d → n / d ≤ k
div-le_of_le k n d p h = grind arith

div-lt_of_lt : (k n d : ℕ) → n < k * d → n / d < k
div-lt_of_lt k n d h = grind arith

unit-pos : 0 < unit
unfolding unit
unit-pos = omega arith

double_to_int_trunc-InRange :
    (bits : ℕ) (f : Float) → 0 < 2 ^ bits → InRange bits (double_to_int_trunc bits f)
unfolding double_to_int_trunc
double_to_int_trunc-InRange bits nan h = omega arith
double_to_int_trunc-InRange bits (infinite s) h = omega arith
double_to_int_trunc-InRange bits (finite false m) h = ground (arith, div-lt_of_lt (2 ^ bits) m unit)
double_to_int_trunc-InRange bits (finite true m) h =
    ground (arith, unit-pos, div-le_of_le (2 ^ bits) m unit)

int32_from_low32_lem :
    (v : ℤ)
    → InRange 31 (int32_from_low32 v) × (fmod (int32_from_low32 v) (2 ^ 32) ≡ fmod v (2 ^ 32))
unfolding int32_from_low32
int32_from_low32_lem (pos n) = ground arith
int32_from_low32_lem (negsuc n) = ground arith

-- On a checked cell the coercion to int is an int32 and that to long an int64, the coercion to uint is
-- the low 32 bits of that to long and, but for a FLOAT, of that to int.
pub check_payload-Coerced : (value : DynamicValue) → check_payload value ≡ ok value → Coerced value
unfolding check_payload dynamic_value_to_int dynamic_value_to_long dynamic_value_to_uint
    dynamic_value_type
check_payload-Coerced (int_value payload) h = record {
  int_range = (int32_from_low32_lem payload).0;
  long_range = ground arith;
  uint_low32 = refl;
  int_low32 = inr (ap pos (sym (int32_from_low32_lem payload).1));
}
check_payload-Coerced (bool_value payload) h = record {
  int_range = ground arith;
  long_range = ground arith;
  uint_low32 = ground arith;
  int_low32 = inr (ground arith);
}
check_payload-Coerced (float_value payload) h = record {
  int_range = double_to_int_trunc-InRange 31 payload (omega arith);
  long_range = double_to_int_trunc-InRange 63 payload (omega arith);
  uint_low32 = refl;
  int_low32 = inl refl;
}
check_payload-Coerced _ h = record {
  int_range = omega arith;
  long_range = omega arith;
  uint_low32 = refl;
  int_low32 = inr refl;
}
