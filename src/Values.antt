-- ===== src/Values.antt =====
-- src/hsr_battle_agent/battle_ir/values.py and battle_runtime/values.py: the tagged cells of the
-- game's DynamicValue, their equality and their coercions. A string is its code points. The checks
-- of an operand's class are those of the model's types.
pub mod Equality
pub mod Ranges
pub mod Float32
use hsr_battle_agent.Base.{
  Bool, List, Option, Result, [], false, guard, if◌then◌else◌, leb, length, ltb, none, ok, some,
  true, type_error, value_error, zero, ℕ, ◌%◌, ◌&&◌, ◌*◌, ◌+◌, ◌++◌, ◌-◌, ◌/◌, ◌==◌, ◌>>◌, ◌>>=◌,
  ◌^◌, ◌||◌, ◌∷◌,
}
use hsr_battle_agent.Base.Int.{eqb_ℤ, fmod, leb_ℤ, negsuc, pos, ℤ}
use hsr_battle_agent.Base.Float.{
  Float, eqb_Bool, eqb_Float, finite, float_of_int, infinite, nan, signed, unit,
}
use hsr_battle_agent.FixPoint.{int64_max, int64_min}

-- A handle whose equality is that of its id; `contents` takes no part in it.
pub record ObjectRef : Type 0 where
  pub ref_id : ℕ

-- A cell by its tag, INT 0 to NULL 6. The payload of a BOOL is the raw union.
pub data DynamicValue : Type 0 where
  int_value : ℤ → DynamicValue
  float_value : Float → DynamicValue
  bool_value : ℤ → DynamicValue
  array_ref : ObjectRef → DynamicValue
  map_ref : ObjectRef → DynamicValue
  string_value : Option (List ℕ) → DynamicValue
  null_value : DynamicValue

abbrev pub is_int64 : ℤ → Bool
is_int64 payload = leb_ℤ int64_min payload && leb_ℤ payload int64_max

-- `DynamicValue.__post_init__`
unfoldable pub check_payload : DynamicValue → Result DynamicValue
check_payload (int_value payload) = guard (is_int64 payload) value_error >> ok (int_value payload)
check_payload (bool_value payload) = guard (is_int64 payload) value_error >> ok (bool_value payload)
check_payload (float_value payload) = ok (float_value payload)
check_payload (array_ref payload) = ok (array_ref payload)
check_payload (map_ref payload) = ok (map_ref payload)
check_payload (string_value payload) = ok (string_value payload)
check_payload null_value = ok null_value

-- `dynamic_value_type`
unfoldable pub dynamic_value_type : DynamicValue → ℕ
dynamic_value_type (int_value payload) = 0
dynamic_value_type (float_value payload) = 1
dynamic_value_type (bool_value payload) = 2
dynamic_value_type (array_ref payload) = 3
dynamic_value_type (map_ref payload) = 4
dynamic_value_type (string_value payload) = 5
dynamic_value_type null_value = 6

-- The two bytes of a UTF-16 code unit, the low one first.
abbrev unit_bytes : ℕ → List ℕ
unit_bytes code_unit = code_unit % 256 ∷ code_unit / 256 ∷ []

-- `encode("utf-16-le", errors="surrogatepass")`: a code point from 0x10000 on is two units, and a
-- lone surrogate is itself.
abbrev encode_point : ℕ → List ℕ
encode_point point =
    if ltb point 0x10000
    then unit_bytes point
    else unit_bytes (0xD800 + (point - 0x10000) / 1024)
      ++ unit_bytes (0xDC00 + (point - 0x10000) % 1024)

unfoldable pub encode_utf16 : List ℕ → List ℕ
encode_utf16 [] = []
encode_utf16 (point ∷ text) = encode_point point ++ encode_utf16 text

-- `==` of two byte strings
unfoldable pub eqb_bytes : List ℕ → List ℕ → Bool
eqb_bytes [] [] = true
eqb_bytes [] (b ∷ bs) = false
eqb_bytes (a ∷ as_) [] = false
eqb_bytes (a ∷ as_) (b ∷ bs) = a == b && eqb_bytes as_ bs

-- `_string_equals`. The first test, that both are one object, returns what the others do.
unfoldable pub string_equals : Option (List ℕ) → Option (List ℕ) → Bool
unfolding encode_utf16 eqb_bytes
string_equals none none = true
string_equals none (some right) = false
string_equals (some left) none = false
string_equals (some left) (some right) =
    if length (encode_utf16 left) == length (encode_utf16 right)
    then eqb_bytes (encode_utf16 left) (encode_utf16 right)
    else false

-- `payload == 1`
abbrev pub is_one : ℤ → Bool
is_one payload = eqb_ℤ payload (pos 1)

-- The comparison of two cells of one tag; a NULL is beyond the tag 5.
unfoldable pub dynamic_value_equals : DynamicValue → DynamicValue → Bool
unfolding string_equals eqb_Float
dynamic_value_equals (int_value left) (int_value right) = eqb_ℤ left right
dynamic_value_equals (float_value left) (float_value right) = eqb_Float left right
dynamic_value_equals (bool_value left) (bool_value right) = eqb_Bool (is_one left) (is_one right)
dynamic_value_equals (array_ref left) (array_ref right) = left.ref_id == right.ref_id
dynamic_value_equals (map_ref left) (map_ref right) = left.ref_id == right.ref_id
dynamic_value_equals (string_value left) (string_value right) = string_equals left right
dynamic_value_equals _ _ = false

-- `_double_to_int64_trunc` and `_double_to_int32_trunc`: `cvttsd2si` at a width of `bits + 1`.
unfoldable pub double_to_int_trunc : ℕ → Float → ℤ
unfolding unit
double_to_int_trunc bits nan = negsuc (2 ^ bits - 1)
double_to_int_trunc bits (infinite negative) = negsuc (2 ^ bits - 1)
double_to_int_trunc bits (finite false m) =
    if leb (2 ^ bits * unit) m then negsuc (2 ^ bits - 1) else pos (m / unit)
double_to_int_trunc bits (finite true m) =
    if ltb (2 ^ bits * unit) m then negsuc (2 ^ bits - 1) else signed true (m / unit)

-- `_int32_from_low32`
unfoldable pub int32_from_low32 : ℤ → ℤ
int32_from_low32 value =
    let bits = fmod value (2 ^ 32) in
    if leb bits (2 ^ 31 - 1) then pos bits else negsuc (2 ^ 32 - bits - 1)

abbrev truth : ℤ → ℤ
truth payload = if is_one payload then pos 1 else pos 0

unfoldable pub dynamic_value_to_int : DynamicValue → ℤ
unfolding double_to_int_trunc int32_from_low32
dynamic_value_to_int (bool_value payload) = truth payload
dynamic_value_to_int (float_value payload) = double_to_int_trunc 31 payload
dynamic_value_to_int (int_value payload) = int32_from_low32 payload
dynamic_value_to_int _ = pos 0

unfoldable pub dynamic_value_to_uint : DynamicValue → ℤ
unfolding double_to_int_trunc
dynamic_value_to_uint (bool_value payload) = truth payload
dynamic_value_to_uint (float_value payload) = pos (fmod (double_to_int_trunc 63 payload) (2 ^ 32))
dynamic_value_to_uint (int_value payload) = pos (fmod payload (2 ^ 32))
dynamic_value_to_uint _ = pos 0

unfoldable pub dynamic_value_to_long : DynamicValue → ℤ
unfolding double_to_int_trunc
dynamic_value_to_long (bool_value payload) = truth payload
dynamic_value_to_long (float_value payload) = double_to_int_trunc 63 payload
dynamic_value_to_long (int_value payload) = payload
dynamic_value_to_long _ = pos 0

-- `1.0 if payload == 1 else 0.0`
abbrev pub float_truth : ℤ → Float
float_truth payload = if is_one payload then finite false unit else finite false 0

unfoldable pub dynamic_value_to_double : DynamicValue → Float
unfolding float_of_int unit
dynamic_value_to_double (bool_value payload) = float_truth payload
dynamic_value_to_double (float_value payload) = payload
dynamic_value_to_double (int_value payload) = float_of_int payload
dynamic_value_to_double _ = finite false 0

unfoldable pub dynamic_value_to_bool : DynamicValue → Bool
dynamic_value_to_bool (bool_value payload) = is_one payload
dynamic_value_to_bool (int_value payload) = is_one payload
dynamic_value_to_bool _ = false

unfoldable pub dynamic_value_string : DynamicValue → Option (List ℕ)
dynamic_value_string (string_value payload) = payload
dynamic_value_string _ = none

unfoldable pub dynamic_value_is_array : DynamicValue → Bool
dynamic_value_is_array (array_ref payload) = true
dynamic_value_is_array _ = false

unfoldable pub dynamic_value_is_map : DynamicValue → Bool
dynamic_value_is_map (map_ref payload) = true
dynamic_value_is_map _ = false

unfoldable pub dynamic_value_is_null : DynamicValue → Bool
dynamic_value_is_null null_value = true
dynamic_value_is_null _ = false
