-- ===== src/Values/Float32.antt =====
-- src/hsr_battle_agent/battle_runtime/values.py: the coercion to a float of 32 bits (_as_float32,
-- _int64_to_float32, dynamic_value_to_float), with the two formats of Python's struct that it uses.
pub mod Nearest
pub mod Packing
pub mod Rounding
use hsr_battle_agent.Base.{
  Bool, Option, false, if◌then◌else◌, leb, ltb, none, some, true, ℕ, ◌%◌, ◌&&◌, ◌*◌, ◌+◌, ◌-◌, ◌/◌,
  ◌==◌, ◌^◌, ◌||◌,
}
use hsr_battle_agent.Base.Int.{neg_part, pos_part, ℤ}
use hsr_battle_agent.Base.Float.{Float, bit_length, finite, infinite, nan, round_half_even, unit}
use hsr_battle_agent.Values.{DynamicValue, bool_value, float_truth, float_value, int_value}

-- `struct.unpack("<f", struct.pack("<I", bits))`: the sign, 8 bits of exponent, 23 of fraction.
unfoldable pub unpack_float32 : ℕ → Float
unfolding unit
unpack_float32 bits =
    let negative = bits / 2 ^ 31 == 1 in
    let exponent = bits / 2 ^ 23 % 256 in
    let fraction = bits % 2 ^ 23 in
    if exponent == 255
    then (if fraction == 0 then infinite negative else nan)
    else if exponent == 0
    then finite negative (fraction * 2 ^ 925)
    else finite negative ((2 ^ 23 + fraction) * 2 ^ (exponent + 924))

-- `struct.unpack("<f", struct.pack("<f", value))` of a finite value that is not 0: the nearest
-- multiple of the spacing of the 32-bit floats there; `none` for an OverflowError.
unfoldable pub repack_float32 : Bool → ℕ → Option Float
unfolding bit_length round_half_even
repack_float32 negative m =
    let spacing = 2 ^ (925 + (bit_length m - 949)) in
    let rounded = round_half_even m spacing * spacing in
    if leb (2 ^ (1074 + 128)) rounded then none else some (finite negative rounded)

-- `_as_float32`
unfoldable pub as_float32 : Float → Float
unfolding repack_float32
as_float32 nan = nan
as_float32 (infinite negative) = infinite negative
as_float32 (finite negative m) =
    if m == 0
    then finite negative m
    else elim (repack_float32 negative m) [ some value ↦ value | none ↦ infinite negative ]

abbrev pub sign_bit : Bool → ℕ
sign_bit true = 1
sign_bit false = 0

-- The fields of the word that `_int64_to_float32` puts together; they do not overlap.
abbrev pub pack_fields : ℕ → ℕ → ℕ → ℕ
pack_fields sign exponent significand =
    sign * 2 ^ 31 + (exponent + 127) * 2 ^ 23 + significand % 2 ^ 23

-- The significand of 24 bits, before a carry: `shift` is `exponent - 23`.
unfoldable pub significand_of : ℕ → ℕ → ℕ
unfolding round_half_even
significand_of magnitude exponent =
    if leb exponent 23
    then magnitude * 2 ^ (23 - exponent)
    else round_half_even magnitude (2 ^ (exponent - 23))

-- `_int64_to_float32`
unfoldable pub int64_to_float32 : ℤ → Float
unfolding unpack_float32 significand_of bit_length
int64_to_float32 value =
    let magnitude = pos_part value + neg_part value in
    let sign = sign_bit (ltb 0 (neg_part value)) in
    let exponent = bit_length magnitude - 1 in
    let significand = significand_of magnitude exponent in
    if magnitude == 0
    then finite false 0
    else if leb (2 ^ 24) significand
    then unpack_float32 (pack_fields sign (exponent + 1) (significand / 2))
    else unpack_float32 (pack_fields sign exponent significand)

-- `dynamic_value_to_float`
unfoldable pub dynamic_value_to_float : DynamicValue → Float
unfolding as_float32 int64_to_float32
dynamic_value_to_float (bool_value payload) = float_truth payload
dynamic_value_to_float (float_value payload) = as_float32 payload
dynamic_value_to_float (int_value payload) = int64_to_float32 payload
dynamic_value_to_float _ = finite false 0
