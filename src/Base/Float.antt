-- ===== src/Base/Float.antt =====
-- Python's floats, IEEE-754 doubles: a finite one is a sign and a magnitude, which is a whole number
-- of units of 2^-1074, the least positive double.
use Prim.Native.Nat.{ℕ, zero, suc, ◌+◌, ◌-◌, ◌*◌, ◌/◌, ◌%◌, ◌^◌}
use mathlib.Core.Bool.{Bool, true, false, ◌&&◌, ◌||◌}
use hsr_battle_agent.Base.Tests.{ltb, ◌==◌, if◌then◌else◌}
use hsr_battle_agent.Base.Exceptions.{Result, ok, raise, value_error, overflow_error}
use hsr_battle_agent.Base.Int.{ℤ, pos, negsuc, pos_part, neg_part}

-- The Boolean says that the sign is negative.
pub data Float : Type 0 where
  nan : Float
  infinite : Bool → Float
  finite : Bool → ℕ → Float

-- The number 1 in units.
unfoldable pub unit : ℕ
unit = 2 ^ 1074

abbrev pub eqb_Bool : Bool → Bool → Bool
eqb_Bool true true = true
eqb_Bool true false = false
eqb_Bool false true = false
eqb_Bool false false = true

-- `lhs == rhs`: NaN differs from itself, and the two zeros are equal.
unfoldable pub eqb_Float : Float → Float → Bool
eqb_Float (infinite s) (infinite t) = eqb_Bool s t
eqb_Float (finite s m) (finite t n) = m == n && (m == 0 || eqb_Bool s t)
eqb_Float nan _ = false
eqb_Float (infinite s) nan = false
eqb_Float (infinite s) (finite t n) = false
eqb_Float (finite s m) nan = false
eqb_Float (finite s m) (infinite t) = false

-- An integer of a sign and a size.
abbrev pub signed : Bool → ℕ → ℤ
signed true zero = pos 0
signed true (suc n) = negsuc n
signed false n = pos n

-- `int.bit_length` of a number that is not negative, on fuel that bounds it.
unfoldable pub bit_length_within : ℕ → ℕ → ℕ
bit_length_within zero n = 0
bit_length_within (suc fuel) n = elim (n == 0) [
  | true ↦ 0
  | false ↦ suc (bit_length_within fuel (n / 2))
]

unfoldable pub bit_length : ℕ → ℕ
unfolding bit_length_within
bit_length n = bit_length_within n n

-- The multiple of `step` nearest to `n`, the even one on a tie, divided by `step`.
unfoldable pub round_half_even : ℕ → ℕ → ℕ
round_half_even n step =
    let quotient = n / step in
    let twice_remainder = n % step * 2 in
    if ltb step twice_remainder || (twice_remainder == step && quotient % 2 == 1)
    then quotient + 1
    else quotient

-- `float(value)`: the nearest double to an integer below 2^1023, by 53 bits.
unfoldable pub float_of_int : ℤ → Float
unfolding bit_length round_half_even unit
float_of_int value =
    let magnitude = pos_part value + neg_part value in
    let step = 2 ^ (bit_length magnitude - 53) in
    finite (ltb 0 (neg_part value)) (round_half_even magnitude step * step * unit)

-- `int(value)`: the part before the point, where there is one.
unfoldable pub double_to_int : Float → Result ℤ
unfolding unit
double_to_int nan = raise value_error
double_to_int (infinite negative) = raise overflow_error
double_to_int (finite negative m) = ok (signed negative (m / unit))
