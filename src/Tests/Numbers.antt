-- ===== src/Tests/Numbers.antt =====
-- Fixed-point words and the sort of integers.
use hsr_battle_agent.Base.{ok, refl, true, ◌^◌, ◌≡◌}
use hsr_battle_agent.Base.Int.{compare_ℤ, fdiv, pos, ℤ, ◌*ℤ◌, ◌+ℤ◌, ◌-ℤ◌}
use hsr_battle_agent.FixPoint.{fixpoint_compare, is_raw}
use hsr_battle_agent.FixPoint.Arith.{
  decode_fixpoint_common, fixedpoint_add, fixedpoint_multiply, fixedpoint_subtract, saturate_common,
}
use hsr_battle_agent.FixPoint.ArithLaws.{
  even_floor, fixedpoint_add-decode, fixedpoint_multiply-decode, fixedpoint_subtract-decode,
}
use hsr_battle_agent.FixPoint.Order.{fixpoint_compare-scaled, scaled}

abbrev pub one : ℤ
one = pos (2 ^ 33)

abbrev pub two : ℤ
two = pos (2 ^ 34)

fixpoint_compare-scaled_example : fixpoint_compare one two ≡ compare_ℤ (scaled one) (scaled two)
fixpoint_compare-scaled_example = fixpoint_compare-scaled one two

fixedpoint_add-decode_example :
    (v : ℤ) × (fixedpoint_add one two ≡ ok v)
    × (is_raw v ≡ true)
    × (decode_fixpoint_common v
        ≡ even_floor (saturate_common (decode_fixpoint_common one +ℤ decode_fixpoint_common two)))
fixedpoint_add-decode_example = fixedpoint_add-decode one two refl refl

fixedpoint_subtract-decode_example :
    (v : ℤ) × (fixedpoint_subtract one two ≡ ok v)
    × (is_raw v ≡ true)
    × (decode_fixpoint_common v
        ≡ even_floor (saturate_common (decode_fixpoint_common one -ℤ decode_fixpoint_common two)))
fixedpoint_subtract-decode_example = fixedpoint_subtract-decode one two refl refl

fixedpoint_multiply-decode_example :
    (v : ℤ) × (fixedpoint_multiply one two ≡ ok v)
    × (is_raw v ≡ true)
    × (decode_fixpoint_common v
        ≡ even_floor (
            saturate_common
              (fdiv (decode_fixpoint_common one *ℤ decode_fixpoint_common two) (2 ^ 26))))
fixedpoint_multiply-decode_example = fixedpoint_multiply-decode one two refl refl
