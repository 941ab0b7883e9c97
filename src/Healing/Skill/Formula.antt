-- ===== src/Healing/Skill/Formula.antt =====
-- src/hsr_battle_agent/battle_runtime/healing.py: the number that heal_formula_type4_ordinary computes.
use hsr_battle_agent.Base.{
  Bool-cases, ap, arith, if◌then◌else◌, inl, inr, ok, refl, true, ◌^◌, ◌∙◌, ◌≡◌,
}
use hsr_battle_agent.Base.Int.{fdiv, ltb_ℤ, negsuc, pos, ℤ, ◌*ℤ◌, ◌+ℤ◌, ◌-ℤ◌}
use hsr_battle_agent.FixPoint.{fixpoint_is_positive, is_raw, validate_raw}
use hsr_battle_agent.FixPoint.Arith.{
  decode_fixpoint_common, encode_fixpoint_common, encode_saturated, fixedpoint_add,
  fixedpoint_multiply, fixedpoint_subtract, saturate_common,
}
use hsr_battle_agent.FixPoint.ArithLaws.{
  IsInt64, decode-encode, encode-is_raw, even_floor, saturate_common-IsInt64,
}
use hsr_battle_agent.Healing.Skill.{heal_formula_type4_ordinary, one_raw}

-- A common value as an encoded word holds it: saturated to a signed qword, and even.
abbrev pub held : ℤ → ℤ
held c = even_floor (saturate_common c)

abbrev pub held_product : ℤ → ℤ → ℤ
held_product a b = held (fdiv (a *ℤ b) (2 ^ 26))

-- (missing HP * percentage + modify value) * (1 + heal ratio + taken ratio)
abbrev pub heal_number : ℤ → ℤ → ℤ → ℤ → ℤ → ℤ → ℤ
heal_number target_max target_current percentage modify_value heal_ratio taken_ratio =
    held_product
      (held (held_product (held (target_max -ℤ target_current)) percentage +ℤ modify_value))
      (held (held (pos (2 ^ 26) +ℤ heal_ratio) +ℤ taken_ratio))

abbrev pub positive_part : ℤ → ℤ
positive_part c = if ltb_ℤ (pos 0) c then c else pos 0

fdiv-mul_one : (c : ℤ) → fdiv (c *ℤ pos (2 ^ 26)) (2 ^ 26) ≡ c
unfolding ◌*ℤ◌
fdiv-mul_one (pos n) = ground arith
fdiv-mul_one (negsuc n) = ground arith

even_floor-IsInt64 : (c : ℤ) → IsInt64 c → IsInt64 (even_floor c)
even_floor-IsInt64 (pos n) h = ground arith
even_floor-IsInt64 (negsuc n) h = ground arith

saturate_common_id : (c : ℤ) → IsInt64 c → saturate_common c ≡ c
unfolding saturate_common
saturate_common_id c h = ground arith

even_floor_idem : (c : ℤ) → even_floor (even_floor c) ≡ even_floor c
even_floor_idem (pos n) = ground arith
even_floor_idem (negsuc n) = ground arith

-- The factor one leaves a held value.
held_one : (c : ℤ) → held_product (held c) (pos (2 ^ 26)) ≡ held c
held_one c =
    ap held (fdiv-mul_one (held c))
    ∙ ap even_floor (saturate_common_id (held c) (even_floor-IsInt64 _ (saturate_common-IsInt64 c)))
    ∙ even_floor_idem (saturate_common c)

is_positive-encode_saturated :
    (c : ℤ)
    → IsInt64 c
    → fixpoint_is_positive (encode_saturated c) ≡ ok (ltb_ℤ (pos 0) (even_floor c))
unfolding fixpoint_is_positive encode_saturated
is_positive-encode_saturated (pos n) h = ground arith
is_positive-encode_saturated (negsuc n) h = ground arith

-- An encoded word is positive exactly when its value is.
is_positive-encode :
    (c : ℤ) → fixpoint_is_positive (encode_fixpoint_common c) ≡ ok (ltb_ℤ (pos 0) (held c))
unfolding encode_fixpoint_common
is_positive-encode c = is_positive-encode_saturated (saturate_common c) (saturate_common-IsInt64 c)

module _ (l r : ℤ) (hl : is_raw l ≡ true) (hr : is_raw r ≡ true) where
  add-ok :
      fixedpoint_add l r
      ≡ ok (encode_fixpoint_common (decode_fixpoint_common l +ℤ decode_fixpoint_common r))
  unfolding fixedpoint_add validate_raw
  add-ok = rw (hl, hr)

  subtract-ok :
      fixedpoint_subtract l r
      ≡ ok (encode_fixpoint_common (decode_fixpoint_common l -ℤ decode_fixpoint_common r))
  unfolding fixedpoint_subtract validate_raw
  subtract-ok = rw (hl, hr)

  multiply-ok :
      fixedpoint_multiply l r
      ≡ ok (
          encode_fixpoint_common
            (fdiv (decode_fixpoint_common l *ℤ decode_fixpoint_common r) (2 ^ 26)))
  unfolding fixedpoint_multiply validate_raw
  multiply-ok = rw (hl, hr)

decode-one : decode_fixpoint_common one_raw ≡ pos (2 ^ 26)
unfolding decode_fixpoint_common
decode-one = refl

decode-zero : decode_fixpoint_common (pos 0) ≡ pos 0
unfolding decode_fixpoint_common
decode-zero = refl

decode-positive :
    (c : ℤ)
    → decode_fixpoint_common (if ltb_ℤ (pos 0) (held c) then encode_fixpoint_common c else pos 0)
      ≡ positive_part (held c)
decode-positive c = elim (Bool-cases (ltb_ℤ (pos 0) (held c))) [
  | inl p ↦ rw p (decode-encode c)
  | inr p ↦ rw p decode-zero
]

-- The common values that the formula goes through.
module _ (x1 x2 x3 x4 x5 x6 : ℤ) where
  abbrev decoded : ℤ → ℤ
  decoded = decode_fixpoint_common

  abbrev encoded : ℤ → ℤ
  encoded = encode_fixpoint_common

  abbrev base : ℤ
  base = decoded x1 -ℤ decoded x2

  abbrev scaled : ℤ
  scaled = fdiv (decoded (encoded base) *ℤ decoded x3) (2 ^ 26)

  abbrev configured : ℤ
  configured = decoded (encoded scaled) +ℤ decoded x4

  abbrev factor : ℤ
  factor = decoded one_raw +ℤ decoded x5

  abbrev ordinary_factor : ℤ
  ordinary_factor = decoded (encoded factor) +ℤ decoded x6

  abbrev ordinary : ℤ
  ordinary = fdiv (decoded (encoded configured) *ℤ decoded (encoded ordinary_factor)) (2 ^ 26)

  abbrev amount : ℤ
  amount = fdiv (decoded (encoded ordinary) *ℤ decoded one_raw) (2 ^ 26)

  formula-amount :
      is_raw x1 ≡ true
      → is_raw x2 ≡ true
      → is_raw x3 ≡ true
      → is_raw x4 ≡ true
      → is_raw x5 ≡ true
      → is_raw x6 ≡ true
      → heal_formula_type4_ordinary x1 x2 x3 x4 x5 x6
        ≡ ok (if ltb_ℤ (pos 0) (held amount) then encoded amount else pos 0)
  unfolding heal_formula_type4_ordinary
  formula-amount h1 h2 h3 h4 h5 h6 = rw (
    subtract-ok x1 x2 h1 h2,
    multiply-ok (encoded base) x3 (encode-is_raw base) h3,
    add-ok (encoded scaled) x4 (encode-is_raw scaled) h4,
    add-ok one_raw x5 refl h5,
    add-ok (encoded factor) x6 (encode-is_raw factor) h6,
    multiply-ok (encoded configured) (encoded ordinary_factor) (encode-is_raw configured)
        (encode-is_raw ordinary_factor),
    multiply-ok (encoded ordinary) one_raw (encode-is_raw ordinary) refl,
    is_positive-encode amount,
  )

  held-amount :
      held amount
      ≡ heal_number (decoded x1) (decoded x2) (decoded x3) (decoded x4) (decoded x5) (decoded x6)
  held-amount = simp (decode-encode, decode-one, held_one)

positive-is_raw :
    (c : ℤ) → is_raw (if ltb_ℤ (pos 0) (held c) then encode_fixpoint_common c else pos 0) ≡ true
positive-is_raw c = elim (Bool-cases (ltb_ℤ (pos 0) (held c))) [
  | inl p ↦ rw p (encode-is_raw c)
  | inr p ↦ rw p
]

-- On qwords the formula of type 4 succeeds with a qword. Its decoded value is (missing HP times the
-- percentage, plus the modify value) times (1 plus the heal ratio plus the taken ratio), each step
-- saturated and rounded down to an even multiple of 2^-26, and 0 where that is not positive: the last
-- factor of one changes nothing.
pub heal_formula_type4_ordinary-decode :
    (target_max target_current percentage modify_value heal_ratio taken_ratio : ℤ)
    → is_raw target_max ≡ true
    → is_raw target_current ≡ true
    → is_raw percentage ≡ true
    → is_raw modify_value ≡ true
    → is_raw heal_ratio ≡ true
    → is_raw taken_ratio ≡ true
    → (v : ℤ) × (heal_formula_type4_ordinary target_max target_current percentage modify_value
          heal_ratio taken_ratio
        ≡ ok v)
      × (is_raw v ≡ true)
      × (decode_fixpoint_common v
          ≡ positive_part (
              heal_number
                (decode_fixpoint_common target_max)
                (decode_fixpoint_common target_current)
                (decode_fixpoint_common percentage)
                (decode_fixpoint_common modify_value)
                (decode_fixpoint_common heal_ratio)
                (decode_fixpoint_common taken_ratio)))
heal_formula_type4_ordinary-decode x1 x2 x3 x4 x5 x6 h1 h2 h3 h4 h5 h6 = (
  _,
  formula-amount x1 x2 x3 x4 x5 x6 h1 h2 h3 h4 h5 h6,
  positive-is_raw (amount x1 x2 x3 x4 x5 x6),
  decode-positive (amount x1 x2 x3 x4 x5 x6) ∙ ap positive_part (held-amount x1 x2 x3 x4 x5 x6),
)
