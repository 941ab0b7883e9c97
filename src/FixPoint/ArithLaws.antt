-- ===== src/FixPoint/ArithLaws.antt =====
-- The arithmetic of src/hsr_battle_agent/battle_runtime/property.py against the numbers that the
-- raw words stand for.
use hsr_battle_agent.Base.{
  ap, arith, if◌then◌else◌, ok, true, ℕ, ◌%◌, ◌+◌, ◌-◌, ◌<◌, ◌==◌, ◌^◌, ◌∙◌, ◌≡◌,
}
use hsr_battle_agent.Base.Int.{fdiv, negsuc, pos, ℤ, ◌*ℤ◌, ◌+ℤ◌, ◌-ℤ◌, ◌≤ℤ◌}
use hsr_battle_agent.FixPoint.{int64_max, int64_min, is_raw, mask64, to_signed64, validate_raw}
use hsr_battle_agent.FixPoint.Arith.{
  decode_fixpoint_common, encode_fixpoint_common, encode_saturated, fixedpoint_add,
  fixedpoint_multiply, fixedpoint_subtract, saturate_common,
}
use hsr_battle_agent.FixPoint.Order.{mask64-lt, scaled, scaled_word, times_128}

-- The greatest even number that is not above the argument.
abbrev pub even_floor : ℤ → ℤ
even_floor (pos n) = pos (n - n % 2)
even_floor (negsuc n) = negsuc (n - n % 2 + 1)

-- A signed qword.
abbrev pub IsInt64 : ℤ → Type 0
IsInt64 c = (int64_min ≤ℤ c) × (c ≤ℤ int64_max)

pub saturate_common-IsInt64 : (c : ℤ) → IsInt64 (saturate_common c)
unfolding saturate_common
saturate_common-IsInt64 c = ground arith

decode_word : ℕ → ℤ
decode_word word =
    if word % 2 == 1 then to_signed64 (word - word % 2) else fdiv (to_signed64 word) (2 ^ 7)

decode_word-scaled : (w : ℕ) → w < 2 ^ 64 → decode_word w ≡ fdiv (scaled_word w) 128
unfolding decode_word scaled_word
decode_word-scaled w h = ground arith

-- The common scale drops what is below 2^-26, rounding down.
pub decode-scaled : (raw : ℤ) → decode_fixpoint_common raw ≡ fdiv (scaled raw) 128
unfolding decode_fixpoint_common scaled decode_word
decode-scaled raw = decode_word-scaled (mask64 raw) (mask64-lt raw)

scaled-encode_saturated :
    (c : ℤ) → IsInt64 c → scaled (encode_saturated c) ≡ times_128 (even_floor c)
unfolding encode_saturated scaled scaled_word
scaled-encode_saturated (pos n) h = ground arith
scaled-encode_saturated (negsuc n) h = ground arith

-- Encoding and reading back a common value keeps it but for saturation and for the mode bit.
pub scaled-encode :
    (c : ℤ) → scaled (encode_fixpoint_common c) ≡ times_128 (even_floor (saturate_common c))
unfolding encode_fixpoint_common
scaled-encode c = scaled-encode_saturated (saturate_common c) (saturate_common-IsInt64 c)

fdiv-times_128 : (c : ℤ) → fdiv (times_128 c) 128 ≡ c
fdiv-times_128 (pos n) = ground arith
fdiv-times_128 (negsuc n) = ground arith

-- Decoding an encoded common value gives that value saturated to a signed qword and rounded down to an
-- even number.
pub decode-encode :
    (c : ℤ) → decode_fixpoint_common (encode_fixpoint_common c) ≡ even_floor (saturate_common c)
decode-encode c =
    decode-scaled (encode_fixpoint_common c)
    ∙ ap (λ s. fdiv s 128) (scaled-encode c)
    ∙ fdiv-times_128 (even_floor (saturate_common c))

encode_saturated-is_raw : (c : ℤ) → IsInt64 c → is_raw (encode_saturated c) ≡ true
unfolding encode_saturated
encode_saturated-is_raw (pos n) h = ground arith
encode_saturated-is_raw (negsuc n) h = ground arith

pub encode-is_raw : (c : ℤ) → is_raw (encode_fixpoint_common c) ≡ true
unfolding encode_fixpoint_common
encode-is_raw c = encode_saturated-is_raw (saturate_common c) (saturate_common-IsInt64 c)

-- On qwords the sum succeeds, and it is the sum of the two decoded values, saturated to a signed
-- qword and rounded down to an even multiple of 2^-26.
pub fixedpoint_add-decode :
    (l r : ℤ)
    → is_raw l ≡ true
    → is_raw r ≡ true
    → (v : ℤ) × (fixedpoint_add l r ≡ ok v)
      × (is_raw v ≡ true)
      × (decode_fixpoint_common v
          ≡ even_floor (saturate_common (decode_fixpoint_common l +ℤ decode_fixpoint_common r)))
unfolding fixedpoint_add validate_raw
fixedpoint_add-decode l r hl hr = (
  encode_fixpoint_common (decode_fixpoint_common l +ℤ decode_fixpoint_common r),
  rw (hl, hr),
  encode-is_raw _,
  decode-encode _,
)

-- On qwords the difference succeeds, and it is the difference of the two decoded values, saturated to
-- a signed qword and rounded down to an even multiple of 2^-26.
pub fixedpoint_subtract-decode :
    (l r : ℤ)
    → is_raw l ≡ true
    → is_raw r ≡ true
    → (v : ℤ) × (fixedpoint_subtract l r ≡ ok v)
      × (is_raw v ≡ true)
      × (decode_fixpoint_common v
          ≡ even_floor (saturate_common (decode_fixpoint_common l -ℤ decode_fixpoint_common r)))
unfolding fixedpoint_subtract validate_raw
fixedpoint_subtract-decode l r hl hr = (
  encode_fixpoint_common (decode_fixpoint_common l -ℤ decode_fixpoint_common r),
  rw (hl, hr),
  encode-is_raw _,
  decode-encode _,
)

-- On qwords the product succeeds, and it is the product of the two decoded values over 2^26, rounded
-- down, saturated to a signed qword and rounded down to an even multiple of 2^-26.
pub fixedpoint_multiply-decode :
    (l r : ℤ)
    → is_raw l ≡ true
    → is_raw r ≡ true
    → (v : ℤ) × (fixedpoint_multiply l r ≡ ok v)
      × (is_raw v ≡ true)
      × (decode_fixpoint_common v
          ≡ even_floor (
              saturate_common
                (fdiv (decode_fixpoint_common l *ℤ decode_fixpoint_common r) (2 ^ 26))))
unfolding fixedpoint_multiply validate_raw
fixedpoint_multiply-decode l r hl hr = (
  encode_fixpoint_common (fdiv (decode_fixpoint_common l *ℤ decode_fixpoint_common r) (2 ^ 26)),
  rw (hl, hr),
  encode-is_raw _,
  decode-encode _,
)
