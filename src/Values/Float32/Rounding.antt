-- ===== src/Values/Float32/Rounding.antt =====
-- The coercion of an int64 to a float of 32 bits rounds to the nearest.
use native.Mathlib.Decide.{dec_lt}
use native.Mathlib.Nat.{mul_assoc, mul-le-mul_right, mul-le-mul_left, pow-le-pow_right}
use hsr_battle_agent.Base.{
  Bool, arith, Bool-cases, false, true, inl, inr, ltb, ==_iff, ℕ, suc, ◌*◌, ◌+◌, ◌-◌, ◌<◌, ◌≤◌,
  ◌==◌, ◌^◌, ◌≡◌, ap, sym, ◌∙◌,
}
use hsr_battle_agent.Base.Int.{ℤ, pos, negsuc, neg_part, pos_part}
use hsr_battle_agent.Base.Float.{
  Float, finite, round_half_even, unit, bit_length, bit_length_within,
}
use hsr_battle_agent.Base.Powers.{
  two_pow_add, two_pow_suc, two_pow-pos, lt-bit_length, bit_length-pos, two_pow_bit_length-le,
}
use hsr_battle_agent.Values.{is_int64}
use hsr_battle_agent.Values.Float32.{int64_to_float32, significand_of}
use hsr_battle_agent.Values.Float32.Nearest.{Best, round_half_even-Best, round_half_even-Bounds}
use hsr_battle_agent.Values.Float32.Packing.{packed, packed_lem, two_pow-unit}

-- `result` is a float of 24 bits of the magnitude `q * 2 ^ s`, and the candidate `c` is no better.
abbrev pub RoundsTo : Bool → ℕ → Float → ℕ → Type 0
RoundsTo negative n result c =
    (q : ℕ) × (s : ℕ) × (result ≡ finite negative (q * 2 ^ s * unit))
    × (q ≤ 2 ^ 24)
    × Best n q (2 ^ s) c

significand-exact : (n e : ℕ) → e ≤ 23 → significand_of n e ≡ n * 2 ^ (23 - e)
unfolding significand_of
significand-exact n e h = ground arith

significand-rounded : (n e : ℕ) → 23 < e → significand_of n e ≡ round_half_even n (2 ^ (e - 23))
unfolding significand_of
significand-rounded n e h = ground arith

in_units : (q s : ℕ) → q * 2 ^ (s + 1074) ≡ q * 2 ^ s * unit
in_units q s = ap (λ (x : ℕ). q * x) (two_pow-unit s) ∙ sym (mul_assoc q (2 ^ s) unit)

two_pow_split : (a b c : ℕ) → a + b ≡ c → 2 ^ c ≡ 2 ^ a * 2 ^ b
two_pow_split a b c e = sym (ap (λ (x : ℕ). 2 ^ x) e) ∙ two_pow_add a b

-- A magnitude of up to 24 bits is exact.
exact_scale : (n e : ℕ) → e ≤ 23 → n * 2 ^ (23 - e) * 2 ^ (e + 1051) ≡ n * 2 ^ 0 * unit
exact_scale n e h =
    mul_assoc n (2 ^ (23 - e)) (2 ^ (e + 1051))
    ∙ ap (λ (x : ℕ). n * x) (sym (two_pow_split (23 - e) (e + 1051) (0 + 1074) (omega arith)))
    ∙ in_units n 0

exact_bounds :
    (n e : ℕ)
    → 2 ^ e ≤ n
    → n < 2 * 2 ^ e
    → e ≤ 23
    → (2 ^ 23 ≤ n * 2 ^ (23 - e)) × (n * 2 ^ (23 - e) ≤ 2 ^ 24)
exact_bounds n e low high h = omega (
  arith,
  two_pow_split e (23 - e) 23 (omega arith),
  mul-le-mul_right (2 ^ (23 - e)) low,
  mul-le-mul_right {m = n} {n = 2 * 2 ^ e} (2 ^ (23 - e)) (omega arith),
  mul_assoc 2 (2 ^ e) (2 ^ (23 - e)),
)

le_of_scaled : (n k : ℕ) → 0 < k → n * k ≤ 2 ^ 24 → n ≤ 2 ^ 24
le_of_scaled n k p h = omega (arith, mul-le-mul_left {m = 1} {n = k} n p)

Best-exact : (n c : ℕ) → Best n n (2 ^ 0) c
Best-exact n c = ground arith

small-RoundsTo :
    (negative : Bool) (n e c : ℕ)
    → 2 ^ e ≤ n
    → n < 2 * 2 ^ e
    → e ≤ 23
    → RoundsTo negative n (packed negative e (significand_of n e)) c
small-RoundsTo negative n e c low high h =
    let bounds = exact_bounds n e low high h in
    (
      n,
      0,
      rw (significand-exact n e h) (
          packed_lem negative e (n * 2 ^ (23 - e)) (omega arith) bounds.0 bounds.1
          ∙ ap (finite negative) (exact_scale n e h)),
      le_of_scaled n (2 ^ (23 - e)) (two_pow-pos (23 - e)) bounds.1,
      Best-exact n c,
    )

large_scale : (q e : ℕ) → 23 < e → q * 2 ^ (e + 1051) ≡ q * 2 ^ (e - 23) * unit
large_scale q e h =
    ap (λ (x : ℕ). q * 2 ^ x) (let i : e + 1051 ≡ e - 23 + 1074 = omega arith in i)
    ∙ in_units q (e - 23)

large-RoundsTo :
    (negative : Bool) (n e m j : ℕ)
    → 2 ^ e ≤ n
    → n < 2 * 2 ^ e
    → 23 < e
    → e ≤ 63
    → m < 2 ^ 24
    → RoundsTo negative n (packed negative e (significand_of n e)) (m * 2 ^ j)
large-RoundsTo negative n e m j low high h top lt =
    let power = two_pow_split 23 (e - 23) e (omega arith) in
    let least : 2 ^ 23 * 2 ^ (e - 23) ≤ n = omega arith in
    let bounds = round_half_even-Bounds n (e - 23) least (omega arith) in
    let q = round_half_even n (2 ^ (e - 23)) in
    (
      q,
      e - 23,
      rw (significand-rounded n e h) (
          packed_lem negative e q top bounds.0 bounds.1 ∙ ap (finite negative) (large_scale q e h)),
      bounds.1,
      round_half_even-Best n (e - 23) m j least lt,
    )

two_pow_small : (e n : ℕ) → 2 ^ e ≤ n → n < 2 ^ 64 → e ≤ 63
two_pow_small e n low high = elim (dec_lt 63 e) [
  | yes h ↦ absurd (omega (arith, pow-le-pow_right {n = 2} (omega arith) {i = 64} {j = e} h))
  | no h ↦ omega arith
]

leading_bit : (n : ℕ) → 0 < n → (2 ^ (bit_length n - 1) ≤ n) × (n < 2 * 2 ^ (bit_length n - 1))
unfolding bit_length
leading_bit n p =
    let high = lt-bit_length n n (omega arith) in
    let positive : 0 < bit_length_within n n = bit_length-pos n p in
    let e : bit_length_within n n ≡ suc (bit_length_within n n - 1) = omega arith in
    let power : 2 ^ bit_length_within n n ≡ 2 * 2 ^ (bit_length_within n n - 1) =
      ap (λ (x : ℕ). 2 ^ x) e ∙ two_pow_suc (bit_length_within n n - 1) in
    omega (arith, power, high, two_pow_bit_length-le n n (omega arith) p)

nonzero-RoundsTo :
    (negative : Bool) (n m j : ℕ)
    → 0 < n
    → n < 2 ^ 64
    → m < 2 ^ 24
    → RoundsTo negative n
        (packed negative (bit_length n - 1) (significand_of n (bit_length n - 1)))
        (m * 2 ^ j)
nonzero-RoundsTo negative n m j p range lt =
    let bit = leading_bit n p in
    elim (dec_lt 23 (bit_length n - 1)) [
      | yes large ↦
          large-RoundsTo negative n (bit_length n - 1) m j bit.0 bit.1 large
            (two_pow_small (bit_length n - 1) n bit.0 range) lt
      | no small ↦
          small-RoundsTo negative n (bit_length n - 1) (m * 2 ^ j) bit.0 bit.1 (omega arith)
    ]

size-lt : (value : ℤ) → is_int64 value ≡ true → pos_part value + neg_part value < 2 ^ 64
size-lt value h = ground arith

no_units : 0 ≡ 0 * 2 ^ 0 * unit
no_units = omega arith

zero-RoundsTo :
    (value : ℤ) (c : ℕ)
    → pos_part value + neg_part value ≡ 0
    → RoundsTo (ltb 0 (neg_part value)) (pos_part value + neg_part value) (finite false 0) c
zero-RoundsTo (pos n) c z = (0, 0, ap (finite false) no_units, omega arith, ground arith)
zero-RoundsTo (negsuc n) c z = absurd (omega arith)

-- For an int64 and any float `m * 2 ^ j` of 24 bits, _int64_to_float32 returns a float of the sign of
-- the integer and of at most 24 bits that is that float, or nearer to the integer, or as near with an
-- even significand.
pub int64_to_float32-RoundsTo :
    (value : ℤ) (m j : ℕ)
    → is_int64 value ≡ true
    → m < 2 ^ 24
    → RoundsTo
        (ltb 0 (neg_part value))
        (pos_part value + neg_part value)
        (int64_to_float32 value)
        (m * 2 ^ j)
unfolding int64_to_float32
int64_to_float32-RoundsTo value m j checked lt =
    elim (Bool-cases (pos_part value + neg_part value == 0)) [
      | inl z ↦ rw z (zero-RoundsTo value (m * 2 ^ j) ((==_iff _ 0).0 z))
      | inr z ↦ rw z (
          nonzero-RoundsTo (ltb 0 (neg_part value)) (pos_part value + neg_part value) m j
            (ground arith) (size-lt value checked) lt)
    ]
