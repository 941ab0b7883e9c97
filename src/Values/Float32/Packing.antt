-- ===== src/Values/Float32/Packing.antt =====
-- The word that _int64_to_float32 puts together, read back by struct.unpack.
use native.Mathlib.Nat.{mul_assoc, add_assoc}
use hsr_battle_agent.Base.{
  Bool, arith, Bool-cases, false, true, inl, inr, leb, leb→le, ℕ, suc, ◌%◌, ◌*◌, ◌+◌, ◌/◌, ◌≤◌,
  ◌==◌, ◌^◌, ◌≡◌, ap, sym, ◌∙◌, if◌then◌else◌,
}
use hsr_battle_agent.Base.Float.{Float, finite, unit}
use hsr_battle_agent.Base.Powers.{two_pow_add, two_pow_suc}
use hsr_battle_agent.Values.Float32.{pack_fields, sign_bit, unpack_float32}

unpack_fields :
    (bits exponent fraction : ℕ) (negative : Bool)
    → (bits / 2 ^ 31 == 1) ≡ negative
    → bits / 2 ^ 23 % 256 ≡ exponent + 127
    → bits % 2 ^ 23 ≡ fraction
    → ((exponent + 127 == 255) ≡ false) × ((exponent + 127 == 0) ≡ false)
    → unpack_float32 bits ≡ finite negative ((2 ^ 23 + fraction) * 2 ^ (exponent + 127 + 924))
unfolding unpack_float32
unpack_fields bits exponent fraction negative s e f (top, bottom) = rw (s, e, f, top, bottom)

pub unpack-pack :
    (negative : Bool) (exponent significand : ℕ)
    → exponent ≤ 64
    → unpack_float32 (pack_fields (sign_bit negative) exponent significand)
      ≡ finite negative ((2 ^ 23 + significand % 2 ^ 23) * 2 ^ (exponent + 127 + 924))
unpack-pack true exponent significand h =
    unpack_fields _ exponent _ true (ground arith) (omega arith) (omega arith)
      (ground arith, ground arith)
unpack-pack false exponent significand h =
    unpack_fields _ exponent _ false (ground arith) (omega arith) (omega arith)
      (ground arith, ground arith)

-- The significand that is stored, with the exponent that it is stored with.
abbrev pub packed : Bool → ℕ → ℕ → Float
packed negative exponent significand =
    if leb (2 ^ 24) significand
    then unpack_float32 (pack_fields (sign_bit negative) (exponent + 1) (significand / 2))
    else unpack_float32 (pack_fields (sign_bit negative) exponent significand)

pub two_pow-unit : (s : ℕ) → 2 ^ (s + 1074) ≡ 2 ^ s * unit
unfolding unit
two_pow-unit s = two_pow_add s 1074

power_index : (exponent : ℕ) → exponent + 1 + 127 + 924 ≡ suc (exponent + 1051)
power_index exponent = omega arith

carried : (q : ℕ) → q ≤ 2 ^ 24 → 2 ^ 24 ≤ q → (2 ^ 23 + q / 2 % 2 ^ 23) * 2 ≡ q
carried q high low = omega arith

stored : (q : ℕ) → 2 ^ 23 ≤ q → leb (2 ^ 24) q ≡ false → 2 ^ 23 + q % 2 ^ 23 ≡ q
stored q low plain = ground arith

double_power : (a x : ℕ) → a * 2 ^ suc x ≡ a * 2 * 2 ^ x
double_power a x = ap (λ (y : ℕ). a * y) (two_pow_suc x) ∙ sym (mul_assoc a 2 (2 ^ x))

pub packed_lem :
    (negative : Bool) (exponent q : ℕ)
    → exponent ≤ 63
    → 2 ^ 23 ≤ q
    → q ≤ 2 ^ 24
    → packed negative exponent q ≡ finite negative (q * 2 ^ (exponent + 1051))
packed_lem negative exponent q h low high = elim (Bool-cases (leb (2 ^ 24) q)) [
  | inl carry ↦
      rw (carry, unpack-pack negative (exponent + 1) (q / 2) (omega arith))
        (ap (finite negative) (
          ap (λ (x : ℕ). (2 ^ 23 + q / 2 % 2 ^ 23) * 2 ^ x) (power_index exponent)
          ∙ double_power (2 ^ 23 + q / 2 % 2 ^ 23) (exponent + 1051)
          ∙ ap (λ (x : ℕ). x * 2 ^ (exponent + 1051)) (carried q high (leb→le _ q carry))))
  | inr plain ↦
      rw (plain, unpack-pack negative exponent q (omega arith))
        (ap (finite negative) (
          ap (λ (x : ℕ). (2 ^ 23 + q % 2 ^ 23) * 2 ^ x) (add_assoc exponent 127 924)
          ∙ ap (λ (x : ℕ). x * 2 ^ (exponent + 1051)) (stored q low plain)))
]
