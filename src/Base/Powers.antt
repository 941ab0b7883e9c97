-- ===== src/Base/Powers.antt =====
-- Powers of two and the bit length.
use Prim.Native.Nat.{ℕ, zero, suc, ◌+◌, ◌*◌, ◌/◌, ◌^◌, ◌≤◌, ◌<◌}
use mathlib.Core.Path.{◌≡◌, refl, sym}
use native.Mathlib.Omega.{arith}
use native.Mathlib.Nat.{pow-succ', mul_assoc, zero-add, suc-add}
use hsr_battle_agent.Base.Float.{bit_length_within}

pub two_pow_suc : (n : ℕ) → 2 ^ suc n ≡ 2 * 2 ^ n
two_pow_suc n = pow-succ' 2 n

pub two_pow_add : (a b : ℕ) → 2 ^ (a + b) ≡ 2 ^ a * 2 ^ b
two_pow_add zero b = rw (zero-add b) (omega arith)
two_pow_add (suc a) b =
    rw (suc-add a b, two_pow_suc (a + b), two_pow_suc a, two_pow_add a b)
      (sym (mul_assoc 2 (2 ^ a) (2 ^ b)))

pub two_pow-pos : (n : ℕ) → 0 < 2 ^ n
two_pow-pos zero = omega arith
two_pow-pos (suc n) = omega (arith, two_pow_suc n, two_pow-pos n)

bit_length_within-zero : (fuel : ℕ) → bit_length_within fuel 0 ≡ 0
unfolding bit_length_within
bit_length_within-zero zero = refl
bit_length_within-zero (suc fuel) = refl

bit_length_within-suc :
    (fuel n : ℕ) → 0 < n → bit_length_within (suc fuel) n ≡ suc (bit_length_within fuel (n / 2))
unfolding bit_length_within
bit_length_within-suc fuel n p = ground arith

pub lt-bit_length : (fuel n : ℕ) → n ≤ fuel → n < 2 ^ bit_length_within fuel n
lt-bit_length fuel zero h = omega (arith, two_pow-pos (bit_length_within fuel 0))
lt-bit_length zero (suc n) h = absurd (omega arith)
lt-bit_length (suc fuel) (suc n) h = rw (bit_length_within-suc fuel (suc n) (omega arith)) (
    omega (
      arith,
      two_pow_suc (bit_length_within fuel (suc n / 2)),
      lt-bit_length fuel (suc n / 2) (omega arith),
    ))

pub two_pow_bit_length-le : (fuel n : ℕ) → n ≤ fuel → 0 < n → 2 ^ bit_length_within fuel n ≤ 2 * n
two_pow_bit_length-le zero n h p = absurd (omega arith)
two_pow_bit_length-le (suc fuel) zero h p = absurd (omega arith)
two_pow_bit_length-le (suc fuel) (suc zero) h p =
    rw (bit_length_within-suc fuel 1 (omega arith), bit_length_within-zero fuel) (omega arith)
two_pow_bit_length-le (suc fuel) (suc (suc n)) h p =
    rw (bit_length_within-suc fuel (suc (suc n)) (omega arith)) (
      omega (
        arith,
        two_pow_suc (bit_length_within fuel (suc (suc n) / 2)),
        two_pow_bit_length-le fuel (suc (suc n) / 2) (omega arith) (omega arith),
      ))

pub bit_length-pos : (n : ℕ) → 0 < n → 0 < bit_length_within n n
bit_length-pos zero p = absurd (omega arith)
bit_length-pos (suc n) p = rw (bit_length_within-suc n (suc n) (omega arith)) (omega arith)
