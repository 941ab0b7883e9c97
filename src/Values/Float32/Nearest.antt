-- ===== src/Values/Float32/Nearest.antt =====
-- Rounding half to even: no float of 24 bits is nearer, and a tie goes to an even significand.
use hsr_battle_agent.Base.{
  arith, inl, inr, ℕ, suc, ◌%◌, ◌*◌, ◌+◌, ◌-◌, ◌/◌, ◌<◌, ◌≤◌, ◌^◌, ◌≡◌, ◌⊎◌, ap, sym, ◌∙◌,
}
use native.Mathlib.Nat.{suc-mul, mul-le-mul_right, le-div_iff_mul-le, pow-le-pow_right, mul_assoc}
use native.Mathlib.Decide.{dec_lt}
use hsr_battle_agent.Base.Float.{round_half_even}
use hsr_battle_agent.Base.Powers.{two_pow_add, two_pow_suc, two_pow-pos}

abbrev pub dist : ℕ → ℕ → ℕ
dist a b = (a - b) + (b - a)

-- `q * step` is the candidate `c`, or nearer to `n`, or as near with an even `q`.
abbrev pub Best : ℕ → ℕ → ℕ → ℕ → Type 0
Best n q step c =
    (q * step ≡ c)
    ⊎ ((dist n (q * step) < dist n c) ⊎ ((dist n (q * step) ≡ dist n c) × (q % 2 ≡ 0)))

-- The rounded quotient `q` of `n ≡ k * step + r`.
abbrev Rounded : ℕ → ℕ → ℕ → ℕ → Type 0
Rounded q step k r =
    ((q ≡ k) × (r * 2 ≤ step) × ((r * 2 < step) ⊎ (k % 2 ≡ 0)))
    ⊎ ((q ≡ suc k) × (step ≤ r * 2) × ((step < r * 2) ⊎ (suc k % 2 ≡ 0)))

round_half_even-Rounded : (n step : ℕ) → Rounded (round_half_even n step) step (n / step) (n % step)
unfolding round_half_even
round_half_even-Rounded n step = ground arith

div-mod : (n step : ℕ) → 0 < step → (n ≡ n / step * step + n % step) × (n % step < step)
div-mod n step p = (grind arith, grind arith)

mul_gap : (a b step : ℕ) → a < b → a * step + step ≤ b * step
mul_gap a b step h = grind arith

-- `n` lies between the multiples `low` and `low + step`; the candidate `c` lies outside.
below_wins :
    (n q step low r c : ℕ)
    → n ≡ low + r
    → q * step ≡ low
    → r * 2 ≤ step
    → (r * 2 < step) ⊎ (q % 2 ≡ 0)
    → (c ≤ low) ⊎ (low + step ≤ c)
    → Best n q step c
below_wins n q step low r c e d h even at = ground arith

above_wins :
    (n q step low r c : ℕ)
    → n ≡ low + r
    → q * step ≡ low + step
    → step ≤ r * 2
    → r < step
    → (step < r * 2) ⊎ (q % 2 ≡ 0)
    → (c ≤ low) ⊎ (low + step ≤ c)
    → Best n q step c
above_wins n q step low r c e d h lt even at = ground arith

abbrev Outside : ℕ → ℕ → ℕ → Type 0
Outside low step c = (c ≤ low) ⊎ (low + step ≤ c)

Best-Outside :
    (n q step k r c : ℕ)
    → n ≡ k * step + r
    → r < step
    → Rounded q step k r
    → Outside (k * step) step c
    → Best n q step c
Best-Outside n q step k r c e lt (inl (d, low, even)) at =
    below_wins n q step (k * step) r c e (ap (λ (x : ℕ). x * step) d) low (ground arith) at
Best-Outside n q step k r c e lt (inr (d, high, even)) at =
    above_wins n q step (k * step) r c e (ap (λ (x : ℕ). x * step) d ∙ suc-mul k step) high lt
      (ground arith) at

-- A multiple of the step is outside.
Outside-multiple : (k t step : ℕ) → Outside (k * step) step (t * step)
Outside-multiple k t step = elim (dec_lt k t) [
  | yes lt ↦ inr (mul_gap k t step lt)
  | no ge ↦ inl (mul-le-mul_right step (omega arith))
]

coarse_eq : (s m j : ℕ) → s ≤ j → m * 2 ^ j ≡ m * 2 ^ (j - s) * 2 ^ s
coarse_eq s m j le =
    let split : (j - s) + s ≡ j = omega arith in
    let power : 2 ^ j ≡ 2 ^ (j - s) * 2 ^ s =
      sym (ap (λ (x : ℕ). 2 ^ x) split) ∙ two_pow_add (j - s) s in
    ap (λ (x : ℕ). m * x) power ∙ sym (mul_assoc m (2 ^ (j - s)) (2 ^ s))

-- A float of 24 bits is a multiple of the step, or below the least float of that step.
Outside-float : (k s m j : ℕ) → 2 ^ 23 ≤ k → m < 2 ^ 24 → Outside (k * 2 ^ s) (2 ^ s) (m * 2 ^ j)
Outside-float k s m j h lt = elim (dec_lt j s) [
  | yes fine ↦ inl (
      omega (
        arith,
        two_pow_suc j,
        pow-le-pow_right {n = 2} (omega arith) {i = suc j} {j = s} fine,
        mul-le-mul_right {m = m} {n = 2 ^ 24} (2 ^ j) (omega arith),
        mul-le-mul_right {m = 2 ^ 23} {n = k} (2 ^ s) h,
      ))
  | no coarse ↦ rw (coarse_eq s m j (omega arith)) (Outside-multiple k (m * 2 ^ (j - s)) (2 ^ s))
]

pub round_half_even-Best :
    (n s m j : ℕ)
    → 2 ^ 23 * 2 ^ s ≤ n
    → m < 2 ^ 24
    → Best n (round_half_even n (2 ^ s)) (2 ^ s) (m * 2 ^ j)
round_half_even-Best n s m j h lt =
    let d = div-mod n (2 ^ s) (two_pow-pos s) in
    Best-Outside n _ (2 ^ s) (n / 2 ^ s) (n % 2 ^ s) (m * 2 ^ j) d.0 d.1
      (round_half_even-Rounded n (2 ^ s))
      (Outside-float (n / 2 ^ s) s m j ((le-div_iff_mul-le (two_pow-pos s)).1 h) lt)

pub round_half_even-Bounds :
    (n s : ℕ)
    → 2 ^ 23 * 2 ^ s ≤ n
    → n < 2 ^ 24 * 2 ^ s
    → (2 ^ 23 ≤ round_half_even n (2 ^ s)) × (round_half_even n (2 ^ s) ≤ 2 ^ 24)
round_half_even-Bounds n s low high =
    let least = (le-div_iff_mul-le (two_pow-pos s)).1 low in
    let below : n / 2 ^ s < 2 ^ 24 = grind arith in
    ground (arith, round_half_even-Rounded n (2 ^ s), least, below)
