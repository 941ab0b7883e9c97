-- ===== src/Hp/Clamp.antt =====
-- The shared clamp of direct_damage_hp_transition in src/hsr_battle_agent/battle_runtime/hp.py.
use hsr_battle_agent.Base.{Bool-cases, Result, ap, arith, inl, inr, ok, refl, true, ◌∙◌, ◌≡◌, ◌⊎◌}
use hsr_battle_agent.Base.Int.{leb_ℤ, ltb_ℤ, pos, ℤ, ◌<ℤ◌, ◌≤ℤ◌}
use hsr_battle_agent.FixPoint.{
  fixpoint_compare, fixpoint_greater, fixpoint_greater_equal, fixpoint_less, is_gt, is_lt, is_raw,
  validate_raw,
}
use hsr_battle_agent.FixPoint.Order.{fixpoint_compare-scaled, scaled, scaled_word}
use hsr_battle_agent.Hp.{clamp_hp, fp_max, fp_min, zero_raw}

abbrev AtMost : ℤ → ℤ → Type 0
AtMost a b = scaled a ≤ℤ scaled b

-- How a selection of one of two qwords ends.
abbrev Selected : (ℤ → ℤ → Type 0) → ℤ → ℤ → Result ℤ → Type 0
Selected R a b r = (v : ℤ) × (r ≡ ok v) × (is_raw v ≡ true) × R v a × R v b × ((v ≡ a) ⊎ (v ≡ b))

fp_min-Selected : (a b : ℤ) → is_raw a ≡ true → is_raw b ≡ true → Selected AtMost a b (fp_min a b)
unfolding fp_min fixpoint_less validate_raw
fp_min-Selected a b ha hb = elim (Bool-cases (is_lt (fixpoint_compare a b))) [
  | inl less ↦
      (a, rw (ha, hb, less), ha, omega arith, ground (arith, fixpoint_compare-scaled a b), inl refl)
  | inr other ↦ (
    b,
    rw (ha, hb, other),
    hb,
    ground (arith, fixpoint_compare-scaled a b),
    omega arith,
    inr refl,
  )
]

fp_max-Selected :
    (a b : ℤ) → is_raw a ≡ true → is_raw b ≡ true → Selected (λ v x. AtMost x v) a b (fp_max a b)
unfolding fp_max fixpoint_greater validate_raw
fp_max-Selected a b ha hb = elim (Bool-cases (is_gt (fixpoint_compare a b))) [
  | inl more ↦
      (a, rw (ha, hb, more), ha, omega arith, ground (arith, fixpoint_compare-scaled a b), inl refl)
  | inr other ↦ (
    b,
    rw (ha, hb, other),
    hb,
    ground (arith, fixpoint_compare-scaled a b),
    omega arith,
    inr refl,
  )
]

fixpoint_less-decides :
    (a b : ℤ)
    → is_raw a ≡ true
    → is_raw b ≡ true
    → fixpoint_less a b ≡ ok (ltb_ℤ (scaled a) (scaled b))
unfolding fixpoint_less validate_raw
fixpoint_less-decides a b ha hb = rw (ha, hb) (ground (arith, fixpoint_compare-scaled a b))

fixpoint_greater-decides :
    (a b : ℤ)
    → is_raw a ≡ true
    → is_raw b ≡ true
    → fixpoint_greater a b ≡ ok (ltb_ℤ (scaled b) (scaled a))
unfolding fixpoint_greater validate_raw
fixpoint_greater-decides a b ha hb = rw (ha, hb) (ground (arith, fixpoint_compare-scaled a b))

fixpoint_greater_equal-decides :
    (a b : ℤ)
    → is_raw a ≡ true
    → is_raw b ≡ true
    → fixpoint_greater_equal a b ≡ ok (leb_ℤ (scaled b) (scaled a))
unfolding fixpoint_greater_equal validate_raw
fixpoint_greater_equal-decides a b ha hb = rw (ha, hb) (ground (arith, fixpoint_compare-scaled a b))

scaled-zero : scaled zero_raw ≡ pos 0
unfolding scaled scaled_word
scaled-zero = refl

positive-decides :
    (a : ℤ) → is_raw a ≡ true → fixpoint_greater a zero_raw ≡ ok (ltb_ℤ (pos 0) (scaled a))
positive-decides a ha =
    fixpoint_greater-decides a zero_raw ha refl ∙ ap (λ z. ok (ltb_ℤ z (scaled a))) scaled-zero

nonnegative-decides :
    (a : ℤ) → is_raw a ≡ true → fixpoint_greater_equal a zero_raw ≡ ok (leb_ℤ (pos 0) (scaled a))
nonnegative-decides a ha =
    fixpoint_greater_equal-decides a zero_raw ha refl
    ∙ ap (λ z. ok (leb_ℤ z (scaled a))) scaled-zero

-- Where the clamp ends: below the bound `x` stays, a reached bound replaces it but for 0, and in the
-- odd cases the maximum cuts.
record Clamped (x bound max_hp : ℤ) : Type 0 where
  y : ℤ
  result : clamp_hp x bound max_hp ≡ ok y
  raw : is_raw y ≡ true
  least : scaled bound ≤ℤ scaled max_hp → scaled y ≤ℤ scaled max_hp
  nonnegative : pos 0 ≤ℤ scaled x → pos 0 <ℤ scaled max_hp → pos 0 ≤ℤ scaled y

clamp-Clamped :
    (x bound max_hp : ℤ)
    → is_raw x ≡ true
    → is_raw bound ≡ true
    → is_raw max_hp ≡ true
    → Clamped x bound max_hp
unfolding clamp_hp
clamp-Clamped x bound max_hp hx hb hm = elim (Bool-cases (ltb_ℤ (scaled x) (scaled bound))) [
  | inl below ↦ record {
    y = x;
    result = rw (fixpoint_less-decides x bound hx hb, below);
    raw = hx;
    least = λ le. ground arith;
    nonnegative = λ p q. p;
  }
  | inr above ↦ elim (Bool-cases (leb_ℤ (pos 0) (scaled x))) [
    | inr negative ↦
        cut (rw (fixpoint_less-decides x bound hx hb, above, nonnegative-decides x hx, negative))
          (λ p q. ground arith)
    | inl nonneg ↦ elim (Bool-cases (ltb_ℤ (pos 0) (scaled max_hp))) [
      | inr empty ↦
          cut
            (rw (
              fixpoint_less-decides x bound hx hb,
              above,
              nonnegative-decides x hx,
              nonneg,
              positive-decides max_hp hm,
              empty,
            ))
            (λ p q. ground arith)
      | inl positive ↦
          let (v, e, raw, from_bound, from_zero, one) = fp_max-Selected bound zero_raw hb refl in
          record {
            y = v;
            result =
                rw
                  (
                    fixpoint_less-decides x bound hx hb,
                    above,
                    nonnegative-decides x hx,
                    nonneg,
                    positive-decides max_hp hm,
                    positive,
                  )
                  e;
            raw = raw;
            least = λ le. elim one [
              | inl at_bound ↦ rw at_bound le
              | inr at_zero ↦ rw (at_zero, scaled-zero) (ground arith)
            ];
            nonnegative = λ p q. rw scaled-zero at from_zero;
          }
    ]
  ]
]
  where
    cut :
        clamp_hp x bound max_hp ≡ fp_min x max_hp
        → (pos 0 ≤ℤ scaled x → pos 0 <ℤ scaled max_hp → ⊥)
        → Clamped x bound max_hp
    cut same odd =
        let (v, e, raw, from_x, from_max, one) = fp_min-Selected x max_hp hx hm in
        record {
          y = v;
          result = same ∙ e;
          raw = raw;
          least = λ le. from_max;
          nonnegative = λ p q. absurd (odd p q);
        }

-- On qwords the clamp succeeds, and where the bound is not above the maximum the clamped value is not
-- above it either.
pub clamp_hp-le :
    (x bound max_hp : ℤ)
    → is_raw x ≡ true
    → is_raw bound ≡ true
    → is_raw max_hp ≡ true
    → scaled bound ≤ℤ scaled max_hp
    → (y : ℤ) × (clamp_hp x bound max_hp ≡ ok y) × (is_raw y ≡ true) × (scaled y ≤ℤ scaled max_hp)
clamp_hp-le x bound max_hp hx hb hm le =
    let c = clamp-Clamped x bound max_hp hx hb hm in (c.y, c.result, c.raw, c.least le)

-- On qwords, with a positive maximum, a candidate that is not negative is not clamped below 0.
pub clamp_hp-nonnegative :
    (x bound max_hp : ℤ)
    → is_raw x ≡ true
    → is_raw bound ≡ true
    → is_raw max_hp ≡ true
    → pos 0 ≤ℤ scaled x
    → pos 0 <ℤ scaled max_hp
    → (y : ℤ) × (clamp_hp x bound max_hp ≡ ok y) × (is_raw y ≡ true) × (pos 0 ≤ℤ scaled y)
clamp_hp-nonnegative x bound max_hp hx hb hm nonneg positive =
    let c = clamp-Clamped x bound max_hp hx hb hm in
    (c.y, c.result, c.raw, c.nonnegative nonneg positive)
