-- ===== src/Property/Extrema.antt =====
-- The kinds 6 and 7 of the materializer of src/hsr_battle_agent/battle_runtime/property.py.
use hsr_battle_agent.Base.{
  All, Bool, Bool-cases, List, Result, [], arith, false, inl, inr, ok, refl, true, ◌∙◌, ◌∷◌, ◌≡◌,
  ◌⊎◌,
}
use hsr_battle_agent.Base.Int.{ℤ, ◌≤ℤ◌}
use hsr_battle_agent.FixPoint.{
  fixpoint_compare, fixpoint_greater, fixpoint_less, is_gt, is_lt, is_raw,
}
use hsr_battle_agent.FixPoint.Order.{fixpoint_compare-scaled, scaled}
use hsr_battle_agent.Property.{PropertyEntry, all_raw, keep_greater, keep_less, materialize_by_kind}
use hsr_battle_agent.Property.ActiveValues.{
  active_values, extremum_values, fold_values, materialize-reduce, reduce,
}
use hsr_battle_agent.Property.Valid.{IsValid}

abbrev pub IsOneOf : ℤ → List ℤ → Type 0
IsOneOf v [] = ⊥
IsOneOf v (x ∷ xs) = (v ≡ x) ⊎ IsOneOf v xs

abbrev AtMost : ℤ → ℤ → Type 0
AtMost v x = scaled v ≤ℤ scaled x

abbrev AtLeast : ℤ → ℤ → Type 0
AtLeast v x = scaled x ≤ℤ scaled v

-- What one comparison of a selection achieves.
abbrev Picks : (ℤ → ℤ → Type 0) → (ℤ → ℤ → Result ℤ) → Type 0
Picks R keep =
    (a b : ℤ)
    → is_raw a ≡ true
    → is_raw b ≡ true
    → (v : ℤ) × (keep a b ≡ ok v) × (is_raw v ≡ true) × R v a × R v b × ((v ≡ a) ⊎ (v ≡ b))

keep_less-Picks : Picks AtMost keep_less
unfolding keep_less fixpoint_less
keep_less-Picks a b ha hb = elim (Bool-cases (is_lt (fixpoint_compare b a))) [
  | inl less ↦
      (b, rw (hb, ha, less), hb, ground (arith, fixpoint_compare-scaled b a), omega arith, inr refl)
  | inr other ↦ (
    a,
    rw (hb, ha, other),
    ha,
    omega arith,
    ground (arith, fixpoint_compare-scaled b a),
    inl refl,
  )
]

keep_greater-Picks : Picks AtLeast keep_greater
unfolding keep_greater fixpoint_greater
keep_greater-Picks a b ha hb = elim (Bool-cases (is_gt (fixpoint_compare b a))) [
  | inl more ↦
      (b, rw (hb, ha, more), hb, ground (arith, fixpoint_compare-scaled b a), omega arith, inr refl)
  | inr other ↦ (
    a,
    rw (hb, ha, other),
    ha,
    omega arith,
    ground (arith, fixpoint_compare-scaled b a),
    inl refl,
  )
]

module _ (R : ℤ → ℤ → Type 0) (R_refl : (a : ℤ) → R a a)
    (R_trans : (a b c : ℤ) → R a b → R b c → R a c) (keep : ℤ → ℤ → Result ℤ)
    (picks : Picks R keep) where
  fold_values-picks :
      (a : ℤ) (vs : List ℤ)
      → is_raw a ≡ true
      → all_raw vs ≡ true
      → (v : ℤ) × (fold_values keep a vs ≡ ok v) × R v a × All (R v) vs × IsOneOf v (a ∷ vs)
  fold_values-picks a [] ha hv = (a, refl, R_refl a, tt, inl refl)
  fold_values-picks a (x ∷ vs) ha hv =
      let (b, kept, hb, ba, bx, origin) = picks a x ha (ground arith) in
      let (v, folded, vb, all, one) = fold_values-picks b vs hb (ground arith) in
      (v, rw kept folded, R_trans v b a vb ba, (R_trans v b x vb bx, all), place origin one)
    where
      place : {v b : ℤ} → (b ≡ a) ⊎ (b ≡ x) → IsOneOf v (b ∷ vs) → IsOneOf v (a ∷ x ∷ vs)
      place (inl same) (inl here) = inl (here ∙ same)
      place (inr same) (inl here) = inr (inl (here ∙ same))
      place origin (inr later) = inr (inr later)

  extremum_values-picks :
      (base x : ℤ) (vs : List ℤ)
      → all_raw (x ∷ vs) ≡ true
      → (v : ℤ) × (extremum_values keep base (x ∷ vs) ≡ ok v)
        × All (R v) (x ∷ vs)
        × IsOneOf v (x ∷ vs)
  extremum_values-picks base x vs h =
      let (v, folded, vx, all, one) = fold_values-picks x vs (ground arith) (ground arith) in
      (v, folded, (vx, all), one)

active_values-raw :
    (flags : List Bool) (vs : List ℤ) → all_raw vs ≡ true → all_raw (active_values flags vs) ≡ true
active_values-raw (true ∷ flags) (v ∷ vs) h = ground (arith, active_values-raw flags vs)
active_values-raw (false ∷ flags) (v ∷ vs) h = ground (arith, active_values-raw flags vs)
active_values-raw [] vs h = refl
active_values-raw (true ∷ flags) [] h = refl
active_values-raw (false ∷ flags) [] h = refl

-- With an active slot, kind 6 materializes one of the active values, and none of them is less.
pub materialize-least :
    (entry : PropertyEntry) (x : ℤ) (xs : List ℤ)
    → IsValid entry
    → entry.materialization_kind ≡ 6
    → active_values entry.source_active entry.source_value ≡ x ∷ xs
    → (v : ℤ) × (materialize_by_kind entry ≡ ok v)
      × All (λ y. scaled v ≤ℤ scaled y) (active_values entry.source_active entry.source_value)
      × IsOneOf v (active_values entry.source_active entry.source_value)
unfolding reduce
materialize-least entry x xs h kind active =
    rw (materialize-reduce entry h.parallel, kind, active)
      (extremum_values-picks AtMost (λ a. omega arith) (λ a b c p q. omega arith) keep_less
        keep_less-Picks entry.base_or_fallback x xs
        (rw active at (active_values-raw entry.source_active entry.source_value h.values)))

-- With an active slot, kind 7 materializes one of the active values, and none of them is greater.
pub materialize-greatest :
    (entry : PropertyEntry) (x : ℤ) (xs : List ℤ)
    → IsValid entry
    → entry.materialization_kind ≡ 7
    → active_values entry.source_active entry.source_value ≡ x ∷ xs
    → (v : ℤ) × (materialize_by_kind entry ≡ ok v)
      × All (λ y. scaled y ≤ℤ scaled v) (active_values entry.source_active entry.source_value)
      × IsOneOf v (active_values entry.source_active entry.source_value)
unfolding reduce
materialize-greatest entry x xs h kind active =
    rw (materialize-reduce entry h.parallel, kind, active)
      (extremum_values-picks AtLeast (λ a. omega arith) (λ a b c p q. omega arith) keep_greater
        keep_greater-Picks entry.base_or_fallback x xs
        (rw active at (active_values-raw entry.source_active entry.source_value h.values)))
