-- ===== src/Property/ActiveValues.antt =====
-- The materializer of src/hsr_battle_agent/battle_runtime/property.py against formulas over the
-- active values.
use hsr_battle_agent.Base.{
  Bool, List, Result, [], arith, false, get_or, if◌then◌else◌, length, length-append, ok, raise,
  refl, suc, true, unsupported_materialization_kind, ℕ, ◌++◌, ◌==◌, ◌>>=◌, ◌∷◌, ◌≡◌,
}
use hsr_battle_agent.Base.Int.{ℤ}
use hsr_battle_agent.FixPoint.Arith.{fixedpoint_add, fixedpoint_multiply}
use hsr_battle_agent.Property.{
  PropertyEntry, active_from, active_indices, extremum, first_or, fold_active, keep_greater,
  keep_less, materialize_by_kind, value_at,
}
use mathlib.Core.List.{append_assoc}

-- The values of the active slots, in slot order.
abbrev pub active_values : List Bool → List ℤ → List ℤ
active_values (true ∷ flags) (v ∷ vs) = v ∷ active_values flags vs
active_values (false ∷ flags) (v ∷ vs) = active_values flags vs
active_values _ _ = []

abbrev pub fold_values : (ℤ → ℤ → Result ℤ) → ℤ → List ℤ → Result ℤ
fold_values step accumulator [] = ok accumulator
fold_values step accumulator (v ∷ vs) = do next ← step accumulator v; fold_values step next vs

abbrev pub extremum_values : (ℤ → ℤ → Result ℤ) → ℤ → List ℤ → Result ℤ
extremum_values keep base [] = ok base
extremum_values keep base (v ∷ vs) = fold_values keep v vs

value_at-append :
    (before : List ℤ) (v : ℤ) (vs : List ℤ) → value_at (before ++ v ∷ vs) (length before) ≡ ok v
value_at-append [] v vs = refl
value_at-append (x ∷ before) v vs = value_at-append before v vs

shift :
    (before : List ℤ) (v : ℤ) (vs : List ℤ)
    → ((before ++ v ∷ []) ++ vs ≡ before ++ v ∷ vs)
      × (length (before ++ v ∷ []) ≡ suc (length before))
shift before v vs = (append_assoc before (v ∷ []) vs, omega (arith, length-append before (v ∷ [])))

>>=-cong : (m : Result ℤ) (f g : ℤ → Result ℤ) → ((x : ℤ) → f x ≡ g x) → (m >>= f) ≡ (m >>= g)
>>=-cong (ok a) f g h = h a
>>=-cong (raise e) f g h = refl

fold_active-after :
    (step : ℤ → ℤ → Result ℤ) (before : List ℤ) (a : ℤ) (flags : List Bool) (vs : List ℤ)
    → length flags ≡ length vs
    → fold_active step (before ++ vs) a (active_from (length before) flags)
      ≡ fold_values step a (active_values flags vs)
fold_active-after step before a [] vs h = refl
fold_active-after step before a (f ∷ flags) [] h = absurd (omega (arith, h))
fold_active-after step before a (true ∷ flags) (v ∷ vs) h = rw value_at-append (
    >>=-cong (step a v)
      (λ next. fold_active step (before ++ v ∷ vs) next (active_from (suc (length before)) flags))
      (λ next. fold_values step next (active_values flags vs))
      (λ next.
        rw (← (shift before v vs).0, ← (shift before v vs).1)
          (fold_active-after step (before ++ v ∷ []) next flags vs (omega (arith, h)))))
fold_active-after step before a (false ∷ flags) (v ∷ vs) h =
    rw (← (shift before v vs).0, ← (shift before v vs).1)
      (fold_active-after step (before ++ v ∷ []) a flags vs (omega (arith, h)))

extremum-after :
    (keep : ℤ → ℤ → Result ℤ) (base : ℤ) (before : List ℤ) (flags : List Bool) (vs : List ℤ)
    → length flags ≡ length vs
    → extremum keep base (before ++ vs) (active_from (length before) flags)
      ≡ extremum_values keep base (active_values flags vs)
extremum-after keep base before [] vs h = refl
extremum-after keep base before (f ∷ flags) [] h = absurd (omega (arith, h))
extremum-after keep base before (true ∷ flags) (v ∷ vs) h = rw value_at-append (
    rw (← (shift before v vs).0, ← (shift before v vs).1)
      (fold_active-after keep (before ++ v ∷ []) v flags vs (omega (arith, h))))
extremum-after keep base before (false ∷ flags) (v ∷ vs) h =
    rw (← (shift before v vs).0, ← (shift before v vs).1)
      (extremum-after keep base (before ++ v ∷ []) flags vs (omega (arith, h)))

-- The formula of each kind, on the first value, the last changed value and the active values.
unfoldable pub reduce : ℕ → ℤ → List ℤ → ℕ → List ℤ → Result ℤ
reduce kind base values last active =
    if kind == 1
    then ok (first_or base values)
    else if kind == 2
    then ok (get_or values last base)
    else if kind == 3
    then fold_values fixedpoint_add base active
    else if kind == 4
    then fold_values fixedpoint_multiply base active
    else if kind == 5
    then raise unsupported_materialization_kind
    else if kind == 6
    then extremum_values keep_less base active
    else if kind == 7
    then extremum_values keep_greater base active
    else raise unsupported_materialization_kind

-- On parallel arrays the materializer computes the formula of the entry's kind.
pub materialize-reduce :
    (entry : PropertyEntry)
    → length entry.source_active ≡ length entry.source_value
    → materialize_by_kind entry
      ≡ reduce entry.materialization_kind entry.base_or_fallback entry.source_value
          entry.last_changed_source
          (active_values entry.source_active entry.source_value)
unfolding materialize_by_kind reduce active_indices
materialize-reduce entry h =
    let flags = entry.source_active in
    let values = entry.source_value in
    let base = entry.base_or_fallback in
    rw (
      fold_active-after fixedpoint_add [] base flags values h,
      fold_active-after fixedpoint_multiply [] base flags values h,
      extremum-after keep_less base [] flags values h,
      extremum-after keep_greater base [] flags values h,
    )
