-- ===== src/Property/Folds.antt =====
-- Lemmas on the loops of the materializer of src/hsr_battle_agent/battle_runtime/property.py.
use hsr_battle_agent.Base.{
  Bool, List, Result, [], arith, false, get_or, if◌then◌else◌, length, ok, refl, suc, true, zero, ℕ,
  ◌+◌, ◌<◌, ◌^◌, ◌∷◌, ◌≡◌, ◌≤◌,
}
use hsr_battle_agent.Base.Int.{fdiv, ℤ, ◌*ℤ◌, ◌+ℤ◌}
use hsr_battle_agent.FixPoint.{
  fixpoint_compare, fixpoint_greater, fixpoint_less, is_gt, is_lt, is_raw, validate_raw,
}
use hsr_battle_agent.FixPoint.Arith.{
  decode_fixpoint_common, encode_fixpoint_common, fixedpoint_add, fixedpoint_multiply,
}
use hsr_battle_agent.FixPoint.ArithLaws.{encode-is_raw}
use hsr_battle_agent.Property.{
  active_from, all_raw, extremum, first_or, fold_active, keep_greater, keep_less, value_at,
}

-- The operation succeeds on qwords, with a qword.
abbrev pub IsTotal : (ℤ → ℤ → Result ℤ) → Type 0
IsTotal step =
    (a b : ℤ) → is_raw a ≡ true → is_raw b ≡ true → (v : ℤ) × (step a b ≡ ok v) × (is_raw v ≡ true)

pub fixedpoint_add-IsTotal : IsTotal fixedpoint_add
unfolding fixedpoint_add validate_raw
fixedpoint_add-IsTotal a b ha hb = (
  encode_fixpoint_common (decode_fixpoint_common a +ℤ decode_fixpoint_common b),
  rw (ha, hb),
  encode-is_raw _,
)

pub fixedpoint_multiply-IsTotal : IsTotal fixedpoint_multiply
unfolding fixedpoint_multiply validate_raw
fixedpoint_multiply-IsTotal a b ha hb = (
  encode_fixpoint_common (fdiv (decode_fixpoint_common a *ℤ decode_fixpoint_common b) (2 ^ 26)),
  rw (ha, hb),
  encode-is_raw _,
)

pub keep_less-IsTotal : IsTotal keep_less
unfolding keep_less fixpoint_less
keep_less-IsTotal a b ha hb =
    ((if is_lt (fixpoint_compare b a) then b else a), rw (hb, ha), ground arith)

pub keep_greater-IsTotal : IsTotal keep_greater
unfolding keep_greater fixpoint_greater
keep_greater-IsTotal a b ha hb =
    ((if is_gt (fixpoint_compare b a) then b else a), rw (hb, ha), ground arith)

pub value_at-raw :
    (values : List ℤ) (index : ℕ)
    → all_raw values ≡ true
    → index < length values
    → (v : ℤ) × (value_at values index ≡ ok v) × (is_raw v ≡ true)
value_at-raw [] index h lt = elim lt [ ]
value_at-raw (v ∷ vs) zero h lt = (v, refl, ground arith)
value_at-raw (v ∷ vs) (suc index) h lt = value_at-raw vs index (ground arith) (omega arith)

abbrev pub AllBelow : ℕ → List ℕ → Type 0
AllBelow n [] = Unit
AllBelow n (index ∷ indices) = (index < n) × AllBelow n indices

pub active_from-AllBelow :
    (start : ℕ) (flags : List Bool) (n : ℕ)
    → start + length flags ≤ n
    → AllBelow n (active_from start flags)
active_from-AllBelow start [] n h = tt
active_from-AllBelow start (true ∷ flags) n h =
    (omega arith, active_from-AllBelow (suc start) flags n (omega arith))
active_from-AllBelow start (false ∷ flags) n h =
    active_from-AllBelow (suc start) flags n (omega arith)

pub fold_active-total :
    {step : ℤ → ℤ → Result ℤ} (total : IsTotal step) (values : List ℤ) (a : ℤ) (indices : List ℕ)
    → all_raw values ≡ true
    → is_raw a ≡ true
    → AllBelow (length values) indices
    → (v : ℤ) × (fold_active step values a indices ≡ ok v) × (is_raw v ≡ true)
fold_active-total total values a [] hv ha below = (a, refl, ha)
fold_active-total total values a (index ∷ indices) hv ha below =
    let (x, got, hx) = value_at-raw values index hv below.0 in
    let (next, stepped, hn) = total a x ha hx in
    let (v, folded, hr) = fold_active-total total values next indices hv hn below.1 in
    (v, rw (got, stepped) folded, hr)

pub extremum-total :
    {keep : ℤ → ℤ → Result ℤ} (total : IsTotal keep) (base : ℤ) (values : List ℤ) (indices : List ℕ)
    → all_raw values ≡ true
    → is_raw base ≡ true
    → AllBelow (length values) indices
    → (v : ℤ) × (extremum keep base values indices ≡ ok v) × (is_raw v ≡ true)
extremum-total total base values [] hv hb below = (base, refl, hb)
extremum-total total base values (index ∷ indices) hv hb below =
    let (x, got, hx) = value_at-raw values index hv below.0 in
    let (v, folded, hr) = fold_active-total total values x indices hv hx below.1 in
    (v, rw got folded, hr)

pub get_or-raw :
    (values : List ℤ) (index : ℕ) (base : ℤ)
    → all_raw values ≡ true
    → is_raw base ≡ true
    → is_raw (get_or values index base) ≡ true
get_or-raw [] index base hv hb = hb
get_or-raw (v ∷ vs) zero base hv hb = ground arith
get_or-raw (v ∷ vs) (suc index) base hv hb = get_or-raw vs index base (ground arith) hb

pub first_or-raw :
    (values : List ℤ) (base : ℤ)
    → all_raw values ≡ true
    → is_raw base ≡ true
    → is_raw (first_or base values) ≡ true
first_or-raw [] base hv hb = hb
first_or-raw (v ∷ vs) base hv hb = ground arith
