-- ===== src/Sandbox/Primitive/Accepted.antt =====
-- src/hsr_battle_agent/battle_ir/model.py: which arguments a spec takes, and what it makes of them.
use hsr_battle_agent.Base.{
  Bool-cases, List, Option-cases, [], ap, arith, false, inl, inr, none, ok, raise, refl, some, true,
  value_error, ◌∷◌, ◌≡◌, ◌⊎◌,
}
use hsr_battle_agent.Base.Text.{Text, eqb_text, eqb_text_iff}
use hsr_battle_agent.Sandbox.Primitive.{
  Inputs, PrimitiveSpec, all_known, has_name, input, ordered, validate_and_order_inputs,
}

name-here : (n : Text) (names : List Text) → has_name n (n ∷ names) ≡ true
unfolding has_name
name-here n names = rw ((eqb_text_iff n n).1 refl)

name-there :
    (n m : Text) (names : List Text) → has_name n names ≡ true → has_name n (m ∷ names) ≡ true
unfolding has_name
name-there n m names h = ground (arith, h)

name-same :
    (n m : Text) (names : List Text) → eqb_text m n ≡ true → has_name m names ≡ has_name n names
name-same n m names e = ap (λ x. has_name x names) ((eqb_text_iff m n).0 e)

module _ {V : Type 0} where
  -- The inputs stand in the order of the names, each with the argument of its name.
  abbrev pub Gives : List Text → Inputs V → Inputs V → Type 0
  Gives [] arguments [] = Unit {0}
  Gives [] arguments (pair ∷ inputs) = ⊥
  Gives (n ∷ names) arguments [] = ⊥
  Gives (n ∷ names) arguments (pair ∷ inputs) =
      (pair.0 ≡ n) × (input n arguments ≡ some pair.1) × Gives names arguments inputs

  -- Every argument that is there has a name of the list.
  abbrev pub OnlyKnown : List Text → Inputs V → Type 0
  OnlyKnown names arguments =
      (n : Text) (v : V) → input n arguments ≡ some v → has_name n names ≡ true

  -- An argument has an unknown name, or a name has no argument.
  abbrev pub Refuses : List Text → Inputs V → Type 0
  Refuses names arguments =
      ((n : Text) × (v : V) × (input n arguments ≡ some v) × (has_name n names ≡ false))
      ⊎ ((n : Text) × (has_name n names ≡ true) × (input n arguments ≡ none))

  ordered-cases :
      (names : List Text) (arguments : Inputs V)
      → ((inputs : Inputs V) × (ordered names arguments ≡ ok inputs) × Gives names arguments inputs)
        ⊎ ((ordered names arguments ≡ raise value_error)
            × ((n : Text) × (has_name n names ≡ true) × (input n arguments ≡ none)))
  unfolding ordered
  ordered-cases [] arguments = inl ([], refl, tt)
  ordered-cases (n ∷ names) arguments = elim (Option-cases (input n arguments)) [
    | inl absent ↦ inr (rw (absent, ordered) refl, (n, name-here n names, absent))
    | inr (v, given) ↦ elim (ordered-cases names arguments) [
      | inl (inputs, done, gives) ↦
          inl ((n, v) ∷ inputs, rw (given, done, ordered) refl, (refl, given, gives))
      | inr (failed, (m, known, absent)) ↦
          inr (rw (given, failed, ordered) refl, (m, name-there m n names known, absent))
    ]
  ]

  input-first : (m : Text) (w : V) (arguments : Inputs V) → input m ((m, w) ∷ arguments) ≡ some w
  unfolding input
  input-first m w arguments = rw ((eqb_text_iff m m).1 refl)

  input-later :
      (m n : Text) (w v : V) (arguments : Inputs V)
      → eqb_text m n ≡ false
      → input n arguments ≡ some v
      → input n ((m, w) ∷ arguments) ≡ some v
  unfolding input
  input-later m n w v arguments other given = rw other given

  unknown-argument :
      (names : List Text) (arguments : Inputs V)
      → all_known names arguments ≡ false
      → (n : Text) × (v : V) × (input n arguments ≡ some v) × (has_name n names ≡ false)
  unfolding all_known
  unknown-argument names [] h = cc
  unknown-argument names ((m, w) ∷ arguments) h = elim (Bool-cases (has_name m names)) [
    | inr unknown ↦ (m, w, input-first m w arguments, unknown)
    | inl known ↦
        let (n, v, given, unknown) = unknown-argument names arguments (rw known at h) in
        elim (Bool-cases (eqb_text m n)) [
          | inl same ↦ let alike = name-same n m names same in cc
          | inr other ↦ (n, v, input-later m n w v arguments other given, unknown)
        ]
  ]

  known-arguments :
      (names : List Text) (arguments : Inputs V)
      → all_known names arguments ≡ true
      → OnlyKnown names arguments
  unfolding all_known input
  known-arguments names [] h n v given = cc
  known-arguments names ((m, w) ∷ arguments) h n v given = elim (Bool-cases (eqb_text m n)) [
    | inl same ↦
        let alike = name-same n m names same in
        let known : has_name m names ≡ true = ground (arith, h) in cc
    | inr other ↦
        known-arguments names arguments (ground (arith, h)) n v (rw (other, input) at given)
  ]

  -- Arguments with exactly the names of the spec are put in its order, and any others are refused.
  pub validate_and_order_inputs-cases :
      (spec : PrimitiveSpec) (arguments : Inputs V)
      → ((inputs : Inputs V) × (validate_and_order_inputs spec arguments ≡ ok inputs)
          × OnlyKnown spec.input_names arguments
          × Gives spec.input_names arguments inputs)
        ⊎ ((validate_and_order_inputs spec arguments ≡ raise value_error)
            × Refuses spec.input_names arguments)
  unfolding validate_and_order_inputs
  validate_and_order_inputs-cases spec arguments =
      elim (Bool-cases (all_known spec.input_names arguments)) [
        | inr unknown ↦
            inr (rw unknown refl, inl (unknown-argument spec.input_names arguments unknown))
        | inl known ↦ elim (ordered-cases spec.input_names arguments) [
          | inl (inputs, done, gives) ↦ inl (
            inputs,
            rw (known, done) refl,
            known-arguments spec.input_names arguments known,
            gives,
          )
          | inr (failed, absent) ↦ inr (rw (known, failed) refl, inr absent)
        ]
      ]
