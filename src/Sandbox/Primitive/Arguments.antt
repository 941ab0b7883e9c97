-- ===== src/Sandbox/Primitive/Arguments.antt =====
-- src/hsr_battle_agent/battle_ir/model.py: the order of a call's arguments does not matter.
use hsr_battle_agent.Base.{
  Bool, Bool-cases, List, Option-cases, [], ap, arith, false, inl, inr, none, ok, raise, refl, some,
  sym, true, value_error, ◌&&◌, ◌∙◌, ◌∷◌, ◌≡◌, ◌≢◌,
}
use hsr_battle_agent.Base.Text.{Text, eqb_text, eqb_text_iff}
use hsr_battle_agent.Sandbox.Primitive.{
  Inputs, PrimitiveSpec, all_known, has_name, input, ordered, validate_and_order_inputs,
}
use mathlib.Core.Path.{subst}

true-ne-false : true ≢ false
true-ne-false e = cc

and-left : (a b : Bool) → (a && b) ≡ true → a ≡ true
and-left true b h = refl
and-left false b h = cc

and-right : (a b : Bool) → (a && b) ≡ true → b ≡ true
and-right true b h = h
and-right false b h = cc

and-intro : (a b : Bool) → a ≡ true → b ≡ true → (a && b) ≡ true
and-intro true b h k = k
and-intro false b h k = cc

module _ {V : Type 0} where
  -- Two mappings of inputs with the same value, or none, at every name.
  abbrev pub SameInputs : Inputs V → Inputs V → Type 0
  SameInputs a b = (n : Text) → input n a ≡ input n b

  nothing-ordered : (a : Inputs V) → ordered [] a ≡ ok []
  unfolding ordered
  nothing-ordered a = refl

  ordered-none :
      (n : Text) (names : List Text) (a : Inputs V)
      → input n a ≡ none
      → ordered (n ∷ names) a ≡ raise value_error
  unfolding ordered
  ordered-none n names a e = ground (arith, e)

  ordered-some :
      (n : Text) (names : List Text) (a : Inputs V) {v : V}
      → input n a ≡ some v
      → ordered (n ∷ names) a
        ≡ elim (ordered names a) [ ok rest ↦ ok ((n, v) ∷ rest) | raise error ↦ raise error ]
  unfolding ordered
  ordered-some n names a e = ground (arith, e)

  ordered-same :
      (names : List Text) (a b : Inputs V) → SameInputs a b → ordered names a ≡ ordered names b
  ordered-same [] a b h = nothing-ordered a ∙ sym (nothing-ordered b)
  ordered-same (n ∷ names) a b h = elim (Option-cases (input n b)) [
    | inl e ↦ ordered-none n names a (h n ∙ e) ∙ sym (ordered-none n names b e)
    | inr (v, e) ↦
        ordered-some n names a (h n ∙ e)
        ∙ ap (λ r. elim r [ ok rest ↦ ok ((n, v) ∷ rest) | raise error ↦ raise error ])
            (ordered-same names a b h)
        ∙ sym (ordered-some n names b e)
  ]

  input-head : (m : Text) (w : V) (a : Inputs V) → input m ((m, w) ∷ a) ≡ some w
  unfolding input
  input-head m w a = rw ((eqb_text_iff m m).1 refl)

  input-skip :
      (m n : Text) (w : V) (a : Inputs V) → eqb_text m n ≡ false → input n ((m, w) ∷ a) ≡ input n a
  unfolding input
  input-skip m n w a e = rw e

  -- An input that is there is a known one.
  abbrev Known : List Text → Inputs V → Type 0
  Known names a = (n : Text) (v : V) → input n a ≡ some v → has_name n names ≡ true

  all_known-Known : (names : List Text) (a : Inputs V) → all_known names a ≡ true → Known names a
  unfolding all_known input
  all_known-Known names [] h n v e = cc
  all_known-Known names ((m, w) ∷ a) h n v e = elim (Bool-cases (eqb_text m n)) [
    | inl same ↦ subst (λ x. has_name x names ≡ true) ((eqb_text_iff m n).0 same) (and-left _ _ h)
    | inr other ↦ all_known-Known names a (and-right _ _ h) n v (sym (input-skip m n w a other) ∙ e)
  ]

  Known-all_known : (names : List Text) (a : Inputs V) → Known names a → all_known names a ≡ true
  unfolding all_known
  Known-all_known names [] k = refl
  Known-all_known names ((m, w) ∷ a) k = and-intro _ _ (k m w (input-head m w a)) (
      Known-all_known names a λ n v e. elim (Bool-cases (eqb_text m n)) [
        | inl same ↦
            subst (λ x. has_name x names ≡ true) ((eqb_text_iff m n).0 same)
              (k m w (input-head m w a))
        | inr other ↦ k n v (input-skip m n w a other ∙ e)
      ])

  -- The same inputs are known, and are ordered alike.
  all_known-same :
      (names : List Text) (a b : Inputs V)
      → SameInputs a b
      → all_known names a ≡ true
      → all_known names b ≡ true
  all_known-same names a b h k =
      Known-all_known names b (λ n v e. all_known-Known names a k n v (h n ∙ e))

  pub validate-same :
      (spec : PrimitiveSpec) (a b : Inputs V)
      → SameInputs a b
      → validate_and_order_inputs spec a ≡ validate_and_order_inputs spec b
  unfolding validate_and_order_inputs
  validate-same spec a b h = elim (Bool-cases (all_known spec.input_names a)) [
    | inl k ↦ rw (k, all_known-same spec.input_names a b h k, ordered-same spec.input_names a b h)
    | inr k ↦ elim (Bool-cases (all_known spec.input_names b)) [
      | inl l ↦
          absurd (true-ne-false (sym (all_known-same spec.input_names b a (λ n. sym (h n)) l) ∙ k))
      | inr l ↦ rw (k, l)
    ]
  ]
