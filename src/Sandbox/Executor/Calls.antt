-- ===== src/Sandbox/Executor/Calls.antt =====
-- src/hsr_battle_agent/battle_sandbox/executor.py: which calls run, and that the order of their arguments does
-- not matter.
use hsr_battle_agent.Base.{
  All, Bool-cases, List, Result, [], ap, false, inl, inr, invalid_primitive_input, none, ok, raise,
  refl, some, sym, true, unsupported_primitive, ◌∙◌, ◌∷◌, ◌≡◌, ◌≢◌, ◌⊎◌,
}
use hsr_battle_agent.Base.Action.{Action, lift, ◌>>=◌}
use hsr_battle_agent.Base.Text.{Text, eqb_text, eqb_text_iff}
use hsr_battle_agent.Sandbox.Executor.{
  Context, Implementation, as_invalid_input, execute, run_primitive,
}
use hsr_battle_agent.Sandbox.Executor.Events.{Ran, Recording, run_primitive-Ran}
use hsr_battle_agent.Sandbox.Primitive.{
  Inputs, PrimitiveCall, PrimitiveResult, validate_and_order_inputs,
}
use hsr_battle_agent.Sandbox.Primitive.Accepted.{
  Gives, OnlyKnown, Refuses, validate_and_order_inputs-cases,
}
use hsr_battle_agent.Sandbox.Primitive.Arguments.{SameInputs, validate-same}
use hsr_battle_agent.Sandbox.Registry.{
  PrimitiveRegistry, RegisteredPrimitive, find_entry, resolve_primitive,
}
use hsr_battle_agent.Sandbox.Trace.{TraceValue}
use mathlib.Core.List.{Mem, mem-cons_of_mem, mem-cons_self}
use mathlib.Core.Option.{some-injective}
use mathlib.Core.Path.{subst}

module _ {S V : Type 0} where
  checked-same :
      {A : Type 0} (r : Result A) (next other : A → Action (Context S) (PrimitiveResult V))
      (c : Context S)
      → ((a : A) → next a c ≡ other a c)
      → (lift r >>= next) c ≡ (lift r >>= other) c
  checked-same (ok a) next other c h = h a
  checked-same (raise e) next other c h = refl

module _ {I : Type 0} (id : Text) where
  nothing-found : {r : RegisteredPrimitive I} → some r ≢ find_entry id []
  unfolding find_entry
  nothing-found e = cc

  find-here :
      (q : RegisteredPrimitive I) (entries : List (RegisteredPrimitive I))
      → eqb_text q.spec.primitive_id id ≡ true
      → find_entry id (q ∷ entries) ≡ some q
  unfolding find_entry
  find-here q entries e = rw e

  find-there :
      (q : RegisteredPrimitive I) (entries : List (RegisteredPrimitive I))
      → eqb_text q.spec.primitive_id id ≡ false
      → find_entry id (q ∷ entries) ≡ find_entry id entries
  unfolding find_entry
  find-there q entries e = rw e

  -- An id that is not found is the id of no entry, and one that is found is that of the entry.
  find_entry-cases :
      (entries : List (RegisteredPrimitive I))
      → ((find_entry id entries ≡ none) × All (λ q. q.spec.primitive_id ≢ id) entries)
        ⊎ ((q : RegisteredPrimitive I) × (find_entry id entries ≡ some q)
            × Mem q entries
            × (q.spec.primitive_id ≡ id))
  unfolding find_entry
  find_entry-cases [] = inl (refl, tt)
  find_entry-cases (q ∷ entries) = elim (Bool-cases (eqb_text q.spec.primitive_id id)) [
    | inl same ↦
        inr
          (q, find-here q entries same, mem-cons_self, (eqb_text_iff q.spec.primitive_id id).0 same)
    | inr other ↦ elim (find_entry-cases entries) [
      | inl (absent, all) ↦ inl (
        find-there q entries other ∙ absent,
        ((λ e. let same = (eqb_text_iff q.spec.primitive_id id).1 e in cc), all),
      )
      | inr (found, e, deeper, named) ↦
          inr (found, find-there q entries other ∙ e, mem-cons_of_mem _ deeper, named)
    ]
  ]

module _ {S V : Type 0} (describe : V → TraceValue) (input_tag : V → Text) where
  Recording-find :
      (id : Text) (entries : List (RegisteredPrimitive (Implementation S V)))
      {r : RegisteredPrimitive (Implementation S V)}
      → All (λ r. Recording r.implementation) entries
      → find_entry id entries ≡ some r
      → Recording r.implementation
  Recording-find id [] all e = absurd (nothing-found id (sym e))
  Recording-find id (q ∷ entries) all e = elim (Bool-cases (eqb_text q.spec.primitive_id id)) [
    | inl here ↦
        subst (λ x. Recording x.implementation)
          (some-injective _ _ (sym (find-here id q entries here) ∙ e)) all.0
    | inr there ↦ Recording-find id entries all.1 (sym (find-there id q entries there) ∙ e)
  ]

  resolved-none :
      (registry : PrimitiveRegistry (Implementation S V)) (id : Text)
      → find_entry id registry.entries ≡ none
      → resolve_primitive registry id ≡ raise unsupported_primitive
  unfolding resolve_primitive
  resolved-none registry id absent = rw (absent, resolve_primitive) refl

  resolved-some :
      (registry : PrimitiveRegistry (Implementation S V)) (id : Text)
      {r : RegisteredPrimitive (Implementation S V)}
      → find_entry id registry.entries ≡ some r
      → resolve_primitive registry id ≡ ok r
  unfolding resolve_primitive
  resolved-some registry id found = rw (found, resolve_primitive) refl

  abbrev with_arguments :
      Text
      → Inputs V
      → RegisteredPrimitive (Implementation S V)
      → Action (Context S) (PrimitiveResult V)
  with_arguments id arguments r =
      lift (as_invalid_input (validate_and_order_inputs r.spec arguments))
      >>= run_primitive describe input_tag id r

  -- What a call gives: of an id that no entry has, it is refused; of an entry with that id, it is
  -- refused for arguments that its spec does not take, and otherwise runs on them in the spec's order.
  abbrev pub Outcome :
      PrimitiveRegistry (Implementation S V)
      → PrimitiveCall V
      → Context S
      → Result (PrimitiveResult V) × Context S
      → Type 0
  Outcome registry call c out =
      (All (λ r. r.spec.primitive_id ≢ call.primitive_id) registry.entries
        × (out ≡ (raise unsupported_primitive, c)))
      ⊎ ((r : RegisteredPrimitive (Implementation S V)) × Mem r registry.entries
          × (r.spec.primitive_id ≡ call.primitive_id)
          × ((Refuses r.spec.input_names call.arguments
                × (out ≡ (raise invalid_primitive_input, c)))
              ⊎ ((inputs : Inputs V) × OnlyKnown r.spec.input_names call.arguments
                  × Gives r.spec.input_names call.arguments inputs
                  × Ran describe input_tag call.primitive_id r inputs c out)))

  accepted-Outcome :
      (call : PrimitiveCall V) (r : RegisteredPrimitive (Implementation S V)) (c : Context S)
      → Recording r.implementation
      → (Refuses r.spec.input_names call.arguments
          × (with_arguments call.primitive_id call.arguments r c
              ≡ (raise invalid_primitive_input, c)))
        ⊎ ((inputs : Inputs V) × OnlyKnown r.spec.input_names call.arguments
            × Gives r.spec.input_names call.arguments inputs
            × Ran describe input_tag call.primitive_id r inputs c
                (with_arguments call.primitive_id call.arguments r c))
  accepted-Outcome call r c records = elim (validate_and_order_inputs-cases r.spec call.arguments) [
    | inr (failed, refuses) ↦ inl (refuses, rw failed refl)
    | inl (inputs, done, known, gives) ↦ inr (
      inputs,
      known,
      gives,
      subst (Ran describe input_tag call.primitive_id r inputs c)
          (sym (
            ap
              (λ x.
                (lift (as_invalid_input x) >>= run_primitive describe input_tag call.primitive_id r)
                  c)
              done))
          (run_primitive-Ran describe input_tag call.primitive_id r inputs c records),
    )
  ]

  -- Every call comes to one of three ends. Where no entry of the registry has the id of the call, it raises
  -- UnsupportedPrimitiveError and changes nothing. Where an entry has the id, and an argument of the
  -- call has no name of its spec or a name of the spec has no argument, it raises
  -- InvalidPrimitiveInputError and changes nothing. Where an entry has the id, the names of the arguments
  -- are those of the spec, and the inputs are the arguments in the order of the spec, the trace gains
  -- the event of the start at the next id; the implementation of that entry runs once, on those
  -- inputs, after that event, and adds its events behind it; what the implementation raises is raised,
  -- with what it wrote kept; a value whose summary the trace refuses raises that; and any other value
  -- is the checked result, with the event of the end at the then next id, which names the start and
  -- holds the summary. The implementations are ones that only append to the trace.
  pub execute-Ran :
      (registry : PrimitiveRegistry (Implementation S V)) (call : PrimitiveCall V) (c : Context S)
      → All (λ r. Recording r.implementation) registry.entries
      → Outcome registry call c (execute describe input_tag registry call c)
  unfolding execute
  execute-Ran registry call c all = elim (find_entry-cases call.primitive_id registry.entries) [
    | inl (absent, none_named) ↦ inl (
      none_named,
      ap (λ x. (lift x >>= with_arguments call.primitive_id call.arguments) c)
          (resolved-none registry call.primitive_id absent),
    )
    | inr (r, found, m, named) ↦ inr (
      r,
      m,
      named,
      subst
          (λ out.
            (Refuses r.spec.input_names call.arguments × (out ≡ (raise invalid_primitive_input, c)))
            ⊎ ((inputs : Inputs V) × OnlyKnown r.spec.input_names call.arguments
                × Gives r.spec.input_names call.arguments inputs
                × Ran describe input_tag call.primitive_id r inputs c out))
          (sym (
            ap (λ x. (lift x >>= with_arguments call.primitive_id call.arguments) c)
              (resolved-some registry call.primitive_id found)))
          (accepted-Outcome call r c (Recording-find call.primitive_id registry.entries all found)),
    )
  ]

  -- Calls of one primitive whose arguments give the same values to the same names run alike, in whatever
  -- order they stand.
  pub execute-same :
      (registry : PrimitiveRegistry (Implementation S V)) (id : Text) (a b : Inputs V)
      (c : Context S)
      → SameInputs a b
      → execute describe input_tag registry (record { primitive_id = id; arguments = a }) c
        ≡ execute describe input_tag registry (record { primitive_id = id; arguments = b }) c
  unfolding execute
  execute-same registry id a b c h =
      checked-same (resolve_primitive registry id) (with_arguments id a) (with_arguments id b) c
        (λ r.
          ap (λ v. (lift (as_invalid_input v) >>= run_primitive describe input_tag id r) c)
            (validate-same r.spec a b h))
