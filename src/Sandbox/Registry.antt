-- ===== src/Sandbox/Registry.antt =====
-- src/hsr_battle_agent/battle_sandbox/registry.py: the registry that binds an implementation to each id.
pub mod Bound
pub mod Entries
use hsr_battle_agent.Base.{
  Bool, List, Option, Result, [], duplicate_primitive, false, frozen_registry, if◌then◌else◌, none,
  ok, raise, some, true, unsupported_primitive, ◌++◌, ◌∷◌,
}
use hsr_battle_agent.Base.Action.{Action, gets, lift, modify, pure, raise_if, throw, ◌>>=◌, ◌>>◌}
use hsr_battle_agent.Base.Text.{Text, eqb_text}
use hsr_battle_agent.Sandbox.Primitive.{PrimitiveSpec}

-- `RegisteredPrimitive` with its implementation in `I`
pub record RegisteredPrimitive (I : Type 0) : Type 0 where
  pub spec : PrimitiveSpec
  pub implementation : I
  pub provenance_ref : Option Text

pub record PrimitiveRegistry (I : Type 0) : Type 0 where
  pub entries : List (RegisteredPrimitive I)
  pub frozen : Bool

module _ {I : Type 0} where
  abbrev pub new_registry : PrimitiveRegistry I
  new_registry = record { entries = []; frozen = false }

  unfoldable pub find_entry : Text → List (RegisteredPrimitive I) → Option (RegisteredPrimitive I)
  unfolding eqb_text
  find_entry id [] = none
  find_entry id (r ∷ entries) =
      if eqb_text r.spec.primitive_id id then some r else find_entry id entries

  -- `register`
  unfoldable pub register :
      PrimitiveSpec → I → Option Text → Action (PrimitiveRegistry I) (Unit {0})
  unfolding find_entry
  register spec implementation provenance = do
    registry ← gets (λ r. r)
    raise_if registry.frozen frozen_registry
    elim (find_entry spec.primitive_id registry.entries) [
      | some _ ↦ throw duplicate_primitive
      | none ↦ modify (λ r. record r {
        entries =
            r.entries
            ++ record { spec = spec; implementation = implementation; provenance_ref = provenance }
              ∷ [];
      })
    ]

  unfoldable pub freeze : Action (PrimitiveRegistry I) (Unit {0})
  freeze = modify (λ r. record r { frozen = true })

  -- `resolve`
  unfoldable pub resolve_primitive : PrimitiveRegistry I → Text → Result (RegisteredPrimitive I)
  unfolding find_entry
  resolve_primitive registry id = elim (find_entry id registry.entries) [
    | none ↦ raise unsupported_primitive
    | some r ↦ ok r
  ]

  unfoldable pub bind_all :
      (Text → Option I) → List (PrimitiveSpec × Text) → Action (PrimitiveRegistry I) (Unit {0})
  unfolding register
  bind_all bindings [] = pure tt
  bind_all bindings ((spec, provenance) ∷ recovered) = do
    implementation ←
        lift
          (elim (bindings spec.primitive_id) [ none ↦ raise unsupported_primitive | some i ↦ ok i ])
    register spec implementation (some provenance)
    bind_all bindings recovered

  -- `create_default`, from the primitives of the catalog and the implementation bindings
  unfoldable pub create_default :
      (Text → Option I) → List (PrimitiveSpec × Text) → Result (PrimitiveRegistry I)
  unfolding bind_all freeze
  create_default bindings [] = raise unsupported_primitive
  create_default bindings (r ∷ recovered) =
      let (result, registry) = (bind_all bindings (r ∷ recovered) >> freeze) new_registry in
      elim result [ ok _ ↦ ok registry | raise e ↦ raise e ]
