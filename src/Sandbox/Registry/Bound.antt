-- ===== src/Sandbox/Registry/Bound.antt =====
-- src/hsr_battle_agent/battle_sandbox/registry.py: what the default registry resolves.
use hsr_battle_agent.Base.{
  All, List, Option, [], ap, false, frozen_registry, none, ok, raise, refl, some, true, ◌∙◌, ◌∷◌,
  ◌≡◌,
}
use hsr_battle_agent.Base.Action.{>>=-at}
use hsr_battle_agent.Base.Text.{Text, eqb_text}
use hsr_battle_agent.Sandbox.Primitive.{PrimitiveSpec}
use hsr_battle_agent.Sandbox.Registry.{
  PrimitiveRegistry, RegisteredPrimitive, bind_all, create_default, find_entry, freeze,
  new_registry, register, resolve_primitive,
}
use hsr_battle_agent.Sandbox.Registry.Entries.{
  bound, extended_by, find-append_some, found-here, fresh-after, id_of_pair, register-run,
}

-- The ids of the recovered primitives differ.
abbrev pub Apart : List (PrimitiveSpec × Text) → Type 0
Apart [] = Unit {0}
Apart (p ∷ recovered) =
    All (λ q. eqb_text (id_of_pair p) (id_of_pair q) ≡ false) recovered × Apart recovered

module _ {I : Type 0} where
  -- Each recovered primitive has an implementation.
  abbrev pub Covered : (Text → Option I) → List (PrimitiveSpec × Text) → Type 0
  Covered bindings = All (λ p. (i : I) × (bindings (id_of_pair p) ≡ some i))

  -- What binding the recovered primitives to a registry gives.
  record Bound (bindings : Text → Option I) (recovered : List (PrimitiveSpec × Text))
      (registry : PrimitiveRegistry I) : Type 0 where
    result : PrimitiveRegistry I
    run : bind_all bindings recovered registry ≡ (ok tt, result)
    kept :
        (id : Text) (r : RegisteredPrimitive I)
        → find_entry id registry.entries ≡ some r
        → find_entry id result.entries ≡ some r
    found :
        All
          (λ p.
            (i : I) × (bindings (id_of_pair p) ≡ some i)
            × (find_entry (id_of_pair p) result.entries ≡ some (bound p i)))
          recovered

  bind-step :
      (bindings : Text → Option I) (p : PrimitiveSpec × Text)
      (recovered : List (PrimitiveSpec × Text)) (registry : PrimitiveRegistry I) (i : I)
      → registry.frozen ≡ false
      → bindings (id_of_pair p) ≡ some i
      → find_entry (id_of_pair p) registry.entries ≡ none
      → bind_all bindings (p ∷ recovered) registry
        ≡ bind_all bindings recovered (extended_by (bound p i) registry)
  unfolding bind_all
  bind-step bindings p recovered registry i open_ covered absent = rw covered (
      >>=-at (register p.0 i (some p.1)) (λ _. bind_all bindings recovered) registry
        (register-run p i registry open_ absent))

  nothing-bound :
      (bindings : Text → Option I) (registry : PrimitiveRegistry I)
      → bind_all bindings [] registry ≡ (ok tt, registry)
  unfolding bind_all
  nothing-bound bindings registry = refl

  bind_all-Bound :
      (bindings : Text → Option I) (recovered : List (PrimitiveSpec × Text))
      (registry : PrimitiveRegistry I)
      → registry.frozen ≡ false
      → Covered bindings recovered
      → Apart recovered
      → All (λ q. find_entry (id_of_pair q) registry.entries ≡ none) recovered
      → Bound bindings recovered registry
  bind_all-Bound bindings [] registry open_ covered apart fresh = record {
    result = registry;
    run = nothing-bound bindings registry;
    kept = λ id r e. e;
    found = tt;
  }
  bind_all-Bound bindings (p ∷ recovered) registry open_ covered apart fresh =
      let (i, implemented) = covered.0 in
      let rest =
        bind_all-Bound bindings recovered (extended_by (bound p i) registry) open_ covered.1 apart.1
          (fresh-after p i registry recovered apart.0 fresh.1) in
      record {
        result = rest.result;
        run = bind-step bindings p recovered registry i open_ implemented fresh.0 ∙ rest.run;
        kept = λ id r e. rest.kept id r (find-append_some id registry.entries (bound p i) r e);
        found = (
          (i, implemented, rest.kept (id_of_pair p) (bound p i) (found-here p i registry fresh.0)),
          rest.found,
        );
      }

  none-registered :
      (registry : PrimitiveRegistry I) (recovered : List (PrimitiveSpec × Text))
      → registry.entries ≡ []
      → All (λ q. find_entry (id_of_pair q) registry.entries ≡ none) recovered
  unfolding find_entry
  none-registered registry [] e = tt
  none-registered registry (p ∷ recovered) e =
      (ap (find_entry (id_of_pair p)) e, none-registered registry recovered e)

  abbrev frozen_copy : PrimitiveRegistry I → PrimitiveRegistry I
  frozen_copy registry = record registry { frozen = true }

  create-run :
      (bindings : Text → Option I) (p : PrimitiveSpec × Text)
      (recovered : List (PrimitiveSpec × Text)) (registry : PrimitiveRegistry I)
      → bind_all bindings (p ∷ recovered) new_registry ≡ (ok tt, registry)
      → create_default bindings (p ∷ recovered) ≡ ok (frozen_copy registry)
  unfolding create_default freeze
  create-run bindings p recovered registry e =
      ap (λ out. elim out.0 [ ok _ ↦ ok out.1 | raise error ↦ raise error ])
        (>>=-at (bind_all bindings (p ∷ recovered)) (λ _. freeze) new_registry e)

  resolves :
      (bindings : Text → Option I) (registry : PrimitiveRegistry I)
      (recovered : List (PrimitiveSpec × Text))
      → All
          (λ p.
            (i : I) × (bindings (id_of_pair p) ≡ some i)
            × (find_entry (id_of_pair p) registry.entries ≡ some (bound p i)))
          recovered
      → All
          (λ p.
            (i : I) × (bindings (id_of_pair p) ≡ some i)
            × (resolve_primitive (frozen_copy registry) (id_of_pair p) ≡ ok (bound p i)))
          recovered
  unfolding resolve_primitive
  resolves bindings registry [] found = tt
  resolves bindings registry (p ∷ recovered) found = (
    (found.0.0, found.0.1, rw (found.0.2, resolve_primitive)),
    resolves bindings registry recovered found.1,
  )

  register-refused :
      (registry : PrimitiveRegistry I) (spec : PrimitiveSpec) (i : I) (provenance : Option Text)
      → register spec i provenance (frozen_copy registry)
        ≡ (raise frozen_registry, frozen_copy registry)
  unfolding register
  register-refused registry spec i provenance = refl

  -- From recovered primitives, at least one, whose ids differ and which all have an implementation,
  -- create_default succeeds. Its registry resolves each of them to its own spec, implementation and
  -- provenance, and refuses every further registration without a change.
  pub create_default-resolves :
      (bindings : Text → Option I) (p : PrimitiveSpec × Text)
      (recovered : List (PrimitiveSpec × Text))
      → Covered bindings (p ∷ recovered)
      → Apart (p ∷ recovered)
      → (registry : PrimitiveRegistry I) × (create_default bindings (p ∷ recovered) ≡ ok registry)
        × All
            (λ q.
              (i : I) × (bindings (id_of_pair q) ≡ some i)
              × (resolve_primitive registry (id_of_pair q) ≡ ok (bound q i)))
            (p ∷ recovered)
        × ((spec : PrimitiveSpec) (i : I) (provenance : Option Text)
            → register spec i provenance registry ≡ (raise frozen_registry, registry))
  create_default-resolves bindings p recovered covered apart =
      let done =
        bind_all-Bound bindings (p ∷ recovered) new_registry refl covered apart
          (none-registered new_registry (p ∷ recovered) refl) in
      (
        frozen_copy done.result,
        create-run bindings p recovered done.result done.run,
        resolves bindings done.result (p ∷ recovered) done.found,
        register-refused done.result,
      )
