-- ===== src/Sandbox/Registry/Entries.antt =====
-- src/hsr_battle_agent/battle_sandbox/registry.py: the entries of a registry that has grown by one.
use hsr_battle_agent.Base.{
  All, Bool-cases, List, [], false, inl, inr, none, ok, refl, some, ◌++◌, ◌∙◌, ◌∷◌, ◌≡◌,
}
use hsr_battle_agent.Base.Text.{Text, eqb_text, eqb_text_iff}
use hsr_battle_agent.Sandbox.Primitive.{PrimitiveSpec}
use hsr_battle_agent.Sandbox.Registry.{PrimitiveRegistry, RegisteredPrimitive, find_entry, register}

abbrev pub id_of_pair : PrimitiveSpec × Text → Text
id_of_pair p = p.0.primitive_id

module _ {I : Type 0} where
  -- The entry of a recovered primitive.
  abbrev pub bound : PrimitiveSpec × Text → I → RegisteredPrimitive I
  bound p implementation = record {
    spec = p.0;
    implementation = implementation;
    provenance_ref = some p.1;
  }

  pub find-append_some :
      (id : Text) (entries : List (RegisteredPrimitive I)) (e r : RegisteredPrimitive I)
      → find_entry id entries ≡ some r
      → find_entry id (entries ++ e ∷ []) ≡ some r
  unfolding find_entry
  find-append_some id [] e r h = cc
  find-append_some id (q ∷ entries) e r h = elim (Bool-cases (eqb_text q.spec.primitive_id id)) [
    | inl same ↦ rw same (rw (same, find_entry) at h)
    | inr other ↦ rw other (find-append_some id entries e r (rw (other, find_entry) at h))
  ]

  pub find-append_none :
      (id : Text) (entries : List (RegisteredPrimitive I)) (e : RegisteredPrimitive I)
      → find_entry id entries ≡ none
      → find_entry id (entries ++ e ∷ []) ≡ find_entry id (e ∷ [])
  unfolding find_entry
  find-append_none id [] e h = refl
  find-append_none id (q ∷ entries) e h = elim (Bool-cases (eqb_text q.spec.primitive_id id)) [
    | inl same ↦ let bad : some q ≡ none = (rw (same, find_entry) at h) in cc
    | inr other ↦ rw other (find-append_none id entries e (rw (other, find_entry) at h))
  ]

  abbrev pub extended_by : RegisteredPrimitive I → PrimitiveRegistry I → PrimitiveRegistry I
  extended_by e registry = record registry { entries = registry.entries ++ e ∷ [] }

  pub register-run :
      (p : PrimitiveSpec × Text) (i : I) (registry : PrimitiveRegistry I)
      → registry.frozen ≡ false
      → find_entry (id_of_pair p) registry.entries ≡ none
      → register p.0 i (some p.1) registry ≡ (ok tt, extended_by (bound p i) registry)
  unfolding register
  register-run p i registry open_ absent = rw (open_, absent)

  pub fresh-after :
      (p : PrimitiveSpec × Text) (i : I) (registry : PrimitiveRegistry I)
      (recovered : List (PrimitiveSpec × Text))
      → All (λ q. eqb_text (id_of_pair p) (id_of_pair q) ≡ false) recovered
      → All (λ q. find_entry (id_of_pair q) registry.entries ≡ none) recovered
      → All
          (λ q. find_entry (id_of_pair q) (extended_by (bound p i) registry).entries ≡ none)
          recovered
  unfolding find_entry
  fresh-after p i registry [] apart fresh = tt
  fresh-after p i registry (q ∷ recovered) apart fresh = (
    find-append_none (id_of_pair q) registry.entries (bound p i) fresh.0 ∙ rw apart.0,
    fresh-after p i registry recovered apart.1 fresh.1,
  )

  pub found-here :
      (p : PrimitiveSpec × Text) (i : I) (registry : PrimitiveRegistry I)
      → find_entry (id_of_pair p) registry.entries ≡ none
      → find_entry (id_of_pair p) (extended_by (bound p i) registry).entries ≡ some (bound p i)
  unfolding find_entry
  found-here p i registry absent =
      find-append_none (id_of_pair p) registry.entries (bound p i) absent
      ∙ rw ((eqb_text_iff (id_of_pair p) (id_of_pair p)).1 refl)
