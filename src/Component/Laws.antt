-- ===== src/Component/Laws.antt =====
-- Lemmas on the body that the source operations of src/hsr_battle_agent/battle_runtime/property.py
-- share.
use hsr_battle_agent.Base.{
  Bool-cases, Error, Result-cases, [], ap, arith, inl, inr, none, ok, raise, some, ℕ, ◌++◌, ◌∙◌,
  ◌∷◌, ◌≡◌, ◌⊎◌,
}
use hsr_battle_agent.Base.Action.{Action}
use hsr_battle_agent.Base.Dict.{int_eq, lookup, lookup-insert}
use hsr_battle_agent.Base.Int.{ℤ}
use hsr_battle_agent.Component.{rewrite_entry, rewrite_entry_to}
use hsr_battle_agent.Modifier.{ref_eq}
use hsr_battle_agent.Property.{PropertyEntry, post_init}
use hsr_battle_agent.Property.Arrays.{Stamped-length}
use hsr_battle_agent.Property.Valid.{IsValid}
use hsr_battle_agent.State.{
  BattleState, BoundaryOperation, PropertyChangeBoundary, PropertyKey, World, emit_boundary,
  entry_from_state, key_eq, property_entry_key, store_entry, with_entry, emit_boundary_to,
}
use hsr_battle_agent.Targets.{EntityRef}

-- Every stored entry is well-formed.
abbrev pub AllValid : BattleState → Type 0
AllValid state =
    (key : PropertyKey) (entry : PropertyEntry)
    → lookup key state.entity_property_entries ≡ some entry
    → IsValid entry

-- The insertion of a well-formed entry.
pub insert-AllValid :
    (w : World) (component : EntityRef) (property_id : ℤ) (entry : PropertyEntry)
    → AllValid w.state
    → IsValid entry
    → AllValid (with_entry w component property_id entry).state
insert-AllValid w component property_id entry valid h key stored found =
    elim (Bool-cases (key_eq.beq key (property_entry_key component property_id))) [
      | inl same ↦
          let new : entry ≡ stored = ground (
            arith,
            lookup-insert key (property_entry_key component property_id) entry
                w.state.entity_property_entries,
          ) in
          rw (← new) h
      | inr other ↦ valid key stored (
          ground (
            arith,
            lookup-insert key (property_entry_key component property_id) entry
                w.state.entity_property_entries,
          ))
    ]

pub post_init-ok : (entry : PropertyEntry) → IsValid entry → post_init entry ≡ ok entry
unfolding post_init
post_init-ok entry h = ground (
  arith,
  h.parallel,
  h.values,
  h.base,
  h.materialized_raw,
  Stamped-length entry.generation_counter entry.source_generation entry.source_active h.stamped,
)

-- What is read back is what was stored.
pub entry_from_state-ok :
    (state : BattleState) (entity : EntityRef) (property_id : ℤ) (entry : PropertyEntry)
    → lookup (property_entry_key entity property_id) state.entity_property_entries ≡ some entry
    → IsValid entry
    → entry_from_state state entity property_id ≡ ok entry
unfolding entry_from_state
entry_from_state-ok state entity property_id entry found h =
    rw (found, entry_from_state) (post_init-ok entry h)

abbrev pub emitted : PropertyChangeBoundary → World → World
emitted boundary w = record w {
  boundaries = elim w.boundaries [ none ↦ none | some log ↦ some (log ++ boundary ∷ []) ];
}

-- The world after a source operation turned `old` into `new`.
abbrev pub written :
    World → EntityRef → ℤ → BoundaryOperation → ℕ → PropertyEntry → PropertyEntry → World
written w entity property_id operation source_index old new =
    emitted
      (record {
        operation = operation;
        entity = entity;
        property_id = property_id;
        source_index = source_index;
        old_materialized = old.materialized;
        new_materialized = new.materialized;
      })
      (with_entry w entity property_id new)

module _ (entity : EntityRef) (property_id : ℤ) (operation : BoundaryOperation)
    (change : Action PropertyEntry ℕ) (w : World) where
  rewrite_entry-done :
      (entry : PropertyEntry) (i : ℕ)
      → entry_from_state w.state entity property_id ≡ ok entry
      → (change entry).0 ≡ ok i
      → rewrite_entry entity property_id operation change w
        ≡ (ok i, written w entity property_id operation i entry (change entry).1)
  unfolding rewrite_entry_to emit_boundary_to store_entry emit_boundary
  rewrite_entry-done entry i found done = rw (found, done)

  pub rewrite_entry-ok :
      (entry new : PropertyEntry) (i : ℕ)
      → entry_from_state w.state entity property_id ≡ ok entry
      → change entry ≡ (ok i, new)
      → rewrite_entry entity property_id operation change w
        ≡ (ok i, written w entity property_id operation i entry new)
  rewrite_entry-ok entry new i found done =
      rewrite_entry-done entry i found (ap (λ r. r.0) done)
      ∙ ap (λ r. (ok i, written w entity property_id operation i entry r.1)) done

  pub rewrite_entry-missing :
      (e : Error)
      → entry_from_state w.state entity property_id ≡ raise e
      → rewrite_entry entity property_id operation change w ≡ (raise e, w)
  unfolding rewrite_entry_to emit_boundary_to
  rewrite_entry-missing e missing = rw missing

  pub rewrite_entry-failed :
      (entry : PropertyEntry) (e : Error)
      → entry_from_state w.state entity property_id ≡ ok entry
      → (change entry).0 ≡ raise e
      → rewrite_entry entity property_id operation change w ≡ (raise e, w)
  unfolding rewrite_entry_to emit_boundary_to
  rewrite_entry-failed entry e found failed = rw (found, failed)

  -- A source operation writes one entry and one boundary, or raises and writes nothing.
  pub rewrite_entry-cases :
      ((e : Error) × (rewrite_entry entity property_id operation change w ≡ (raise e, w)))
      ⊎ ((entry : PropertyEntry) × (i : ℕ) × (entry_from_state w.state entity property_id
            ≡ ok entry)
          × ((change entry).0 ≡ ok i)
          × (rewrite_entry entity property_id operation change w
              ≡ (ok i, written w entity property_id operation i entry (change entry).1)))
  rewrite_entry-cases = elim (Result-cases (entry_from_state w.state entity property_id)) [
    | inr (e, missing) ↦ inl (e, rewrite_entry-missing e missing)
    | inl (entry, found) ↦ elim (Result-cases (change entry).0) [
      | inr (e, failed) ↦ inl (e, rewrite_entry-failed entry e found failed)
      | inl (i, done) ↦ inr (entry, i, found, done, rewrite_entry-done entry i found done)
    ]
  ]
