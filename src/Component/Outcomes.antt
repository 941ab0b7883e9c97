-- ===== src/Component/Outcomes.antt =====
-- Lemmas on how a source operation of src/hsr_battle_agent/battle_runtime/property.py ends.
use hsr_battle_agent.Base.{
  Bool-cases, Error, Option-cases, Result, Result-cases, ap, arith, inl, inr, none, ok,
  property_entry_not_found, raise, some, true, unsupported_special_property, value_error, ℕ, ◌∙◌,
  ◌≡◌, ◌⊎◌,
}
use hsr_battle_agent.Base.Action.{>>-pure-ok, >>-pure-state, Action, pure, ◌>>=◌, ◌>>◌}
use hsr_battle_agent.Base.Dict.{int_eq, lookup}
use hsr_battle_agent.Base.Int.{pos, pos_part, ℤ}
use hsr_battle_agent.Component.{
  component_stack_source, contains, modify_source_zero_untransformed, remove_contribution_source,
  rewrite_entry, set_source_zero, special_property_ids, update_contribution_source,
  component_stack_source_to, update_contribution_source_to, remove_contribution_source_to,
  modify_source_zero_untransformed_to,
}
use hsr_battle_agent.Component.Laws.{rewrite_entry-cases, written}
use hsr_battle_agent.FixPoint.{is_raw, validate_raw}
use hsr_battle_agent.FixPoint.Arith.{apply_modify_function}
use hsr_battle_agent.Modifier.{ref_eq}
use hsr_battle_agent.Property.{PropertyEntry, is_some, post_init}
use hsr_battle_agent.Property.SlotLaws.{allocate-IsValid, remove-IsValid, update-IsValid}
use hsr_battle_agent.Property.Slots.{allocate_source_slot, remove_source_slot, update_source_slot}
use hsr_battle_agent.Property.Valid.{IsValid}
use hsr_battle_agent.State.{
  BattleState, BoundaryOperation, World, entry_from_state, key_eq, property_entry_key,
}
use hsr_battle_agent.Targets.{EntityRef}

abbrev pub SourceOutcome : {A : Type 0} → EntityRef → ℤ → World → Result A × World → Type 0
SourceOutcome {A} entity property_id w r =
    ((e : Error) × (r ≡ (raise e, w)))
    ⊎ ((operation : BoundaryOperation) × (i : ℕ) × (entry : PropertyEntry) × (new : PropertyEntry)
        × (a : A) × (lookup (property_entry_key entity property_id) w.state.entity_property_entries
            ≡ some entry)
        × (IsValid entry → IsValid new)
        × (r ≡ (ok a, written w entity property_id operation i entry new)))

pub post_init-same : (raw entry : PropertyEntry) → post_init raw ≡ ok entry → raw ≡ entry
unfolding post_init
post_init-same raw entry h = ground arith

pub entry_from_state-stored :
    (state : BattleState) (entity : EntityRef) (property_id : ℤ) (entry : PropertyEntry)
    → entry_from_state state entity property_id ≡ ok entry
    → lookup (property_entry_key entity property_id) state.entity_property_entries ≡ some entry
unfolding entry_from_state
entry_from_state-stored state entity property_id entry h =
    elim (Option-cases
      (lookup (property_entry_key entity property_id) state.entity_property_entries)) [
        | inl missing ↦ absurd (absent missing h)
        | inr (raw, found) ↦
            found ∙ ap some (post_init-same raw entry (rw (found, entry_from_state) at h))
      ]
  where
    absent :
        lookup (property_entry_key entity property_id) state.entity_property_entries ≡ none
        → entry_from_state state entity property_id ≡ ok entry
        → ⊥
    absent missing h' =
        let bad : raise property_entry_not_found ≡ ok entry =
          (rw (missing, entry_from_state) at h') in
        cc

pub rewrite_entry-outcome :
    (entity : EntityRef) (property_id : ℤ) (operation : BoundaryOperation)
    (change : Action PropertyEntry ℕ) (w : World)
    → ((entry : PropertyEntry) → IsValid entry → IsValid (change entry).1)
    → SourceOutcome entity property_id w (rewrite_entry entity property_id operation change w)
rewrite_entry-outcome entity property_id operation change w keeps =
    elim (rewrite_entry-cases entity property_id operation change w) [
      | inl raised ↦ inl raised
      | inr (entry, i, found, done, result) ↦ inr (
        operation,
        i,
        entry,
        (change entry).1,
        i,
        entry_from_state-stored w.state entity property_id entry found,
        keeps entry,
        result,
      )
    ]

pub component_stack_source-outcome :
    (entity : EntityRef) (property_id value : ℤ) (w : World)
    → SourceOutcome entity property_id w (component_stack_source entity property_id value w)
unfolding component_stack_source_to validate_raw
component_stack_source-outcome entity property_id value w = elim (Bool-cases (is_raw value)) [
  | inr bad ↦ inl (value_error, rw bad)
  | inl good ↦ rw good (
      rewrite_entry-outcome entity property_id BoundaryOperation.source_allocated
        (allocate_source_slot value) w (allocate-IsValid value))
]

pub update_contribution_source-outcome :
    (entity : EntityRef) (property_id source_index value : ℤ) (w : World)
    → SourceOutcome entity property_id w
        (update_contribution_source entity property_id source_index value w)
unfolding update_contribution_source_to validate_raw
update_contribution_source-outcome entity property_id source_index value w =
    elim (Bool-cases (is_raw value)) [
      | inr bad ↦ inl (value_error, rw bad)
      | inl good ↦ rw good (
          rewrite_entry-outcome entity property_id BoundaryOperation.source_updated
            (update_source_slot source_index value >> pure (pos_part source_index)) w
            (λ entry h.
              rw
                (>>-pure-state (update_source_slot source_index value) (pos_part source_index)
                  entry)
                (update-IsValid source_index value entry h)))
    ]

pub remove_contribution_source-outcome :
    (entity : EntityRef) (property_id source_index : ℤ) (w : World)
    → SourceOutcome entity property_id w
        (remove_contribution_source entity property_id source_index w)
unfolding remove_contribution_source_to
remove_contribution_source-outcome entity property_id source_index w =
    rewrite_entry-outcome entity property_id BoundaryOperation.source_removed
      (remove_source_slot source_index >> pure (pos_part source_index)) w
      (λ entry h.
        rw (>>-pure-state (remove_source_slot source_index) (pos_part source_index) entry)
          (remove-IsValid source_index entry h))

set_source_zero-IsValid :
    (function_id operand : ℤ) (entry : PropertyEntry)
    → IsValid entry
    → IsValid (set_source_zero function_id operand entry).1
unfolding set_source_zero
set_source_zero-IsValid function_id operand entry h =
    elim (Bool-cases (is_some entry.post_hook_context)) [
      | inl hooked ↦ rw hooked h
      | inr free ↦
          elim (Result-cases (apply_modify_function function_id entry.materialized operand)) [
            | inr (e, failed) ↦ rw (free, failed) h
            | inl (candidate, got) ↦
                rw (free, got, >>-pure-state {B = ℕ} (update_source_slot (pos 0) candidate) 0 entry)
                  (update-IsValid (pos 0) candidate entry h)
          ]
    ]

outcome-then :
    {A : Type 0} (entity : EntityRef) (property_id : ℤ) (w : World) (m : Action World ℕ) (a : A)
    → SourceOutcome entity property_id w (m w)
    → SourceOutcome entity property_id w ((m >> pure a) w)
outcome-then entity property_id w m a (inl (e, raised)) =
    inl (e, rw (raised, ◌>>◌, ◌>>=◌) (rw raised))
outcome-then entity property_id w m a (inr (op, i, entry, new, _, found, keeps, done)) =
    inr (op, i, entry, new, a, found, keeps, >>-pure-ok m a w done)

pub modify_source_zero-outcome :
    (entity : EntityRef) (property_id function_id operand : ℤ) (w : World)
    → SourceOutcome entity property_id w
        (modify_source_zero_untransformed entity property_id function_id operand w)
unfolding modify_source_zero_untransformed_to validate_raw
modify_source_zero-outcome entity property_id function_id operand w =
    elim (Bool-cases (is_raw operand)) [
      | inr bad ↦ inl (value_error, rw bad)
      | inl good ↦ elim (Bool-cases (contains special_property_ids property_id)) [
        | inl special ↦ inl (unsupported_special_property, rw (good, special))
        | inr ordinary ↦
            rw (good, ordinary)
              (outcome-then entity property_id w
                (rewrite_entry entity property_id BoundaryOperation.after_property_changed
                  (set_source_zero function_id operand))
                true
                (rewrite_entry-outcome entity property_id BoundaryOperation.after_property_changed
                  (set_source_zero function_id operand) w
                  (set_source_zero-IsValid function_id operand)))
      ]
    ]
