-- ===== src/Component/Contributions.antt =====
-- src/hsr_battle_agent/battle_runtime/property.py, the contributions that a modifier owns, and the
-- StackProperty task.
use hsr_battle_agent.Base.{
  Bool, List, Option, [], false, if◌then◌else◌, none, some, value_error, ℕ, ◌&&◌, ◌++◌, ◌∷◌,
}
use hsr_battle_agent.Base.Action.{Action, gets, lift, modify, pure, throw, ◌>>=◌, ◌>>◌}
use hsr_battle_agent.Base.Dict.{Dict, erase, insert, int_eq, lookup}
use hsr_battle_agent.Base.Int.{eqb_ℤ, ltb_ℤ, pos, ℤ}
use hsr_battle_agent.Component.{
  component_stack_source, remove_contribution_source, update_contribution_source,
}
use hsr_battle_agent.FixPoint.{validate_raw}
use hsr_battle_agent.Modifier.{ModifierRef, ModifierState, alive, ref, ref_eq}
use hsr_battle_agent.State.{ModifierPropertyContribution, World, key_eq}
use hsr_battle_agent.Targets.{EntityRef, TargetSet}

abbrev pub Records : Type 0
Records = List ModifierPropertyContribution

abbrev pub records_of : World → ModifierRef → Records
records_of w owner = elim (lookup owner w.state.modifier_property_contributions) [
  | none ↦ []
  | some records ↦ records
]

abbrev pub with_contributions : World → Dict ModifierRef Records → World
with_contributions w contributions = record w {
  state = record w.state { modifier_property_contributions = contributions };
}

abbrev pub put_records : ModifierRef → Records → Action World (Unit {0})
put_records owner records =
    modify
      (λ w. with_contributions w (insert owner records w.state.modifier_property_contributions))

-- `_records_for_modifier`: a missing list is created, and stays when the caller raises later.
unfoldable pub records_for_modifier : ModifierRef → Action World Records
records_for_modifier owner = do
  w ← gets (λ w. w)
  put_records owner (records_of w owner)
  pure (records_of w owner)

-- The forward scan of a refresh: the first record of the property on the target.
unfoldable pub find_record : ℤ → EntityRef → Records → Option ℕ
find_record property_id target [] = none
find_record property_id target (r ∷ records) =
    if eqb_ℤ r.property_id property_id && eqb_ℤ r.target.runtime_id target.runtime_id
    then some r.source_index
    else find_record property_id target records

-- The path that allocates a source and appends its owner record.
unfoldable pub stack_new : ModifierRef → ℤ → ℤ → EntityRef → Action World (Option ℕ)
stack_new owner property_id value target = do
  source_index ← component_stack_source target property_id value
  w ← gets (λ w. w)
  put_records owner (
      records_of w owner
      ++ record {
        modifier = owner;
        target = target;
        property_id = property_id;
        source_index = source_index;
      }
        ∷ [])
  pure (some source_index)

-- The two ends of `stack_property_contribution`: a record that was found has its source updated, or a
-- source is allocated.
unfoldable pub stack_or_update :
    ModifierRef → ℤ → ℤ → EntityRef → Option ℕ → Action World (Option ℕ)
stack_or_update owner property_id value target none = stack_new owner property_id value target
stack_or_update owner property_id value target (some source_index) = do
  update_contribution_source target property_id (pos source_index) value
  pure (some source_index)

unfoldable pub stack_property_contribution :
    ModifierState → ℤ → ℤ → EntityRef → Bool → Action World (Option ℕ)
stack_property_contribution modifier property_id value target is_refresh = do
  lift (validate_raw value)
  if ltb_ℤ alive modifier.state_raw then pure none else (do
    records ← records_for_modifier (ref modifier)
    stack_or_update (ref modifier) property_id value target
        (if is_refresh then find_record property_id target records else none))

-- The loop of `pop_property_contributions` over the owned records.
unfoldable pub remove_records : Records → Action World (Unit {0})
remove_records [] = pure tt
remove_records (r ∷ records) =
    remove_contribution_source r.target r.property_id (pos r.source_index) >> remove_records records

unfoldable pub pop_property_contributions : ModifierState → Action World (Unit {0})
pop_property_contributions modifier = do
  w ← gets (λ w. w)
  remove_records (records_of w (ref modifier))
  modify (λ w. with_contributions w (erase (ref modifier) w.state.modifier_property_contributions))

pub record StackPropertyExecutor : Type 0 where
  pub modifier : ModifierState
  pub property_id : ℤ
  pub kind_marker : ℕ

unfoldable pub stack_property_executor_init : ModifierState → ℤ → StackPropertyExecutor
stack_property_executor_init modifier property_id = record {
  modifier = modifier;
  property_id = property_id;
  kind_marker = 0x7777;
}

-- The targets that the task applied, each with its source index.
unfoldable pub stack_targets :
    StackPropertyExecutor → ℤ → List (Option EntityRef) → Action World (List (EntityRef × Option ℕ))
stack_targets executor value [] = pure []
stack_targets executor value (none ∷ items) = throw value_error
stack_targets executor value (some target ∷ items) = do
  source_index ←
      stack_property_contribution executor.modifier executor.property_id value target false
  applied ← stack_targets executor value items
  pure ((target, source_index) ∷ applied)

unfoldable pub stack_property_execute :
    StackPropertyExecutor → TargetSet → ℤ → Action World (List (EntityRef × Option ℕ))
stack_property_execute executor selected_targets evaluated_property_value = do
  lift (validate_raw evaluated_property_value)
  stack_targets executor evaluated_property_value selected_targets.items
