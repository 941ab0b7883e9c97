-- ===== src/Modifier/Lifecycle/Calls.antt =====
-- The operations of src/hsr_battle_agent/battle_runtime/modifiers.py on stored containers, as
-- calls.
use hsr_battle_agent.Base.{List, Option}
use hsr_battle_agent.Base.Int.{ℤ}
use hsr_battle_agent.Modifier.{ModifierState, ObjectRef}
use hsr_battle_agent.Modifier.Lifecycle.{
  add_modifier_task_begin_apply, apply_modifier_instance, destroy_modifier_instance,
  on_activate_modifier, process_modifier_redd, remove_dirty_modifiers,
}
use hsr_battle_agent.Modifier.Lifecycle.Invariant.{AllContainers, apply_modifier_instance-Keeps}
use hsr_battle_agent.Modifier.Lifecycle.Keeping.{
  add_modifier_task_begin_apply-Keeps, destroy_modifier_instance-Keeps, on_activate_modifier-Keeps,
  process_modifier_redd-Keeps, remove_dirty_modifiers-Keeps, try_add_modifier_instance-Keeps,
}
use hsr_battle_agent.Modifier.Lifecycle.TryAdd.{try_add_modifier_instance}
use hsr_battle_agent.State.{BattleState}
use hsr_battle_agent.Targets.{EntityRef}

pub data ModifierCall : Type 0 where
  apply : EntityRef → ModifierState → ModifierCall
  destroy : EntityRef → ModifierState → ModifierCall
  on_activate : EntityRef → ModifierState → ModifierCall
  remove_dirty : EntityRef → ModifierCall
  redd : EntityRef → ModifierState → ℤ → ℤ → ℤ → ModifierCall
  try_add : EntityRef → ModifierState → ℤ → ℤ → Option EntityRef → Option ObjectRef → ModifierCall
  task_begin : List (Option EntityRef) → ModifierState → ModifierCall

-- The state after a call, whether it returned or raised.
unfoldable pub state_after : ModifierCall → BattleState → BattleState
state_after (apply target modifier) state = (apply_modifier_instance target modifier state).1
state_after (destroy target modifier) state = (destroy_modifier_instance target modifier state).1
state_after (on_activate target modifier) state = (on_activate_modifier target modifier state).1
state_after (remove_dirty target) state = (remove_dirty_modifiers target state).1
state_after (redd target modifier stacking new_count new_life) state =
    (process_modifier_redd target modifier stacking new_count new_life state).1
state_after (try_add target modifier stacking stacking_flag caster_entity source) state =
    (try_add_modifier_instance target modifier stacking_flag caster_entity source stacking state).1
state_after (task_begin targets modifier) state =
    (add_modifier_task_begin_apply targets modifier state).1

-- Every call keeps the stored containers: each instance is owned by the container's entity, and the
-- ordinals grow along it, so that no two instances share a reference. This holds after a raise too.
pub state_after-AllContainers :
    (call : ModifierCall) (state : BattleState)
    → AllContainers state
    → AllContainers (state_after call state)
unfolding state_after
state_after-AllContainers (apply target modifier) = apply_modifier_instance-Keeps target modifier
state_after-AllContainers (destroy target modifier) =
    destroy_modifier_instance-Keeps target modifier
state_after-AllContainers (on_activate target modifier) = on_activate_modifier-Keeps target modifier
state_after-AllContainers (remove_dirty target) = remove_dirty_modifiers-Keeps target
state_after-AllContainers (redd target modifier stacking new_count new_life) =
    process_modifier_redd-Keeps target modifier stacking new_count new_life
state_after-AllContainers (try_add target modifier stacking stacking_flag caster_entity source) =
    try_add_modifier_instance-Keeps target modifier stacking_flag caster_entity source stacking
state_after-AllContainers (task_begin targets modifier) =
    add_modifier_task_begin_apply-Keeps targets modifier
