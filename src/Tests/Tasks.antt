-- ===== src/Tests/Tasks.antt =====
-- The lifecycle leaves of battle_runtime/actions.py on one executor.
use hsr_battle_agent.Base.{[], refl, some, ◌∷◌, ◌≡◌}
use hsr_battle_agent.Base.Int.{pos}
use hsr_battle_agent.Targets.{TargetSet, collapse_required_single_or_null}
use hsr_battle_agent.Task.{
  TaskExecutionState, task_begin_select_single_target, task_executor_init, task_reset_ready,
  task_reset_ready_clear_selected_target,
}
use hsr_battle_agent.Task.Lifecycle.{IsTask, Reach-IsTask, begin_select, here, next, reset}

abbrev targets : TargetSet
targets = record { items = some (record { runtime_id = pos 4 }) ∷ [] }

abbrev selected : TaskExecutionState
selected = task_begin_select_single_target (task_executor_init (some "config")) targets

-- The plain reset keeps the target and the phase.
reset-selected : (task_reset_ready selected).selected_target ≡ some (record { runtime_id = pos 4 })
unfolding task_reset_ready task_begin_select_single_target collapse_required_single_or_null
reset-selected = refl

Reach-IsTask_example :
    IsTask (some "config") (task_reset_ready selected)
    × (task_reset_ready_clear_selected_target (task_reset_ready selected)
        ≡ task_executor_init (some "config"))
Reach-IsTask_example =
    Reach-IsTask (some "config") (next (next here (begin_select _ targets)) (reset _))
