-- ===== src/Task/Lifecycle.antt =====
-- src/hsr_battle_agent/battle_runtime/actions.py: what every sequence of lifecycle leaves keeps.
use hsr_battle_agent.Base.{Option, String, inl, inr, none, refl, some, ◌≡◌, ◌≢◌, ◌⊎◌}
use hsr_battle_agent.Targets.{TargetSet}
use hsr_battle_agent.Task.{
  TaskExecutionState, task_begin_immediate_success, task_begin_select_single_target,
  task_executor_init, task_reset_ready, task_reset_ready_clear_selected_target, tick, executing,
  ready, fail,
}

-- One leaf of the lifecycle.
pub data Step : TaskExecutionState → TaskExecutionState → Type 0 where
  begin_success : (t : TaskExecutionState) → Step t (task_begin_immediate_success t)
  reset : (t : TaskExecutionState) → Step t (task_reset_ready t)
  begin_select :
      (t : TaskExecutionState) (targets : TargetSet)
      → Step t (task_begin_select_single_target t targets)
  reset_clear : (t : TaskExecutionState) → Step t (task_reset_ready_clear_selected_target t)

pub data Reach (s : TaskExecutionState) : TaskExecutionState → Type 0 where
  here : Reach s s
  next : {t u : TaskExecutionState} → Reach s t → Step t u → Reach s u

-- The config is the one that the executor was built with, an executing task has its next phase set, no task has
-- failed, and a target is selected only with that phase.
pub record IsTask (config : Option String) (t : TaskExecutionState) : Type 0 where
  pub config_kept : t.config_ref ≡ config
  pub executing_ticks : (t.task_state ≢ executing) ⊎ (t.next_phase ≡ some tick)
  pub not_failed : t.task_state ≢ fail
  pub target_ticks : (t.selected_target ≡ none) ⊎ (t.next_phase ≡ some tick)

Step-IsTask :
    {config : Option String} {t u : TaskExecutionState}
    → Step t u
    → IsTask config t
    → IsTask config u
unfolding task_begin_immediate_success task_reset_ready task_begin_select_single_target
    task_reset_ready_clear_selected_target
Step-IsTask (begin_success t) h = record {
  config_kept = h.config_kept;
  executing_ticks = inl (λ e. cc);
  not_failed = λ e. cc;
  target_ticks = h.target_ticks;
}
Step-IsTask (reset t) h = record {
  config_kept = h.config_kept;
  executing_ticks = inl (λ e. cc);
  not_failed = λ e. cc;
  target_ticks = h.target_ticks;
}
Step-IsTask (begin_select t targets) h = record {
  config_kept = h.config_kept;
  executing_ticks = inr refl;
  not_failed = λ e. cc;
  target_ticks = inr refl;
}
Step-IsTask (reset_clear t) h = record {
  config_kept = h.config_kept;
  executing_ticks = inl (λ e. cc);
  not_failed = λ e. cc;
  target_ticks = inl refl;
}

init-IsTask : (config : Option String) → IsTask config (task_executor_init config)
unfolding task_executor_init
init-IsTask config = record {
  config_kept = refl;
  executing_ticks = inl (λ e. cc);
  not_failed = λ e. cc;
  target_ticks = inl refl;
}

leaves-IsTask :
    (config : Option String) {t : TaskExecutionState}
    → Reach (task_executor_init config) t
    → IsTask config t
leaves-IsTask config here = init-IsTask config
leaves-IsTask config (next r s) = Step-IsTask s (leaves-IsTask config r)

clear-init :
    (config : Option String) (t : TaskExecutionState)
    → t.config_ref ≡ config
    → task_reset_ready_clear_selected_target t ≡ task_executor_init config
unfolding task_reset_ready_clear_selected_target task_executor_init
clear-init config t e =
    λ i. record { task_state = ready; config_ref = e i; selected_target = none; next_phase = none }

-- Whatever leaves have run since the executor was built, its config is the one that it was built with, the
-- task has not failed, it executes or has a target only with the next phase set, and the clearing reset
-- takes it back to the executor as it was built.
pub Reach-IsTask :
    (config : Option String) {t : TaskExecutionState}
    → Reach (task_executor_init config) t
    → IsTask config t × (task_reset_ready_clear_selected_target t ≡ task_executor_init config)
Reach-IsTask config {t} r = let h = leaves-IsTask config r in (h, clear-init config t h.config_kept)
