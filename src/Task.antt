-- ===== src/Task.antt =====
-- src/hsr_battle_agent/battle_ir/actions.py and battle_runtime/actions.py: the slots of a generated task
-- executor and the leaves of its lifecycle. A config reference is a string.
pub mod Lifecycle
use hsr_battle_agent.Base.{Option, String, none, some, ℕ}
use hsr_battle_agent.Targets.{EntityRef, TargetSet, collapse_required_single_or_null}

pub data TaskState : Type 0 where
  ready executing success fail : TaskState

-- The int32 that the executor's slot holds.
abbrev pub raw_value : TaskState → ℕ
raw_value ready = 0x7777
raw_value executing = 0x8888
raw_value success = 0x9999
raw_value fail = 0xAAAA

-- The marker of the next phase.
abbrev pub tick : String
tick = "Tick"

pub record TaskExecutionState : Type 0 where
  pub task_state : TaskState
  pub config_ref : Option String
  pub selected_target : Option EntityRef
  pub next_phase : Option String

unfoldable pub task_executor_init : Option String → TaskExecutionState
task_executor_init config = record {
  task_state = ready;
  config_ref = config;
  selected_target = none;
  next_phase = none;
}

unfoldable pub task_executor_base_ready_init : TaskExecutionState
task_executor_base_ready_init = record {
  task_state = ready;
  config_ref = none;
  selected_target = none;
  next_phase = none;
}

unfoldable pub task_begin_immediate_success : TaskExecutionState → TaskExecutionState
task_begin_immediate_success execution = record execution { task_state = success }

unfoldable pub task_reset_ready : TaskExecutionState → TaskExecutionState
task_reset_ready execution = record execution { task_state = ready }

unfoldable pub task_state_read : TaskExecutionState → TaskState
task_state_read execution = execution.task_state

unfoldable pub task_begin_select_single_target : TaskExecutionState → TargetSet → TaskExecutionState
unfolding collapse_required_single_or_null
task_begin_select_single_target execution targets = record execution {
  task_state = executing;
  selected_target = collapse_required_single_or_null targets;
  next_phase = some tick;
}

unfoldable pub task_reset_ready_clear_selected_target : TaskExecutionState → TaskExecutionState
task_reset_ready_clear_selected_target execution = record execution {
  task_state = ready;
  selected_target = none;
  next_phase = none;
}
