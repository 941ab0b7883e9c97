-- ===== src/Targets.antt =====
-- src/hsr_battle_agent/battle_ir/targets.py and battle_runtime/targets.py: entity references, ordered
-- target collections, and the selectors that read the execution context.
use hsr_battle_agent.Base.{List, Option, [], if◌then◌else◌, length, none, not, some, ℕ, ◌==◌, ◌∷◌}
use hsr_battle_agent.Base.Int.{ℤ}

-- An entity is its runtime id.
pub record EntityRef : Type 0 where
  pub runtime_id : ℤ

-- The items in append order; duplicates and nulls are kept.
pub record TargetSet : Type 0 where
  pub items : List (Option EntityRef)

-- The entities of `ExecutionContext` that the selectors read.
pub record TaskContext : Type 0 where
  pub task_action_target : Option EntityRef
  pub owner_entity : Option EntityRef
  pub caster_entity : Option EntityRef

-- `TargetSet.count`
abbrev pub count : TargetSet → ℕ
count targets = length targets.items

unfoldable pub context_task_action_target : TaskContext → Option EntityRef
context_task_action_target context = context.task_action_target

unfoldable pub context_owner_entity : TaskContext → Option EntityRef
context_owner_entity context = context.owner_entity

unfoldable pub select_task_action_target : TaskContext → TargetSet
select_task_action_target context = elim context.task_action_target [
  | none ↦ record { items = [] }
  | some entity ↦ record { items = some entity ∷ [] }
]

unfoldable pub select_caster : TaskContext → TargetSet
select_caster context = record { items = context.caster_entity ∷ [] }

unfoldable pub select_none : TaskContext → TargetSet
select_none context = record { items = [] }

-- `targets.items[0]` of a collection that is not empty
abbrev first : List (Option EntityRef) → Option EntityRef
first [] = none
first (item ∷ items) = item

unfoldable pub collapse_single_or_null : TargetSet → Option EntityRef
collapse_single_or_null targets = if count targets == 0 then none else first targets.items

unfoldable pub collapse_required_single_or_null : TargetSet → Option EntityRef
collapse_required_single_or_null targets =
    if not (count targets == 1) then none else first targets.items

unfoldable pub game_entity_runtime_id : EntityRef → ℤ
game_entity_runtime_id entity = entity.runtime_id
