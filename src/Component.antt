-- ===== src/Component.antt =====
-- src/hsr_battle_agent/battle_runtime/property.py, the operations on the stored entries: source
-- contributions of a component, contributions owned by a modifier, and the source-0 mutation.
-- An opaque context token is read by none of them and has no argument here.
pub mod Laws
pub mod Outcomes
pub mod Invariant
pub mod Sinks
pub mod Contributions
pub mod Ownership
pub mod Owned
use hsr_battle_agent.Base.{
  Bool, List, [], false, true, unsupported_post_stage, unsupported_special_property, ℕ, ◌||◌, ◌∷◌,
}
use hsr_battle_agent.Base.Action.{Action, gets, lift, pure, raise_if, ◌>>=◌, ◌>>◌}
use hsr_battle_agent.Base.Int.{eqb_ℤ, pos, pos_part, ℤ}
use hsr_battle_agent.FixPoint.{validate_raw}
use hsr_battle_agent.FixPoint.Arith.{apply_modify_function}
use hsr_battle_agent.Property.{PropertyEntry, is_some}
use hsr_battle_agent.Property.Slots.{allocate_source_slot, remove_source_slot, update_source_slot}
use hsr_battle_agent.State.{
  BoundaryOperation, BoundarySink, World, emit_boundary_to, entry_from_state, recording,
  store_entry,
}
use hsr_battle_agent.Targets.{EntityRef}

-- The body that the three source operations share: read a private copy, change it, store it, tell
-- the sink. A raise on the copy leaves the state alone; a raise of the sink comes after the store.
unfoldable pub rewrite_entry_to :
    BoundarySink → EntityRef → ℤ → BoundaryOperation → Action PropertyEntry ℕ → Action World ℕ
rewrite_entry_to sink entity property_id operation change = do
  w ← gets (λ w. w)
  entry ← lift (entry_from_state w.state entity property_id)
  source_index ← lift (change entry).0
  store_entry entity property_id (change entry).1
  emit_boundary_to sink (record {
    operation = operation;
    entity = entity;
    property_id = property_id;
    source_index = source_index;
    old_materialized = entry.materialized;
    new_materialized = (change entry).1.materialized;
  })
  pure source_index

abbrev pub rewrite_entry :
    EntityRef → ℤ → BoundaryOperation → Action PropertyEntry ℕ → Action World ℕ
rewrite_entry = rewrite_entry_to recording

unfoldable pub component_stack_source_to : BoundarySink → EntityRef → ℤ → ℤ → Action World ℕ
component_stack_source_to sink component property_id runtime_value = do
  lift (validate_raw runtime_value)
  rewrite_entry_to sink component property_id BoundaryOperation.source_allocated
      (allocate_source_slot runtime_value)

unfoldable pub update_contribution_source_to : BoundarySink → EntityRef → ℤ → ℤ → ℤ → Action World ℕ
update_contribution_source_to sink component property_id source_index new_source_value = do
  lift (validate_raw new_source_value)
  rewrite_entry_to sink component property_id BoundaryOperation.source_updated
      (update_source_slot source_index new_source_value >> pure (pos_part source_index))

unfoldable pub remove_contribution_source_to : BoundarySink → EntityRef → ℤ → ℤ → Action World ℕ
remove_contribution_source_to sink component property_id source_index =
    rewrite_entry_to sink component property_id BoundaryOperation.source_removed
      (remove_source_slot source_index >> pure (pos_part source_index))

-- The three at the recording sink.
abbrev pub component_stack_source : EntityRef → ℤ → ℤ → Action World ℕ
component_stack_source = component_stack_source_to recording

abbrev pub update_contribution_source : EntityRef → ℤ → ℤ → ℤ → Action World ℕ
update_contribution_source = update_contribution_source_to recording

abbrev pub remove_contribution_source : EntityRef → ℤ → ℤ → Action World ℕ
remove_contribution_source = remove_contribution_source_to recording

-- The two boundaries under their older names.
unfoldable pub component_stack_boundary : EntityRef → ℤ → ℤ → Action World ℕ
component_stack_boundary component property_id value =
    component_stack_source component property_id value

unfoldable pub component_unstack_boundary : EntityRef → ℤ → ℤ → Action World ℕ
component_unstack_boundary component property_id contribution_key =
    remove_contribution_source component property_id contribution_key

-- `SPECIAL_PROPERTY_IDS`
abbrev pub special_property_ids : List ℤ
special_property_ids =
    pos 10
    ∷ pos 12
    ∷ pos 14
    ∷ pos 16
    ∷ pos 18
    ∷ pos 20
    ∷ pos 22
    ∷ pos 24
    ∷ pos 26
    ∷ pos 28
    ∷ pos 30
    ∷ pos 32
    ∷ []

abbrev pub contains : List ℤ → ℤ → Bool
contains [] id = false
contains (x ∷ ids) id = eqb_ℤ x id || contains ids id

-- The change that `modify_source_zero_untransformed` makes on its copy of the entry.
unfoldable pub set_source_zero : ℤ → ℤ → Action PropertyEntry ℕ
set_source_zero function_id operand = do
  entry ← gets (λ entry. entry)
  raise_if (is_some entry.post_hook_context) unsupported_post_stage
  candidate ← lift (apply_modify_function function_id entry.materialized operand)
  update_source_slot (pos 0) candidate
  pure 0

unfoldable pub modify_source_zero_untransformed_to :
    BoundarySink → EntityRef → ℤ → ℤ → ℤ → Action World Bool
modify_source_zero_untransformed_to sink component property_id function_id operand = do
  lift (validate_raw operand)
  raise_if (contains special_property_ids property_id) unsupported_special_property
  rewrite_entry_to sink component property_id BoundaryOperation.after_property_changed
      (set_source_zero function_id operand)
  pure true

abbrev pub modify_source_zero_untransformed : EntityRef → ℤ → ℤ → ℤ → Action World Bool
modify_source_zero_untransformed = modify_source_zero_untransformed_to recording
