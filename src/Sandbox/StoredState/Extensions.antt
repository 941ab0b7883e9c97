-- ===== src/Sandbox/StoredState/Extensions.antt =====
-- src/hsr_battle_agent/battle_sandbox/state.py: the operations that write an extension or the modifier
-- collection of an entity.
use hsr_battle_agent.Base.{
  Result, guard, if◌then◌else◌, length, not, ok, value_error, ◌==◌, ◌>>=◌, ◌>>◌,
}
use hsr_battle_agent.Base.Text.{Text, eqb_text}
use hsr_battle_agent.Json.{
  Fields, Items, PyValue, array, deep_copy_json_value, field, name, none_left,
}
use hsr_battle_agent.Sandbox.StoredState.{StoredState, is_key}

-- `d[key] = value` and `d.pop(key, None)`
unfoldable pub set_field : Text → PyValue → Fields → Fields
unfolding eqb_text
set_field key value none_left = field (name key) value none_left
set_field key value (field k old fields) =
    if is_key key k then field k value fields else field k old (set_field key value fields)

unfoldable pub remove_field : Text → Fields → Fields
unfolding eqb_text
remove_field key none_left = none_left
remove_field key (field k value fields) =
    if is_key key k then fields else field k value (remove_field key fields)

-- `set_extension` and `remove_extension`
unfoldable pub set_extension : Text → PyValue → StoredState → Result StoredState
unfolding deep_copy_json_value set_field
set_extension key value s = do
  guard (not (length key == 0)) value_error
  copied ← deep_copy_json_value value
  ok (record s { extensions = set_field key copied s.extensions })

unfoldable pub remove_extension : Text → StoredState → StoredState
unfolding remove_field
remove_extension key s = record s { extensions = remove_field key s.extensions }

-- `set_modifier_collection` and `clear_modifier_collection`, at the text of the entity's id
unfoldable pub set_modifier_collection : Text → Items → StoredState → Result StoredState
unfolding deep_copy_json_value set_field
set_modifier_collection id items s = do
  copied ← deep_copy_json_value (array items)
  ok (record s { modifier_state_by_entity = set_field id copied s.modifier_state_by_entity })

unfoldable pub clear_modifier_collection : Text → StoredState → StoredState
unfolding remove_field
clear_modifier_collection id s = record s {
  modifier_state_by_entity = remove_field id s.modifier_state_by_entity;
}
