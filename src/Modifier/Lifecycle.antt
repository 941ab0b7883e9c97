-- ===== src/Modifier/Lifecycle.antt =====
-- src/hsr_battle_agent/battle_runtime/modifiers.py, the operations on the stored containers. A state
-- keeps one ordered container per entity; an absent one is empty.
pub mod TryAdd
pub mod Order
pub mod Invariant
pub mod Removal
pub mod Keeping
pub mod Calls
pub mod Reports
use hsr_battle_agent.Base.{
  Bool, List, Option, Result, [], get_elem?, if◌then◌else◌, index_error, length, ltb, none, ok,
  raise, some, suc, value_error, zero, ℕ, ◌+◌, ◌||◌, ◌∷◌,
}
use hsr_battle_agent.Base.Action.{Action, gets, lift, modify, pure, throw, ◌>>=◌, ◌>>◌}
use hsr_battle_agent.Base.Dict.{insert, int_eq, lookup}
use hsr_battle_agent.Base.Int.{eqb_ℤ, ltb_ℤ, pos, ℤ}
use hsr_battle_agent.Modifier.{
  ModifierContainer, ModifierRef, ModifierStacking, ModifierState, alive, append, index_of, ref,
  ref_eq, remove_at, replace_at, stacking_of, to_be_removed,
}
use hsr_battle_agent.Modifier.Match.{apply_redd_life_core}
use hsr_battle_agent.State.{BattleState, key_eq}
use hsr_battle_agent.Targets.{EntityRef}

-- `_container_from_battle_state`
unfoldable pub container_of : BattleState → EntityRef → ModifierContainer
container_of state target = elim (lookup target.runtime_id state.modifier_state_by_entity) [
  | none ↦ []
  | some items ↦ items
]

-- `_write_container_to_battle_state`
unfoldable pub write_container : EntityRef → ModifierContainer → Action BattleState (Unit {0})
write_container target items = modify (λ state. record state {
  modifier_state_by_entity = insert target.runtime_id items state.modifier_state_by_entity;
})

-- `max(item.instance_ordinal for item in items)`, from the greatest ordinal so far
unfoldable pub greatest_ordinal : ℕ → ModifierContainer → ℕ
greatest_ordinal best [] = best
greatest_ordinal best (m ∷ items) =
    greatest_ordinal (if ltb best m.instance_ordinal then m.instance_ordinal else best) items

-- `_next_instance_ordinal`
unfoldable pub next_instance_ordinal : ModifierContainer → ℕ
next_instance_ordinal [] = 0
next_instance_ordinal (m ∷ items) = greatest_ordinal m.instance_ordinal items + 1

unfoldable pub apply_modifier_instance :
    EntityRef → ModifierState → Action BattleState ModifierContainer
apply_modifier_instance target modifier = do
  items ← gets (λ state. container_of state target)
  let added = record modifier {
    owner_entity = target;
    instance_ordinal = next_instance_ordinal items;
  }
  write_container target (append items added)
  pure (append items added)

-- `_index_of_ref` and the read of `container.items[index]`; an absent instance raises.
unfoldable pub find_instance : ModifierContainer → ModifierState → Result (ℕ × ModifierState)
find_instance items modifier = elim (index_of items modifier) [
  | none ↦ raise value_error
  | some index ↦ elim (get_elem? items index) [ none ↦ raise index_error | some m ↦ ok (index, m) ]
]

-- `_replace_item`
unfoldable pub replace_item : EntityRef → ℕ → ModifierState → Action BattleState (Unit {0})
replace_item target index updated = do
  items ← gets (λ state. container_of state target)
  changed ← lift (replace_at items (pos index) updated)
  write_container target changed

unfoldable pub destroy_modifier_instance :
    EntityRef → ModifierState → Action BattleState ModifierState
destroy_modifier_instance target modifier = do
  items ← gets (λ state. container_of state target)
  found ← lift (find_instance items modifier)
  if ltb_ℤ alive found.1.state_raw then pure found.1 else (do
    replace_item target found.0 (record found.1 { state_raw = to_be_removed })
    pure (record found.1 { state_raw = to_be_removed }))

-- `process_modifier_redd` from the read of the container on
unfoldable pub refresh_instance :
    EntityRef → ModifierState → ModifierStacking → ℤ → ℤ → Action BattleState ModifierState
refresh_instance target modifier stacking new_count new_life = do
  items ← gets (λ state. container_of state target)
  found ← lift (find_instance items modifier)
  updated ← lift (apply_redd_life_core found.1 stacking new_count new_life)
  replace_item target found.0 updated
  pure updated

-- What a stacking ordinal stands for; an unknown one raises.
abbrev pub known_stacking : Option ModifierStacking → Result ModifierStacking
known_stacking none = raise value_error
known_stacking (some stacking) = ok stacking

unfoldable pub process_modifier_redd :
    EntityRef → ModifierState → ℤ → ℤ → ℤ → Action BattleState ModifierState
unfolding stacking_of refresh_instance
process_modifier_redd target modifier stacking new_count new_life = do
  known ← lift (known_stacking (stacking_of stacking))
  refresh_instance target modifier known new_count new_life

unfoldable pub on_activate_modifier : EntityRef → ModifierState → Action BattleState ModifierState
on_activate_modifier target modifier = do
  items ← gets (λ state. container_of state target)
  found ← lift (find_instance items modifier)
  if eqb_ℤ found.1.state_raw alive then pure found.1 else (do
    replace_item target found.0 (record found.1 { state_raw = alive })
    pure (record found.1 { state_raw = alive }))

-- The test that keeps an item in `remove_dirty_modifiers`.
abbrev pub stays : ModifierState → Bool
stays m = eqb_ℤ m.state_raw alive || ltb 0 m.destroy_guard

-- One round of the loop of `remove_dirty_modifiers`.
abbrev pub remove_unless_stays : ModifierContainer → ℕ → Result ModifierContainer
remove_unless_stays items index = elim (get_elem? items index) [
  | none ↦ raise index_error
  | some m ↦ if stays m then ok items else remove_at items (pos index)
]

-- The loop on the indexes below the first argument, downwards.
unfoldable pub remove_dirty_below : ℕ → ModifierContainer → Result ModifierContainer
remove_dirty_below zero items = ok items
remove_dirty_below (suc index) items = elim (remove_unless_stays items index) [
  | ok kept ↦ remove_dirty_below index kept
  | raise e ↦ raise e
]

unfoldable pub remove_dirty_modifiers : EntityRef → Action BattleState ModifierContainer
remove_dirty_modifiers target = do
  items ← gets (λ state. container_of state target)
  kept ← lift (remove_dirty_below (length items) items)
  write_container target kept
  pure kept

-- `items[-1]`
abbrev pub last_item : ModifierContainer → Result ModifierState
last_item [] = raise index_error
last_item (m ∷ []) = ok m
last_item (m ∷ n ∷ items) = last_item (n ∷ items)

-- `add_modifier_task_begin_apply`: the references that were applied, in the order of the targets.
unfoldable pub add_modifier_task_begin_apply :
    List (Option EntityRef) → ModifierState → Action BattleState (List ModifierRef)
add_modifier_task_begin_apply [] modifier = pure []
add_modifier_task_begin_apply (none ∷ targets) modifier = throw value_error
add_modifier_task_begin_apply (some target ∷ targets) modifier = do
  items ← apply_modifier_instance target modifier
  last ← lift (last_item items)
  applied ← add_modifier_task_begin_apply targets modifier
  pure (ref last ∷ applied)
