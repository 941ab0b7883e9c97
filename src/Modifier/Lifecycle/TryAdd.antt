-- ===== src/Modifier/Lifecycle/TryAdd.antt =====
-- src/hsr_battle_agent/battle_runtime/modifiers.py, try_add_modifier_instance: what is done about
-- an instance that matches the one to be added. The argument activate is read by its type check
-- only and is no argument here.
use hsr_battle_agent.Base.{
  Bool, List, Option, Result, [], false, if◌then◌else◌, length, map, none, ok, raise, some, true,
  value_error, ℕ, ◌&&◌, ◌∷◌,
}
use hsr_battle_agent.Base.Action.{Action, gets, lift, pure, raise_if, throw, ◌>>=◌, ◌>>◌}
use hsr_battle_agent.Base.Int.{eqb_ℤ, ltb_ℤ, pos, ℤ}
use hsr_battle_agent.Modifier.{
  ModifierMatchKey, ModifierRef, ModifierStacking, ModifierState, alive, append, ref,
  replace_by_caster, replace_by_caster_ability, replace_by_caster_or_unstack, retain_global_latest,
  retain_global_latest_unique, stacking_of, to_be_added,
}
use hsr_battle_agent.Modifier.Lifecycle.{
  container_of, destroy_modifier_instance, next_instance_ordinal, refresh_instance, write_container,
}
use hsr_battle_agent.Modifier.Match.{modifier_container_find}
use hsr_battle_agent.State.{BattleState}
use hsr_battle_agent.Targets.{EntityRef}
use hsr_battle_agent.Turn.Sort.{sort}
use hsr_battle_agent.Turn.Steps.{entity_of}
use hsr_battle_agent.Values.{ObjectRef}

-- `_append_new_instance`: the instance and the length after it
unfoldable pub append_new_instance :
    EntityRef
    → ModifierState
    → ℤ
    → Option EntityRef
    → Option ObjectRef
    → Action BattleState (ModifierState × ℕ)
append_new_instance target modifier stacking_flag caster_entity source_provider_ref = do
  items ← gets (λ state. container_of state target)
  let added = record modifier {
    owner_entity = target;
    instance_ordinal = next_instance_ordinal items;
    state_raw = alive;
    stacking_flag_raw = stacking_flag;
    caster_entity = caster_entity;
    source_provider_ref = source_provider_ref;
    is_max_layer = false;
  }
  write_container target (append items added)
  pure (added, length (append items added))

pub data Disposition : Type 0 where
  appended duplicate_appended destroyed_and_appended : Disposition
  delayed_existing existing_processed : Disposition

pub record ModifierLifecycleResult : Type 0 where
  pub disposition : Disposition
  pub modifier : ModifierState
  pub before_count : ℕ
  pub after_count : ℕ
  pub destroyed_ref : Option ModifierRef

-- What is reported of an instance that was processed in place.
abbrev pub processed : ℕ → ModifierState → ModifierLifecycleResult
processed before updated = record {
  disposition = existing_processed;
  modifier = updated;
  before_count = before;
  after_count = before;
  destroyed_ref = none;
}

abbrev pub source_required : ModifierStacking → Bool
source_required replace_by_caster = true
source_required replace_by_caster_or_unstack = true
source_required replace_by_caster_ability = true
source_required _ = false

abbrev pub lacks : Option ObjectRef → Bool
lacks none = true
lacks (some _) = false

abbrev pub is_global : ModifierStacking → Bool
is_global retain_global_latest = true
is_global retain_global_latest_unique = true
is_global _ = false

-- `_global_targets_with_containers`: the owners by their ids, in order
unfoldable pub global_targets : BattleState → Result (List EntityRef)
global_targets state =
    elim (sort (λ a b. ok (ltb_ℤ a b)) (map (λ pair. pair.0) state.modifier_state_by_entity)) [
      | raise e ↦ raise e
      | ok ids ↦ ok (map entity_of ids)
    ]

-- The loop over the search targets: the first match with its owner.
unfoldable pub search_existing :
    BattleState → ModifierMatchKey → List EntityRef → Option (EntityRef × ModifierState)
search_existing state match_key [] = none
search_existing state match_key (owner ∷ owners) =
    let rest = search_existing state match_key owners in
    elim (modifier_container_find (container_of state owner) match_key (pos 0)) [
      | some m ↦ some (owner, m)
      | none ↦ rest
    ]

-- What the stacking does about a match: the branches after the lookup, in their order.
pub data Decision : Type 0 where
  append_duplicate replace_global delay_existing process_existing : Decision

abbrev pub caster_is : Option EntityRef → EntityRef → Bool
caster_is none target = false
caster_is (some caster) target = eqb_ℤ caster.runtime_id target.runtime_id

abbrev pub in_place : ModifierState → Decision
in_place existing =
    if eqb_ℤ existing.state_raw to_be_added then delay_existing else process_existing

unfoldable pub decide : ModifierStacking → ModifierState → EntityRef → Decision
decide ModifierStacking.multiple existing target = append_duplicate
decide retain_global_latest existing target = replace_global
decide retain_global_latest_unique existing target =
    if caster_is existing.caster_entity target then in_place existing else replace_global
decide _ existing target = in_place existing

module _ (target : EntityRef) (modifier : ModifierState) (stacking_flag : ℤ)
    (caster_entity : Option EntityRef) (source_provider_ref : Option ObjectRef) where
  -- An append, with what it reports.
  unfoldable pub append_as :
      Disposition → Option ModifierRef → ℕ → Action BattleState ModifierLifecycleResult
  append_as disposition destroyed before = do
    added ← append_new_instance target modifier stacking_flag caster_entity source_provider_ref
    pure (record {
      disposition = disposition;
      modifier = added.0;
      before_count = before;
      after_count = added.1;
      destroyed_ref = destroyed;
    })

  unfoldable pub act_on :
      ModifierStacking
      → EntityRef
      → ModifierState
      → ℕ
      → Decision
      → Action BattleState ModifierLifecycleResult
  act_on stacking owner existing before append_duplicate = append_as duplicate_appended none before
  act_on stacking owner existing before replace_global =
      destroy_modifier_instance owner existing
      >> append_as destroyed_and_appended (some (ref existing)) before
  act_on stacking owner existing before delay_existing = pure (record {
    disposition = delayed_existing;
    modifier = existing;
    before_count = before;
    after_count = before;
    destroyed_ref = none;
  })
  act_on stacking owner existing before process_existing = do
    updated ← refresh_instance owner existing stacking (pos modifier.count) modifier.current_life
    pure (processed before updated)

  -- The end of `try_add_modifier_instance`, on what the search has found.
  unfoldable pub add_or_act :
      ModifierStacking
      → ℕ
      → Option (EntityRef × ModifierState)
      → Action BattleState ModifierLifecycleResult
  add_or_act stacking before none = append_as appended none before
  add_or_act stacking before (some (owner, existing)) =
      act_on stacking owner existing before (decide stacking existing target)

  abbrev pub match_key : ModifierMatchKey
  match_key = record {
    name = modifier.name;
    stacking_flag = stacking_flag;
    caster_entity = caster_entity;
    source_provider_ref = source_provider_ref;
  }

  -- `try_add_modifier_instance` with the stacking that its ordinal names, if it names one
  unfoldable pub try_add_stacking :
      Option ModifierStacking → Action BattleState ModifierLifecycleResult
  try_add_stacking none = throw value_error
  try_add_stacking (some stacking) = do
    raise_if (source_required stacking && lacks source_provider_ref) value_error
    state ← gets (λ state. state)
    owners ← lift (if is_global stacking then global_targets state else ok (target ∷ []))
    add_or_act stacking (length (container_of state target))
        (search_existing state match_key owners)

  unfoldable pub try_add_modifier_instance : ℤ → Action BattleState ModifierLifecycleResult
  try_add_modifier_instance stacking = try_add_stacking (stacking_of stacking)
