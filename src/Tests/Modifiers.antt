-- ===== src/Tests/Modifiers.antt =====
-- An entity with one modifier instance.
use hsr_battle_agent.Base.{
  Bool-cases, [], arith, false, inl, inr, none, ok, refl, some, ◌∷◌, ◌≡◌, ◌++◌,
}
use hsr_battle_agent.Base.Dict.{int_eq, lookup}
use hsr_battle_agent.Base.Int.{eqb_ℤ, pos}
use hsr_battle_agent.Component.Owned.{OwnerCall, world_after, world_after-Sound}
use hsr_battle_agent.Component.Ownership.{Sound}
use hsr_battle_agent.Modifier.{ModifierMatchKey, ModifierState, alive, ref_eq, ModifierContainer}
use hsr_battle_agent.Modifier.Lifecycle.{container_of, remove_dirty_modifiers, write_container}
use hsr_battle_agent.Modifier.Lifecycle.Calls.{ModifierCall, state_after, state_after-AllContainers}
use hsr_battle_agent.Modifier.Lifecycle.Invariant.{AllContainers}
use hsr_battle_agent.Modifier.Lifecycle.Order.{filter_stays}
use hsr_battle_agent.Modifier.Lifecycle.Removal.{remove_dirty_modifiers-filter}
use hsr_battle_agent.Modifier.Lifecycle.Reports.{Reported, try_add_modifier_instance-Reported}
use hsr_battle_agent.Modifier.Lifecycle.TryAdd.{try_add_modifier_instance}
use hsr_battle_agent.Modifier.Match.{modifier_container_find, modifier_match_search}
use hsr_battle_agent.Modifier.Search.{Passed, modifier_container_find-matches}
use hsr_battle_agent.State.{BattleState, key_eq}
use hsr_battle_agent.Targets.{EntityRef}
use hsr_battle_agent.Tests.Calls.{hero, start, start-AllValid}
use hsr_battle_agent.Tests.Numbers.{one}

abbrev shield : ModifierState
shield = record {
  name = "shield";
  owner_entity = hero;
  instance_ordinal = 0;
  state_raw = alive;
  stacking_flag_raw = pos 0;
  count = 1;
  layer = pos 1;
  max_layer = pos 1;
  current_life = pos 3;
  source_entity = none;
  caster_entity = some hero;
  previous_life = pos 3;
  is_max_layer = false;
  destroy_guard = 0;
  source_provider_ref = none;
}

abbrev shielded : BattleState
shielded = record {
  extensions = [];
  modifier_state_by_entity = (pos 7, shield ∷ []) ∷ [];
  entity_property_entries = [];
  modifier_property_contributions = [];
  component_lock_hp_records = [];
  turn_timeline = none;
}

hero-is : (owner : EntityRef) → owner.runtime_id ≡ pos 7 → hero ≡ owner
hero-is owner e = cc

shielded-AllContainers : AllContainers shielded
unfolding container_of lookup
shielded-AllContainers owner = elim (Bool-cases (eqb_ℤ owner.runtime_id (pos 7))) [
  | inl same ↦
      let e : owner.runtime_id ≡ pos 7 = (int_eq.beq_iff owner.runtime_id (pos 7)).0 same in
      rw (same, container_of, lookup) (omega arith, hero-is owner e, tt)
  | inr other ↦ rw (other, container_of, lookup) tt
]

state_after-AllContainers_example :
    AllContainers
      (state_after (ModifierCall.try_add hero shield (pos 4) (pos 0) (some hero) none) shielded)
state_after-AllContainers_example =
    state_after-AllContainers (ModifierCall.try_add hero shield (pos 4) (pos 0) (some hero) none)
      shielded shielded-AllContainers

remove_dirty_modifiers-filter_example : remove_dirty_modifiers hero shielded ≡ (
  ok (filter_stays (container_of shielded hero)),
  (write_container hero (filter_stays (container_of shielded hero)) shielded).1,
)
remove_dirty_modifiers-filter_example = remove_dirty_modifiers-filter hero shielded

abbrev shield_key : ModifierMatchKey
shield_key = record {
  name = "shield";
  stacking_flag = pos 100;
  caster_entity = some hero;
  source_provider_ref = none;
}

shield_found : modifier_container_find (shield ∷ []) shield_key (pos 1) ≡ some shield
unfolding modifier_container_find modifier_match_search
shield_found = refl

modifier_container_find-matches_example :
    (shield.name ≡ "shield")
    × (shield.caster_entity ≡ some hero)
    × ((before : ModifierContainer) × (after : ModifierContainer) × (shield ∷ []
          ≡ before ++ shield ∷ after)
        × Passed shield_key (pos 1) before)
modifier_container_find-matches_example =
    modifier_container_find-matches (shield ∷ []) shield_key (pos 1) shield hero (λ e. cc) (λ e. cc)
      shield_found refl

try_add_modifier_instance-Reported_example :
    Reported hero 1
      (try_add_modifier_instance hero shield (pos 0) (some hero) none (pos 4) shielded)
unfolding container_of lookup
try_add_modifier_instance-Reported_example =
    try_add_modifier_instance-Reported hero shield (pos 0) (some hero) none (pos 4) shielded

start-Sound : Sound start
unfolding lookup
start-Sound = record { valid = start-AllValid; owned = λ owner. tt }

world_after-Sound_example :
    Sound (world_after (OwnerCall.stack_for shield (pos 3) one hero false) start)
world_after-Sound_example =
    world_after-Sound (OwnerCall.stack_for shield (pos 3) one hero false) start start-Sound
