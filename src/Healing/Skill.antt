-- ===== src/Healing/Skill.antt =====
-- src/hsr_battle_agent/battle_runtime/healing.py: the heal formula of type 4 and the skill that is run up
-- to its two requests. No operation here writes the state.
pub mod Formula
pub mod Requests
pub mod Gates
pub mod Success
use hsr_battle_agent.Base.{
  Bool, List, Option, Result, [], false, guard, heal_semantic, if◌then◌else◌, none, not, ok, raise,
  real_skill_turn_mismatch, required_heal_property_missing, some, true,
  unsupported_special_heal_component, ◌&&◌, ◌++◌, ◌>>=◌, ◌>>◌, ◌^◌, ◌∷◌,
}
use hsr_battle_agent.Base.Int.{eqb_ℤ, pos, ℤ}
use hsr_battle_agent.Base.Text.{Text, codes, eqb_text}
use hsr_battle_agent.FixPoint.{fixpoint_is_positive}
use hsr_battle_agent.FixPoint.Arith.{fixedpoint_add, fixedpoint_multiply, fixedpoint_subtract}
use hsr_battle_agent.FixPoint.Order.{scaled}
use hsr_battle_agent.Healing.{
  NatashaSkill02HealConfig, RealSkillExecutionBoundaryResult, RealSkillExternalBindings,
  ResolvedDynamicFloat, check_dispel_request, check_heal_request, check_result, resolve,
}
use hsr_battle_agent.State.{BattleState, TurnPhase, get_property_entry}
use hsr_battle_agent.Targets.{EntityRef}
use hsr_battle_agent.Turn.{timeline}

-- The property ids, `_ONE_RAW` and the texts of the module.
abbrev pub max_hp_property_id : ℤ
max_hp_property_id = pos 1

abbrev pub current_hp_property_id : ℤ
current_hp_property_id = pos 10

abbrev pub heal_ratio_property_id : ℤ
heal_ratio_property_id = pos 124

abbrev pub heal_taken_ratio_property_id : ℤ
heal_taken_ratio_property_id = pos 127

-- `fixpoint_from_int32(1)`
abbrev pub one_raw : ℤ
one_raw = pos (2 ^ 33)

abbrev pub expected_ability : Text
expected_ability = codes "Avatar_Natasha_00_Skill02_Phase02"

abbrev pub boundary_blockers : List Text
boundary_blockers =
    codes "DispelStatus effect consumer is not recovered"
    ∷ codes "positive HealData event consumer and CurrentHP mutation are not recovered"
    ∷ codes "generic post-action recharge writer/formula is not recovered"
    ∷ []

unfoldable pub heal_formula_type4_ordinary : ℤ → ℤ → ℤ → ℤ → ℤ → ℤ → Result ℤ
unfolding fixpoint_is_positive
heal_formula_type4_ordinary target_max target_current percentage modify_value heal_ratio
      taken_ratio =
    do
      base ← fixedpoint_subtract target_max target_current
      scaled ← fixedpoint_multiply base percentage
      configured ← fixedpoint_add scaled modify_value
      factor ← fixedpoint_add one_raw heal_ratio
      ordinary_factor ← fixedpoint_add factor taken_ratio
      ordinary ← fixedpoint_multiply configured ordinary_factor
      amount ← fixedpoint_multiply ordinary one_raw
      positive ← fixpoint_is_positive amount
      ok (if positive then amount else pos 0)

-- `_property_raw`
unfoldable pub property_raw : BattleState → EntityRef → ℤ → Result ℤ
property_raw state entity property_id = do
  entry ← get_property_entry state entity property_id
  elim entry [ none ↦ raise required_heal_property_missing | some found ↦ ok found.materialized ]

abbrev pub is_active : TurnPhase → Bool
is_active TurnPhase.active = true
is_active TurnPhase.ready = false
is_active TurnPhase.settled = false

abbrev pub is_actor : Option ℤ → EntityRef → Bool
is_actor none caster = false
is_actor (some actor) caster = eqb_ℤ actor caster.runtime_id

-- `_require_active_caster`: an empty timeline has no phase.
unfoldable pub require_active_caster : BattleState → EntityRef → Result (Unit {0})
require_active_caster state caster = elim state.turn_timeline [
  | none ↦ raise real_skill_turn_mismatch
  | some timeline ↦ do
    guard (is_active timeline.phase) real_skill_turn_mismatch
    guard (is_actor timeline.current_actor_runtime_id caster) real_skill_turn_mismatch
]

-- The config is inside the accepted slice.
unfoldable pub is_accepted : NatashaSkill02HealConfig → Bool
unfolding eqb_text
is_accepted config =
    eqb_text config.ability_name expected_ability
    && eqb_ℤ config.parent_discriminator (pos 1960)
    && eqb_ℤ config.predicate_discriminator (pos 496)
    && eqb_ℤ config.dispel_discriminator (pos 1199)
    && eqb_ℤ config.heal_discriminator (pos 1481)
    && eqb_ℤ config.heal_formula_type (pos 4)
    && eqb_ℤ config.target_discriminator (pos 12)
    && eqb_text config.target_name (codes "AbilityTargetEntity")

-- The result where the predicate does not hold.
unfoldable pub skipped :
    EntityRef
    → NatashaSkill02HealConfig
    → RealSkillExternalBindings
    → Result RealSkillExecutionBoundaryResult
skipped caster config bindings = check_result (record {
  ability_name = config.ability_name;
  caster = caster;
  target = bindings.ability_target;
  predicate_satisfied = false;
  predicate_provenance = bindings.predicate_provenance;
  dispel_request = none;
  heal_request = none;
  status = codes "PREDICATE_FALSE_NO_SUCCESS_TASKS";
  blockers = codes "BySkillPointActivated semantics supplied externally" ∷ [];
})

-- The two requests, with the result that holds them.
unfoldable pub build_requests :
    EntityRef
    → NatashaSkill02HealConfig
    → RealSkillExternalBindings
    → ResolvedDynamicFloat
    → ResolvedDynamicFloat
    → ResolvedDynamicFloat
    → ℤ
    → ℤ
    → Result RealSkillExecutionBoundaryResult
build_requests caster config bindings dispel_numbers heal_percentage modify_value target_current
      amount =
    do
      let target = bindings.ability_target
      dispel_request ← check_dispel_request (record {
        caster = caster;
        target = target;
        numbers_raw = dispel_numbers.value_raw;
        order = config.dispel_order;
        config_ref = config.content_artifact_ref ++ codes "#0xBC9A24";
        resolution_provenance = dispel_numbers.provenance;
      })
      heal_request ← check_heal_request (record {
        healer = caster;
        target = target;
        amount_raw = amount;
        observed_current_hp_raw = target_current;
        formula_type = config.heal_formula_type;
        config_ref = config.content_artifact_ref ++ codes "#0xBC9A4B";
        dynamic_resolution_provenance =
            heal_percentage.provenance ∷ modify_value.provenance ∷ bindings.target_provenance
            ∷ bindings.healer_branch_provenance ∷ [];
        consumer_status = codes "POSITIVE_HEAL_EVENT_CONSUMER_NOT_RECOVERED";
      })
      check_result (record {
        ability_name = config.ability_name;
        caster = caster;
        target = target;
        predicate_satisfied = true;
        predicate_provenance = bindings.predicate_provenance;
        dispel_request = some dispel_request;
        heal_request = some heal_request;
        status = codes "ORDERED_EFFECT_BOUNDARIES_EMITTED";
        blockers = boundary_blockers;
      })

-- The rest, after both gates: the amount from the stored properties, and the requests.
unfoldable pub emit_requests :
    BattleState
    → EntityRef
    → NatashaSkill02HealConfig
    → RealSkillExternalBindings
    → Result RealSkillExecutionBoundaryResult
emit_requests state caster config bindings = do
  let target = bindings.ability_target
  dispel_numbers ← resolve bindings config.dispel_numbers
  heal_percentage ← resolve bindings config.heal_percentage
  modify_value ← resolve bindings config.modify_value
  target_max ← property_raw state target max_hp_property_id
  target_current ← property_raw state target current_hp_property_id
  healer_ratio ← property_raw state caster heal_ratio_property_id
  target_taken ← property_raw state target heal_taken_ratio_property_id
  amount ←
      heal_formula_type4_ordinary target_max target_current heal_percentage.value_raw
        modify_value.value_raw healer_ratio target_taken
  build_requests caster config bindings dispel_numbers heal_percentage modify_value target_current
      amount

unfoldable pub execute_natasha_skill02_boundary :
    BattleState
    → EntityRef
    → NatashaSkill02HealConfig
    → RealSkillExternalBindings
    → Result RealSkillExecutionBoundaryResult
execute_natasha_skill02_boundary state caster config bindings = do
  guard (is_accepted config) heal_semantic
  require_active_caster state caster
  if not bindings.predicate_satisfied then skipped caster config bindings else (do
    guard bindings.ordinary_healer_branch unsupported_special_heal_component
    emit_requests state caster config bindings)
