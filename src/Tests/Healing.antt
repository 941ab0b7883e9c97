-- ===== src/Tests/Healing.antt =====
-- A healer on its own turn, and a target with half of its HP.
use hsr_battle_agent.Base.{[], false, none, ok, refl, some, true, ◌∷◌, ◌≡◌, ◌⊎◌}
use hsr_battle_agent.Base.Dict.{int_eq, lookup}
use hsr_battle_agent.Base.Int.{pos, ℤ, ◌*ℤ◌, ◌+ℤ◌, ◌-ℤ◌}
use hsr_battle_agent.Base.Text.{Text, codes}
use hsr_battle_agent.FixPoint.{fixpoint_from_int32, is_raw, validate_raw}
use hsr_battle_agent.FixPoint.Arith.{
  decode_fixpoint_common, encode_fixpoint_common, encode_saturated, fixedpoint_add,
  fixedpoint_multiply, fixedpoint_subtract, saturate_common,
}
use hsr_battle_agent.Healing.{
  NatashaSkill02HealConfig, RealSkillExecutionBoundaryResult, RealSkillExternalBindings,
  ResolvedDynamicFloat, SerializedDynamicFloatFormula, check_bindings, check_config, check_resolved,
  resolve,
}
use hsr_battle_agent.Healing.Skill.{
  execute_natasha_skill02_boundary, heal_formula_type4_ordinary, is_accepted, one_raw, property_raw,
}
use hsr_battle_agent.Healing.Skill.Formula.{
  heal_formula_type4_ordinary-decode, heal_number, positive_part,
}
use hsr_battle_agent.Healing.Skill.Gates.{execute-gates}
use hsr_battle_agent.Healing.Skill.Requests.{Emitted, Inputs, IsActor, Skipped, amount_of}
use hsr_battle_agent.Healing.Skill.Success.{Ready, execute-Emitted}
use hsr_battle_agent.Modifier.{ref_eq}
use hsr_battle_agent.Property.{post_init}
use hsr_battle_agent.State.{BattleState, TurnPhase, get_property_entry, key_eq, property_entry_key}
use hsr_battle_agent.Targets.{EntityRef}
use hsr_battle_agent.Tests.Calls.{hero}
use hsr_battle_agent.Tests.Health.{hp_entry}
use hsr_battle_agent.Tests.Numbers.{one, two}

abbrev name : Text
name = codes "id"

abbrev formula : ℤ → SerializedDynamicFloatFormula
formula operand = record {
  opcodes = pos 1 ∷ [];
  qword_operands = [];
  int32_operands = operand ∷ [];
  source_start = name;
  source_end_exclusive = name;
}

abbrev config : NatashaSkill02HealConfig
config = record {
  ability_name = codes "Avatar_Natasha_00_Skill02_Phase02";
  content_artifact_ref = name;
  content_artifact_sha256 = name;
  archive_sha256 = name;
  parent_discriminator = pos 1960;
  predicate_discriminator = pos 496;
  predicate_trigger_key = pos 0;
  target_discriminator = pos 12;
  target_name = codes "AbilityTargetEntity";
  dispel_discriminator = pos 1199;
  dispel_order = pos 0;
  dispel_numbers = formula (pos 7);
  heal_discriminator = pos 1481;
  heal_formula_type = pos 4;
  heal_percentage = formula (pos 8);
  modify_value = formula (pos 9);
}

abbrev resolved : ℤ → ℤ → ResolvedDynamicFloat
resolved operand value = record { formula_operand = operand; value_raw = value; provenance = name }

abbrev patient : EntityRef
patient = record { runtime_id = pos 2 }

abbrev bindings : RealSkillExternalBindings
bindings = record {
  predicate_satisfied = true;
  predicate_provenance = name;
  ability_target = patient;
  target_provenance = name;
  dynamic_values = resolved (pos 7) one ∷ resolved (pos 8) one ∷ resolved (pos 9) (pos 0) ∷ [];
  ordinary_healer_branch = true;
  healer_branch_provenance = name;
}

abbrev healer_turn : BattleState
healer_turn = record {
  extensions = [];
  modifier_state_by_entity = [];
  entity_property_entries =
      (property_entry_key patient (pos 1), hp_entry two)
      ∷ (property_entry_key patient (pos 10), hp_entry one)
      ∷ (property_entry_key hero (pos 124), hp_entry one)
      ∷ (property_entry_key patient (pos 127), hp_entry (pos 0))
      ∷ [];
  modifier_property_contributions = [];
  component_lock_hp_records = [];
  turn_timeline = some (record {
    action_entity_runtime_ids = hero.runtime_id ∷ [];
    current_actor_runtime_id = some hero.runtime_id;
    elapsed_action_delay_raw = pos 0;
    turn_index = 1;
    phase = TurnPhase.active;
    last_completion_provenance = none;
  });
}

inputs : Inputs healer_turn hero config bindings
unfolding resolve property_raw get_property_entry lookup post_init validate_raw
inputs = record {
  numbers = resolved (pos 7) one;
  percentage = resolved (pos 8) one;
  modify_value = resolved (pos 9) (pos 0);
  target_max = two;
  target_current = one;
  heal_ratio = one;
  taken_ratio = pos 0;
  resolves_numbers = refl;
  resolves_percentage = refl;
  resolves_modify_value = refl;
  reads_max = refl;
  reads_current = refl;
  reads_ratio = refl;
  reads_taken = refl;
}

ready : Ready inputs
unfolding inputs is_accepted check_config check_bindings check_resolved
ready = record {
  accepted = refl;
  actor = (_, refl, refl, refl);
  satisfied = refl;
  ordinary = refl;
  config_checked = refl;
  bindings_checked = refl;
  numbers_checked = refl;
  percentage_checked = refl;
  modify_value_checked = refl;
  max_is_raw = refl;
  current_is_raw = refl;
  ratio_is_raw = refl;
  taken_is_raw = refl;
}

one_is_one : fixpoint_from_int32 (pos 1) ≡ ok one_raw
unfolding fixpoint_from_int32 ◌*ℤ◌
one_is_one = refl

-- One missing unit, times one, times 1 + 1.
healed_two : heal_formula_type4_ordinary two one one (pos 0) one (pos 0) ≡ ok two
unfolding heal_formula_type4_ordinary fixedpoint_subtract fixedpoint_add fixedpoint_multiply
    validate_raw decode_fixpoint_common encode_fixpoint_common encode_saturated saturate_common ◌+ℤ◌
    ◌-ℤ◌ ◌*ℤ◌
healed_two = refl

heal_formula_type4_ordinary-decode_example :
    (v : ℤ) × (heal_formula_type4_ordinary two one one (pos 0) one (pos 0) ≡ ok v)
    × (is_raw v ≡ true)
    × (decode_fixpoint_common v
        ≡ positive_part (
            heal_number
              (decode_fixpoint_common two)
              (decode_fixpoint_common one)
              (decode_fixpoint_common one)
              (decode_fixpoint_common (pos 0))
              (decode_fixpoint_common one)
              (decode_fixpoint_common (pos 0))))
heal_formula_type4_ordinary-decode_example =
    heal_formula_type4_ordinary-decode two one one (pos 0) one (pos 0) refl refl refl refl refl refl

execute-Emitted_example :
    (r : RealSkillExecutionBoundaryResult) × (amount : ℤ) × (execute_natasha_skill02_boundary
        healer_turn hero config bindings
      ≡ ok r)
    × Emitted inputs amount r
    × (decode_fixpoint_common amount
        ≡ positive_part (
            heal_number
              (decode_fixpoint_common inputs.target_max)
              (decode_fixpoint_common inputs.target_current)
              (decode_fixpoint_common inputs.percentage.value_raw)
              (decode_fixpoint_common inputs.modify_value.value_raw)
              (decode_fixpoint_common inputs.heal_ratio)
              (decode_fixpoint_common inputs.taken_ratio)))
execute-Emitted_example = execute-Emitted healer_turn hero config bindings inputs ready

run :
    (r : RealSkillExecutionBoundaryResult) × (execute_natasha_skill02_boundary healer_turn hero
        config bindings
      ≡ ok r)
run = let e = execute-Emitted healer_turn hero config bindings inputs ready in (e.0, e.2)

execute-gates_example :
    (is_accepted config ≡ true)
    × IsActor healer_turn hero
    × (((bindings.predicate_satisfied ≡ false) × Skipped hero bindings run.0)
        ⊎ ((bindings.predicate_satisfied ≡ true)
            × (bindings.ordinary_healer_branch ≡ true)
            × ((i : Inputs healer_turn hero config bindings) × (amount : ℤ) × (amount_of i
                  ≡ ok amount)
                × Emitted i amount run.0)))
execute-gates_example = execute-gates healer_turn hero config bindings run.1
