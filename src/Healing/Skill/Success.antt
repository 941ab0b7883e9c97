-- ===== src/Healing/Skill/Success.antt =====
-- src/hsr_battle_agent/battle_runtime/healing.py: a run of the skill on its caster's turn succeeds.
use hsr_battle_agent.Base.{[], arith, ok, refl, some, true, ◌∷◌, ◌≡◌}
use hsr_battle_agent.Base.Int.{ℤ}
use hsr_battle_agent.Base.Text.{codes, is_text, is_text-append}
use hsr_battle_agent.FixPoint.{is_raw}
use hsr_battle_agent.FixPoint.Arith.{decode_fixpoint_common}
use hsr_battle_agent.Healing.{
  DispelStatusRequestBoundary, HealRequestBoundary, NatashaSkill02HealConfig,
  RealSkillExecutionBoundaryResult, RealSkillExternalBindings, ResolvedDynamicFloat, all_text,
  check_bindings, check_config, check_dispel_request, check_heal_request, check_resolved,
  check_result, require_raw, require_text,
}
use hsr_battle_agent.Healing.Skill.{
  boundary_blockers, build_requests, emit_requests, execute_natasha_skill02_boundary, is_accepted,
}
use hsr_battle_agent.Healing.Skill.Formula.{
  heal_formula_type4_ordinary-decode, heal_number, positive_part,
}
use hsr_battle_agent.Healing.Skill.Requests.{
  Emitted, Inputs, IsActor, IsActor-require_active_caster, amount_of, dispel_request_of,
  heal_request_of,
}
use hsr_battle_agent.State.{BattleState}
use hsr_battle_agent.Targets.{EntityRef}

-- What a run needs beside its inputs: the accepted config and the checked texts and numbers.
pub record Ready {state : BattleState} {caster : EntityRef} {config : NatashaSkill02HealConfig}
    {bindings : RealSkillExternalBindings} (i : Inputs state caster config bindings) : Type 0 where
  pub accepted : is_accepted config ≡ true
  pub actor : IsActor state caster
  pub satisfied : bindings.predicate_satisfied ≡ true
  pub ordinary : bindings.ordinary_healer_branch ≡ true
  pub config_checked : check_config config ≡ ok config
  pub bindings_checked : check_bindings bindings ≡ ok bindings
  pub numbers_checked : check_resolved i.numbers ≡ ok i.numbers
  pub percentage_checked : check_resolved i.percentage ≡ ok i.percentage
  pub modify_value_checked : check_resolved i.modify_value ≡ ok i.modify_value
  pub max_is_raw : is_raw i.target_max ≡ true
  pub current_is_raw : is_raw i.target_current ≡ true
  pub ratio_is_raw : is_raw i.heal_ratio ≡ true
  pub taken_is_raw : is_raw i.taken_ratio ≡ true

check_resolved_parts :
    (x : ResolvedDynamicFloat)
    → check_resolved x ≡ ok x
    → (is_raw x.value_raw ≡ true) × (is_text x.provenance ≡ true)
unfolding check_resolved require_raw require_text
check_resolved_parts x h = ground arith

check_config_parts :
    (c : NatashaSkill02HealConfig) → check_config c ≡ ok c → is_text c.ability_name ≡ true
unfolding check_config require_text
check_config_parts c h = ground arith

check_bindings_parts :
    (b : RealSkillExternalBindings)
    → check_bindings b ≡ ok b
    → (is_text b.predicate_provenance ≡ true)
      × (is_text b.target_provenance ≡ true)
      × (is_text b.healer_branch_provenance ≡ true)
unfolding check_bindings require_text
check_bindings_parts b h = ground arith

check_dispel_request-pass :
    (d : DispelStatusRequestBoundary)
    → is_raw d.numbers_raw ≡ true
    → is_text d.config_ref ≡ true
    → is_text d.resolution_provenance ≡ true
    → check_dispel_request d ≡ ok d
unfolding check_dispel_request require_raw require_text
check_dispel_request-pass d h1 h2 h3 = rw (h1, h2, h3)

check_heal_request-pass :
    (q : HealRequestBoundary)
    → is_raw q.amount_raw ≡ true
    → is_raw q.observed_current_hp_raw ≡ true
    → is_text q.config_ref ≡ true
    → all_text q.dynamic_resolution_provenance ≡ true
    → is_text q.consumer_status ≡ true
    → check_heal_request q ≡ ok q
unfolding check_heal_request require_raw require_text
check_heal_request-pass q h1 h2 h3 h4 h5 = rw (h1, h2, h3, h4, h5)

check_result-pass :
    (r : RealSkillExecutionBoundaryResult)
    → is_text r.ability_name ≡ true
    → is_text r.predicate_provenance ≡ true
    → is_text r.status ≡ true
    → all_text r.blockers ≡ true
    → check_result r ≡ ok r
unfolding check_result require_text
check_result-pass r h1 h2 h3 h4 = rw (h1, h2, h3, h4)

module _ (state : BattleState) (caster : EntityRef) (config : NatashaSkill02HealConfig)
    (bindings : RealSkillExternalBindings) (i : Inputs state caster config bindings) where
  abbrev result_of : ℤ → RealSkillExecutionBoundaryResult
  result_of amount = record {
    ability_name = config.ability_name;
    caster = caster;
    target = bindings.ability_target;
    predicate_satisfied = true;
    predicate_provenance = bindings.predicate_provenance;
    dispel_request = some (dispel_request_of i);
    heal_request = some (heal_request_of i amount);
    status = codes "ORDERED_EFFECT_BOUNDARIES_EMITTED";
    blockers = boundary_blockers;
  }

  four_texts :
      Ready i
      → all_text (
          i.percentage.provenance ∷ i.modify_value.provenance ∷ bindings.target_provenance
          ∷ bindings.healer_branch_provenance ∷ [])
        ≡ true
  unfolding all_text
  four_texts ready = rw (
    (check_resolved_parts i.percentage ready.percentage_checked).1,
    (check_resolved_parts i.modify_value ready.modify_value_checked).1,
    (check_bindings_parts bindings ready.bindings_checked).1,
    (check_bindings_parts bindings ready.bindings_checked).2,
  )

  build_requests-ok :
      (amount : ℤ)
      → Ready i
      → is_raw amount ≡ true
      → build_requests caster config bindings i.numbers i.percentage i.modify_value i.target_current
          amount
        ≡ ok (result_of amount)
  unfolding build_requests is_text all_text
  build_requests-ok amount ready h = rw (
    check_dispel_request-pass (dispel_request_of i)
        (check_resolved_parts i.numbers ready.numbers_checked).0
        (is_text-append config.content_artifact_ref _ refl)
        (check_resolved_parts i.numbers ready.numbers_checked).1,
    check_heal_request-pass (heal_request_of i amount) h ready.current_is_raw
        (is_text-append config.content_artifact_ref _ refl) (four_texts ready) refl,
    check_result-pass (result_of amount) (check_config_parts config ready.config_checked)
        (check_bindings_parts bindings ready.bindings_checked).0 refl refl,
  )

  emit_requests-ok :
      (amount : ℤ)
      → Ready i
      → is_raw amount ≡ true
      → amount_of i ≡ ok amount
      → emit_requests state caster config bindings ≡ ok (result_of amount)
  unfolding emit_requests
  emit_requests-ok amount ready h e = rw (
    i.resolves_numbers,
    i.resolves_percentage,
    i.resolves_modify_value,
    i.reads_max,
    i.reads_current,
    i.reads_ratio,
    i.reads_taken,
    e,
    build_requests-ok amount ready h,
  )

  -- On the caster's active turn, with an accepted config, a predicate that holds, an ordinary healer,
  -- checked texts and numbers and the four stored properties, execute_natasha_skill02_boundary
  -- succeeds with both requests. The heal amount is (missing HP times the percentage, plus the modify
  -- value) times (1 plus both ratios) in saturated fixed point, and 0 where that is not positive.
  pub execute-Emitted :
      Ready i
      → (r : RealSkillExecutionBoundaryResult) × (amount : ℤ) × (execute_natasha_skill02_boundary
            state caster config bindings
          ≡ ok r)
        × Emitted i amount r
        × (decode_fixpoint_common amount
            ≡ positive_part (
                heal_number
                  (decode_fixpoint_common i.target_max)
                  (decode_fixpoint_common i.target_current)
                  (decode_fixpoint_common i.percentage.value_raw)
                  (decode_fixpoint_common i.modify_value.value_raw)
                  (decode_fixpoint_common i.heal_ratio)
                  (decode_fixpoint_common i.taken_ratio)))
  unfolding execute_natasha_skill02_boundary
  execute-Emitted ready =
      let healed =
        heal_formula_type4_ordinary-decode i.target_max i.target_current i.percentage.value_raw
          i.modify_value.value_raw i.heal_ratio i.taken_ratio ready.max_is_raw ready.current_is_raw
          (check_resolved_parts i.percentage ready.percentage_checked).0
          (check_resolved_parts i.modify_value ready.modify_value_checked).0 ready.ratio_is_raw
          ready.taken_is_raw in
      (
        result_of healed.0,
        healed.0,
        simp (
          ready.accepted,
          IsActor-require_active_caster state caster ready.actor,
          ready.satisfied,
          ready.ordinary,
          emit_requests-ok healed.0 ready healed.2 healed.1,
        ),
        (refl, refl, refl, refl, refl),
        healed.3,
      )
