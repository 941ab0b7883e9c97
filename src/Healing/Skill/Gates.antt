-- ===== src/Healing/Skill/Gates.antt =====
-- src/hsr_battle_agent/battle_runtime/healing.py: what a result of execute_natasha_skill02_boundary says of
-- the state and of the bindings.
use hsr_battle_agent.Base.{
  >>=-eq-ok, Bool, Error, ap, arith, false, guard, heal_semantic, if◌then◌else◌, inl, inr, not, ok,
  refl, some, sym, true, unsupported_special_heal_component, ◌>>◌, ◌∙◌, ◌≡◌, ◌⊎◌,
}
use hsr_battle_agent.Base.Int.{ℤ}
use hsr_battle_agent.Healing.{
  DispelStatusRequestBoundary, HealRequestBoundary, NatashaSkill02HealConfig,
  RealSkillExecutionBoundaryResult, RealSkillExternalBindings, check_dispel_request,
  check_heal_request, check_result, require_raw, require_text, resolve,
}
use hsr_battle_agent.Healing.Skill.{
  build_requests, current_hp_property_id, emit_requests, execute_natasha_skill02_boundary,
  heal_formula_type4_ordinary, heal_ratio_property_id, heal_taken_ratio_property_id, is_accepted,
  max_hp_property_id, property_raw, require_active_caster, skipped,
}
use hsr_battle_agent.Healing.Skill.Requests.{
  Emitted, Inputs, IsActor, Skipped, amount_of, dispel_request_of, heal_request_of,
  require_active_caster-IsActor,
}
use hsr_battle_agent.State.{BattleState}
use hsr_battle_agent.Targets.{EntityRef}

check_result-ok : (a r : RealSkillExecutionBoundaryResult) → check_result a ≡ ok r → a ≡ r
unfolding check_result require_text
check_result-ok a r h = ground arith

check_dispel_request-ok :
    (a r : DispelStatusRequestBoundary) → check_dispel_request a ≡ ok r → a ≡ r
unfolding check_dispel_request require_text require_raw
check_dispel_request-ok a r h = ground arith

check_heal_request-ok : (a r : HealRequestBoundary) → check_heal_request a ≡ ok r → a ≡ r
unfolding check_heal_request require_text require_raw
check_heal_request-ok a r h = ground arith

guard-true : (b : Bool) (e : Error) {u : Unit {0}} → guard b e ≡ ok u → b ≡ true
guard-true true e h = refl
guard-true false e h = cc

module _ (state : BattleState) (caster : EntityRef) (config : NatashaSkill02HealConfig)
    (bindings : RealSkillExternalBindings) {r : RealSkillExecutionBoundaryResult} where
  skipped-Skipped : skipped caster config bindings ≡ ok r → Skipped caster bindings r
  unfolding skipped
  skipped-Skipped h =
      let e = check_result-ok _ r h in
      (
        ap (λ (x : RealSkillExecutionBoundaryResult). x.caster) (sym e),
        ap (λ (x : RealSkillExecutionBoundaryResult). x.target) (sym e),
        ap (λ (x : RealSkillExecutionBoundaryResult). x.predicate_satisfied) (sym e),
        ap (λ (x : RealSkillExecutionBoundaryResult). x.dispel_request) (sym e),
        ap (λ (x : RealSkillExecutionBoundaryResult). x.heal_request) (sym e),
      )

  build_requests-Emitted :
      (i : Inputs state caster config bindings) (amount : ℤ)
      → build_requests caster config bindings i.numbers i.percentage i.modify_value i.target_current
          amount
        ≡ ok r
      → Emitted i amount r
  unfolding build_requests
  build_requests-Emitted i amount h =
      let (d, e1, h1) = >>=-eq-ok (check_dispel_request (dispel_request_of i)) _ h in
      let (q, e2, h2) = >>=-eq-ok (check_heal_request (heal_request_of i amount)) _ h1 in
      let e = check_result-ok _ r h2 in
      (
        ap (λ (x : RealSkillExecutionBoundaryResult). x.caster) (sym e),
        ap (λ (x : RealSkillExecutionBoundaryResult). x.target) (sym e),
        ap (λ (x : RealSkillExecutionBoundaryResult). x.predicate_satisfied) (sym e),
        ap (λ (x : RealSkillExecutionBoundaryResult). x.dispel_request) (sym e)
            ∙ ap some (sym (check_dispel_request-ok _ d e1)),
        ap (λ (x : RealSkillExecutionBoundaryResult). x.heal_request) (sym e)
            ∙ ap some (sym (check_heal_request-ok _ q e2)),
      )

  emit_requests-Emitted :
      emit_requests state caster config bindings ≡ ok r
      → (i : Inputs state caster config bindings) × (amount : ℤ) × (amount_of i ≡ ok amount)
        × Emitted i amount r
  unfolding emit_requests
  emit_requests-Emitted h =
      let (numbers, e1, h1) = >>=-eq-ok (resolve bindings config.dispel_numbers) _ h in
      let (percentage, e2, h2) = >>=-eq-ok (resolve bindings config.heal_percentage) _ h1 in
      let (modify_value, e3, h3) = >>=-eq-ok (resolve bindings config.modify_value) _ h2 in
      let (target_max, e4, h4) =
        >>=-eq-ok (property_raw state bindings.ability_target max_hp_property_id) _ h3 in
      let (target_current, e5, h5) =
        >>=-eq-ok (property_raw state bindings.ability_target current_hp_property_id) _ h4 in
      let (ratio, e6, h6) = >>=-eq-ok (property_raw state caster heal_ratio_property_id) _ h5 in
      let (taken, e7, h7) =
        >>=-eq-ok (property_raw state bindings.ability_target heal_taken_ratio_property_id) _ h6 in
      let (amount, e8, h8) =
        >>=-eq-ok
          (heal_formula_type4_ordinary target_max target_current percentage.value_raw
            modify_value.value_raw ratio taken)
          _ h7 in
      let i : Inputs state caster config bindings = record {
        numbers = numbers;
        percentage = percentage;
        modify_value = modify_value;
        target_max = target_max;
        target_current = target_current;
        heal_ratio = ratio;
        taken_ratio = taken;
        resolves_numbers = e1;
        resolves_percentage = e2;
        resolves_modify_value = e3;
        reads_max = e4;
        reads_current = e5;
        reads_ratio = e6;
        reads_taken = e7;
      } in
      (i, amount, e8, build_requests-Emitted i amount h8)

  past_gates :
      (p : Bool)
      → bindings.predicate_satisfied ≡ p
      → (if not p then skipped caster config bindings else (do
        guard bindings.ordinary_healer_branch unsupported_special_heal_component
        emit_requests state caster config bindings))
        ≡ ok r
      → ((bindings.predicate_satisfied ≡ false) × Skipped caster bindings r)
        ⊎ ((bindings.predicate_satisfied ≡ true)
            × (bindings.ordinary_healer_branch ≡ true)
            × ((i : Inputs state caster config bindings) × (amount : ℤ) × (amount_of i ≡ ok amount)
                × Emitted i amount r))
  past_gates false e h = inl (e, skipped-Skipped h)
  past_gates true e h =
      let step =
        >>=-eq-ok (guard bindings.ordinary_healer_branch unsupported_special_heal_component) _ h in
      inr (e, guard-true _ _ step.1, emit_requests-Emitted step.2)

  -- A result that execute_natasha_skill02_boundary returns is from an accepted config on the caster's own
  -- active turn. Where the predicate fails it holds neither request; where it holds the healer is
  -- ordinary, and the result holds both: the resolved dispel numbers, and the heal amount of the
  -- formula at the resolved numbers and the stored properties, beside the stored current HP.
  pub execute-gates :
      execute_natasha_skill02_boundary state caster config bindings ≡ ok r
      → (is_accepted config ≡ true)
        × IsActor state caster
        × (((bindings.predicate_satisfied ≡ false) × Skipped caster bindings r)
            ⊎ ((bindings.predicate_satisfied ≡ true)
                × (bindings.ordinary_healer_branch ≡ true)
                × ((i : Inputs state caster config bindings) × (amount : ℤ) × (amount_of i
                      ≡ ok amount)
                    × Emitted i amount r)))
  unfolding execute_natasha_skill02_boundary
  execute-gates h =
      let (_, e1, h1) = >>=-eq-ok (guard (is_accepted config) heal_semantic) _ h in
      let (_, e2, h2) = >>=-eq-ok (require_active_caster state caster) _ h1 in
      (
        guard-true _ _ e1,
        require_active_caster-IsActor state caster e2,
        past_gates bindings.predicate_satisfied refl h2,
      )
