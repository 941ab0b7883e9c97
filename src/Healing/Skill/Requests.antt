-- ===== src/Healing/Skill/Requests.antt =====
-- src/hsr_battle_agent/battle_runtime/healing.py: when execute_natasha_skill02_boundary runs, and what it
-- requests.
use hsr_battle_agent.Base.{
  Option, Option-cases, Result, [], arith, false, inl, inr, none, ok, refl, some, true, ◌++◌, ◌∷◌,
  ◌≡◌, ◌⊎◌,
}
use hsr_battle_agent.Base.Dict.{eqb_ℤ_iff}
use hsr_battle_agent.Base.Int.{ℤ}
use hsr_battle_agent.Base.Text.{codes}
use hsr_battle_agent.Healing.{
  DispelStatusRequestBoundary, HealRequestBoundary, NatashaSkill02HealConfig,
  RealSkillExecutionBoundaryResult, RealSkillExternalBindings, ResolvedDynamicFloat, resolve,
}
use hsr_battle_agent.Healing.Skill.{
  current_hp_property_id, heal_formula_type4_ordinary, heal_ratio_property_id,
  heal_taken_ratio_property_id, max_hp_property_id, property_raw, require_active_caster,
}
use hsr_battle_agent.State.{BattleState, TurnPhase, TurnTimeline}
use hsr_battle_agent.Targets.{EntityRef}
use hsr_battle_agent.Turn.Steps.{is_actor}

-- It is the caster's turn.
abbrev pub IsActor : BattleState → EntityRef → Type 0
IsActor state caster =
    (t : TurnTimeline) × (state.turn_timeline ≡ some t)
    × (t.phase ≡ TurnPhase.active)
    × (t.current_actor_runtime_id ≡ some caster.runtime_id)

is_actor_lem :
    (actor : Option ℤ) (caster : EntityRef)
    → (is_actor actor caster ≡ false) ⊎ (actor ≡ some caster.runtime_id)
is_actor_lem none caster = inl refl
is_actor_lem (some actor) caster = ground (arith, eqb_ℤ_iff actor caster.runtime_id)

pub require_active_caster-IsActor :
    (state : BattleState) (caster : EntityRef) {u : Unit {0}}
    → require_active_caster state caster ≡ ok u
    → IsActor state caster
unfolding require_active_caster
require_active_caster-IsActor state caster h = elim (Option-cases state.turn_timeline) [
  | inl e ↦ ground (arith, e)
  | inr (t, e) ↦
      (t, e, ground (arith, e), ground (arith, e, is_actor_lem t.current_actor_runtime_id caster))
]

pub IsActor-require_active_caster :
    (state : BattleState) (caster : EntityRef)
    → IsActor state caster
    → require_active_caster state caster ≡ ok tt
unfolding require_active_caster
IsActor-require_active_caster state caster (t, e, p, a) =
    rw (e, p, a) (ground (arith, eqb_ℤ_iff caster.runtime_id caster.runtime_id))

-- What the skill reads after its gates: three external numbers and four stored properties.
pub record Inputs (state : BattleState) (caster : EntityRef) (config : NatashaSkill02HealConfig)
    (bindings : RealSkillExternalBindings) : Type 0 where
  pub numbers : ResolvedDynamicFloat
  pub percentage : ResolvedDynamicFloat
  pub modify_value : ResolvedDynamicFloat
  pub target_max : ℤ
  pub target_current : ℤ
  pub heal_ratio : ℤ
  pub taken_ratio : ℤ
  pub resolves_numbers : resolve bindings config.dispel_numbers ≡ ok numbers
  pub resolves_percentage : resolve bindings config.heal_percentage ≡ ok percentage
  pub resolves_modify_value : resolve bindings config.modify_value ≡ ok modify_value
  pub reads_max : property_raw state bindings.ability_target max_hp_property_id ≡ ok target_max
  pub reads_current :
      property_raw state bindings.ability_target current_hp_property_id ≡ ok target_current
  pub reads_ratio : property_raw state caster heal_ratio_property_id ≡ ok heal_ratio
  pub reads_taken :
      property_raw state bindings.ability_target heal_taken_ratio_property_id ≡ ok taken_ratio

module _ {state : BattleState} {caster : EntityRef} {config : NatashaSkill02HealConfig}
    {bindings : RealSkillExternalBindings} where
  -- The formula at the inputs.
  abbrev pub amount_of : Inputs state caster config bindings → Result ℤ
  amount_of i =
      heal_formula_type4_ordinary i.target_max i.target_current i.percentage.value_raw
        i.modify_value.value_raw i.heal_ratio i.taken_ratio

  abbrev pub dispel_request_of : Inputs state caster config bindings → DispelStatusRequestBoundary
  dispel_request_of i = record {
    caster = caster;
    target = bindings.ability_target;
    numbers_raw = i.numbers.value_raw;
    order = config.dispel_order;
    config_ref = config.content_artifact_ref ++ codes "#0xBC9A24";
    resolution_provenance = i.numbers.provenance;
  }

  abbrev pub heal_request_of : Inputs state caster config bindings → ℤ → HealRequestBoundary
  heal_request_of i amount = record {
    healer = caster;
    target = bindings.ability_target;
    amount_raw = amount;
    observed_current_hp_raw = i.target_current;
    formula_type = config.heal_formula_type;
    config_ref = config.content_artifact_ref ++ codes "#0xBC9A4B";
    dynamic_resolution_provenance =
        i.percentage.provenance ∷ i.modify_value.provenance ∷ bindings.target_provenance
        ∷ bindings.healer_branch_provenance ∷ [];
    consumer_status = codes "POSITIVE_HEAL_EVENT_CONSUMER_NOT_RECOVERED";
  }

  -- Both requests, with the caster and the target.
  abbrev pub Emitted :
      Inputs state caster config bindings → ℤ → RealSkillExecutionBoundaryResult → Type 0
  Emitted i amount r =
      (r.caster ≡ caster)
      × (r.target ≡ bindings.ability_target)
      × (r.predicate_satisfied ≡ true)
      × (r.dispel_request ≡ some (dispel_request_of i))
      × (r.heal_request ≡ some (heal_request_of i amount))

-- Neither request.
abbrev pub Skipped :
    EntityRef → RealSkillExternalBindings → RealSkillExecutionBoundaryResult → Type 0
Skipped caster bindings r =
    (r.caster ≡ caster)
    × (r.target ≡ bindings.ability_target)
    × (r.predicate_satisfied ≡ false)
    × (r.dispel_request ≡ none)
    × (r.heal_request ≡ none)
