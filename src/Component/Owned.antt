-- ===== src/Component/Owned.antt =====
-- The operations of src/hsr_battle_agent/battle_runtime/property.py on contributions that a modifier
-- owns, and the soundness of the world.
use hsr_battle_agent.Base.{
  Bool, Bool-cases, List, Option, Result-cases, [], arith, false, if◌then◌else◌, inl, inr, none,
  refl, some, ℕ, ◌++◌, ◌∷◌, ◌≡◌,
}
use hsr_battle_agent.Base.Action.{Action, modify, pure, ◌>>=◌, ◌>>◌}
use hsr_battle_agent.Base.Dict.{erase, int_eq, lookup-erase}
use hsr_battle_agent.Base.Int.{ltb_ℤ, pos, ℤ}
use hsr_battle_agent.Component.{
  component_stack_source, remove_contribution_source, update_contribution_source,
}
use hsr_battle_agent.Component.Contributions.{
  Records, StackPropertyExecutor, find_record, pop_property_contributions, put_records,
  records_for_modifier, records_of, remove_records, stack_new, stack_or_update,
  stack_property_contribution, stack_property_execute, stack_targets, with_contributions,
}
use hsr_battle_agent.Component.Ownership.{
  All-append, KeepsSound, Sound, bind-KeepsSound, component_stack_source-KeepsSound,
  put_records-KeepsSound, remove_contribution_source-KeepsSound,
  update_contribution_source-KeepsSound,
}
use hsr_battle_agent.FixPoint.{validate_raw}
use hsr_battle_agent.Modifier.{ModifierRef, ModifierState, alive, eqb_ref, ref, ref_eq}
use hsr_battle_agent.State.{ModifierPropertyContribution, World, key_eq}
use hsr_battle_agent.Targets.{EntityRef, TargetSet}

records_for_modifier-KeepsSound : (owner : ModifierRef) → KeepsSound (records_for_modifier owner)
unfolding records_for_modifier
records_for_modifier-KeepsSound owner w h =
    put_records-KeepsSound owner (records_of w owner) (h.owned owner) w h

abbrev new_record : ModifierRef → ℤ → EntityRef → ℕ → ModifierPropertyContribution
new_record owner property_id target source_index = record {
  modifier = owner;
  target = target;
  property_id = property_id;
  source_index = source_index;
}

stack_new-KeepsSound :
    (owner : ModifierRef) (property_id value : ℤ) (target : EntityRef)
    → KeepsSound (stack_new owner property_id value target)
unfolding stack_new
stack_new-KeepsSound owner property_id value target w h =
    bind-KeepsSound (component_stack_source target property_id value)
      (λ source_index w1.
        (put_records owner
              (records_of w1 owner ++ new_record owner property_id target source_index ∷ [])
            >> pure (some source_index))
          w1)
      (component_stack_source-KeepsSound target property_id value)
      (λ source_index w1 h1.
        put_records-KeepsSound owner
          (records_of w1 owner ++ new_record owner property_id target source_index ∷ [])
          (All-append owner (records_of w1 owner) (new_record owner property_id target source_index)
            (h1.owned owner) refl)
          w1 h1)
      w h

stack_or_update-KeepsSound :
    (owner : ModifierRef) (property_id value : ℤ) (target : EntityRef) (found : Option ℕ)
    → KeepsSound (stack_or_update owner property_id value target found)
unfolding stack_or_update
stack_or_update-KeepsSound owner property_id value target none w h =
    stack_new-KeepsSound owner property_id value target w h
stack_or_update-KeepsSound owner property_id value target (some source_index) w h =
    bind-KeepsSound (update_contribution_source target property_id (pos source_index) value)
      (λ _. pure (some source_index))
      (update_contribution_source-KeepsSound target property_id (pos source_index) value)
      (λ _ w1 h1. h1) w h

stack_property_contribution-KeepsSound :
    (modifier : ModifierState) (property_id value : ℤ) (target : EntityRef) (is_refresh : Bool)
    → KeepsSound (stack_property_contribution modifier property_id value target is_refresh)
unfolding stack_property_contribution
stack_property_contribution-KeepsSound modifier property_id value target is_refresh w h =
    elim (Result-cases (validate_raw value)) [
      | inr (e, bad) ↦ rw bad h
      | inl (u, fine) ↦ elim (Bool-cases (ltb_ℤ alive modifier.state_raw)) [
        | inl dead ↦ rw (fine, dead) h
        | inr live ↦
            rw (fine, live)
              (bind-KeepsSound (records_for_modifier (ref modifier))
                (λ records.
                  stack_or_update (ref modifier) property_id value target
                    (if is_refresh then find_record property_id target records else none))
                (records_for_modifier-KeepsSound (ref modifier))
                (λ records.
                  stack_or_update-KeepsSound (ref modifier) property_id value target
                    (if is_refresh then find_record property_id target records else none))
                w h)
      ]
    ]

remove_records-KeepsSound : (records : Records) → KeepsSound (remove_records records)
unfolding remove_records
remove_records-KeepsSound [] w h = h
remove_records-KeepsSound (r ∷ records) w h =
    bind-KeepsSound (remove_contribution_source r.target r.property_id (pos r.source_index))
      (λ _. remove_records records)
      (remove_contribution_source-KeepsSound r.target r.property_id (pos r.source_index))
      (λ _. remove_records-KeepsSound records) w h

forget : ModifierRef → Action World (Unit {0})
forget owner =
    modify (λ w. with_contributions w (erase owner w.state.modifier_property_contributions))

records_of-forget :
    (owner other : ModifierRef) (w : World)
    → records_of (forget owner w).1 other ≡ (if eqb_ref other owner then [] else records_of w other)
unfolding forget
records_of-forget owner other w =
    ground (arith, lookup-erase other owner w.state.modifier_property_contributions)

forget-KeepsSound : (owner : ModifierRef) → KeepsSound (forget owner)
unfolding forget
forget-KeepsSound owner w h = record {
  valid = h.valid;
  owned = λ other. elim (Bool-cases (eqb_ref other owner)) [
    | inl same ↦ rw (records_of-forget owner other w, same) tt
    | inr apart ↦ rw (records_of-forget owner other w, apart) (h.owned other)
  ];
}

pop_property_contributions-KeepsSound :
    (modifier : ModifierState) → KeepsSound (pop_property_contributions modifier)
unfolding pop_property_contributions forget
pop_property_contributions-KeepsSound modifier w h =
    bind-KeepsSound (remove_records (records_of w (ref modifier))) (λ _. forget (ref modifier))
      (remove_records-KeepsSound (records_of w (ref modifier)))
      (λ _. forget-KeepsSound (ref modifier)) w h

stack_targets-KeepsSound :
    (executor : StackPropertyExecutor) (value : ℤ) (items : List (Option EntityRef))
    → KeepsSound (stack_targets executor value items)
unfolding stack_targets
stack_targets-KeepsSound executor value [] w h = h
stack_targets-KeepsSound executor value (none ∷ items) w h = h
stack_targets-KeepsSound executor value (some target ∷ items) w h =
    bind-KeepsSound
      (stack_property_contribution executor.modifier executor.property_id value target false)
      (λ source_index.
        stack_targets executor value items >>= λ applied. pure ((target, source_index) ∷ applied))
      (stack_property_contribution-KeepsSound executor.modifier executor.property_id value target
        false)
      (λ source_index.
        bind-KeepsSound (stack_targets executor value items)
          (λ applied. pure ((target, source_index) ∷ applied))
          (stack_targets-KeepsSound executor value items) (λ applied w1 h1. h1))
      w h

stack_property_execute-KeepsSound :
    (executor : StackPropertyExecutor) (targets : TargetSet) (value : ℤ)
    → KeepsSound (stack_property_execute executor targets value)
unfolding stack_property_execute
stack_property_execute-KeepsSound executor targets value w h =
    elim (Result-cases (validate_raw value)) [
      | inr (e, bad) ↦ rw bad h
      | inl (u, fine) ↦ rw fine (stack_targets-KeepsSound executor value targets.items w h)
    ]

pub data OwnerCall : Type 0 where
  stack_for : ModifierState → ℤ → ℤ → EntityRef → Bool → OwnerCall
  pop_for : ModifierState → OwnerCall
  execute : StackPropertyExecutor → TargetSet → ℤ → OwnerCall

-- The world after a call, whether it returned or raised.
unfoldable pub world_after : OwnerCall → World → World
world_after (stack_for modifier property_id value target is_refresh) w =
    (stack_property_contribution modifier property_id value target is_refresh w).1
world_after (pop_for modifier) w = (pop_property_contributions modifier w).1
world_after (execute executor targets value) w = (stack_property_execute executor targets value w).1

-- Stacking, popping and the stacking task, returning or raising, keep every stored entry well-formed
-- and every owner record under the modifier that it names.
pub world_after-Sound : (call : OwnerCall) (w : World) → Sound w → Sound (world_after call w)
unfolding world_after
world_after-Sound (stack_for modifier property_id value target is_refresh) w h =
    stack_property_contribution-KeepsSound modifier property_id value target is_refresh w h
world_after-Sound (pop_for modifier) w h = pop_property_contributions-KeepsSound modifier w h
world_after-Sound (execute executor targets value) w h =
    stack_property_execute-KeepsSound executor targets value w h
