-- ===== src/Tests/Turns.antt =====
-- A timeline of two participants whose delays are 2 and 1.
use hsr_battle_agent.Base.{
  Error, List, [], arith, false, if◌then◌else◌, none, ok, raise, refl, some, true, ◌∷◌, ◌≡◌, ◌⊎◌,
}
use hsr_battle_agent.Base.Dict.{int_eq, lookup}
use hsr_battle_agent.Base.Int.{eqb_ℤ, pos, ℤ}
use hsr_battle_agent.FixPoint.{fixpoint_is_negative, is_raw, validate_raw}
use hsr_battle_agent.Modifier.{ref_eq}
use hsr_battle_agent.Property.{PropertyEntry}
use hsr_battle_agent.Property.Valid.{IsSupported, IsValid}
use hsr_battle_agent.State.{TurnPhase, TurnTimeline, World, key_eq, property_entry_key}
use hsr_battle_agent.Targets.{EntityRef, TargetSet}
use hsr_battle_agent.Tests.Numbers.{one, two}
use hsr_battle_agent.Turn.{delay_id, require_nonnegative_raw, timeline}
use hsr_battle_agent.Turn.Advance.{Advanced, advance-Advanced}
use hsr_battle_agent.Turn.Completion.{Completed, acknowledge-Completed}
use hsr_battle_agent.Turn.Participants.{Participant}
use hsr_battle_agent.Turn.Runs.{Between, TurnEnd, take_turns, take_turns-Between}
use hsr_battle_agent.Turn.Start.{Fit, Unfit, first_timeline, initialize-checked}
use hsr_battle_agent.Turn.Steps.{
  ActionCompletionBoundary, TurnAdvanceResult, acknowledge_action_completion, advance_to_next_actor,
  entity_of, initialize_turn_timeline, with_timeline,
}
use mathlib.Core.List.Perm

abbrev delay_entry_of : ℤ → PropertyEntry
delay_entry_of value = record {
  source_generation = 1 ∷ [];
  source_active = true ∷ [];
  source_value = value ∷ [];
  post_hook_context = none;
  post_transform_a = none;
  post_transform_b = none;
  materialization_kind = 1;
  generation_counter = 1;
  active_source_extent = 1;
  last_changed_source = 0;
  base_or_fallback = pos 0;
  materialized = value;
}

delay_entry_of-IsValid : (value : ℤ) → is_raw value ≡ true → IsValid (delay_entry_of value)
delay_entry_of-IsValid value raw = record {
  stamped = (omega arith, omega arith, tt);
  parallel = refl;
  values = rw raw refl;
  base = refl;
  materialized_raw = raw;
  extent = refl;
}

delay_entry_of-IsSupported : (value : ℤ) → IsSupported (delay_entry_of value)
delay_entry_of-IsSupported value = record {
  hook = refl;
  transform_a = refl;
  transform_b = refl;
  kind = refl;
}

abbrev delays : ℤ → ℤ
delays id = if eqb_ℤ id (pos 1) then two else one

abbrev timeline_in : TurnPhase → TurnTimeline
timeline_in phase = record {
  action_entity_runtime_ids = pos 1 ∷ pos 2 ∷ [];
  current_actor_runtime_id = some (pos 2);
  elapsed_action_delay_raw = pos 0;
  turn_index = 0;
  phase = phase;
  last_completion_provenance = none;
}

abbrev world_in : TurnPhase → World
world_in phase = record {
  state = record {
    extensions = [];
    modifier_state_by_entity = [];
    entity_property_entries =
        (property_entry_key (entity_of (pos 1)) delay_id, delay_entry_of two)
        ∷ (property_entry_key (entity_of (pos 2)) delay_id, delay_entry_of one)
        ∷ [];
    modifier_property_contributions = [];
    component_lock_hp_records = [];
    turn_timeline = some (timeline_in phase);
  };
  boundaries = none;
  hp_boundaries = none;
}

timeline_read : (phase : TurnPhase) → timeline (world_in phase).state ≡ ok (timeline_in phase)
unfolding timeline require_nonnegative_raw validate_raw fixpoint_is_negative
timeline_read phase = refl

first_waits : (phase : TurnPhase) → Participant (world_in phase).state (pos 1) two
unfolding lookup fixpoint_is_negative validate_raw
first_waits phase = record {
  entry = delay_entry_of two;
  stored = refl;
  valid = delay_entry_of-IsValid two refl;
  supported = delay_entry_of-IsSupported two;
  kind = refl;
  room = omega arith;
  value = refl;
  nonnegative = refl;
}

second_waits : (phase : TurnPhase) → Participant (world_in phase).state (pos 2) one
unfolding lookup fixpoint_is_negative validate_raw
second_waits phase = record {
  entry = delay_entry_of one;
  stored = refl;
  valid = delay_entry_of-IsValid one refl;
  supported = delay_entry_of-IsSupported one;
  kind = refl;
  room = omega arith;
  value = refl;
  nonnegative = refl;
}

advance-Advanced_example :
    (r : TurnAdvanceResult) × (w' : World) × (advance_to_next_actor (world_in TurnPhase.ready)
      ≡ (ok r, w'))
    × Advanced delays (timeline_in TurnPhase.ready) (world_in TurnPhase.ready) r w'
advance-Advanced_example =
    advance-Advanced delays (timeline_in TurnPhase.ready) (world_in TurnPhase.ready)
      (timeline_read TurnPhase.ready) refl
      (first_waits TurnPhase.ready, (second_waits TurnPhase.ready, tt))

two_nonnegative : fixpoint_is_negative two ≡ ok false
unfolding fixpoint_is_negative validate_raw
two_nonnegative = refl

abbrev completion_of : ℤ → ActionCompletionBoundary
completion_of id = record { actor = entity_of id; next_action_delay_raw = two; provenance = "test" }

acknowledge-Completed_example :
    (w' : World) × (acknowledge_action_completion
        (completion_of (pos 2))
        (world_in TurnPhase.active)
      ≡ (ok tt, w'))
    × Completed
        (timeline_in TurnPhase.active)
        (completion_of (pos 2))
        (world_in TurnPhase.active)
        w'
acknowledge-Completed_example =
    acknowledge-Completed (completion_of (pos 2)) (timeline_in TurnPhase.active)
      (world_in TurnPhase.active) one (timeline_read TurnPhase.active) refl refl
      (second_waits TurnPhase.active) refl two_nonnegative

abbrev pair_of_targets : TargetSet
pair_of_targets = record { items = some (entity_of (pos 1)) ∷ some (entity_of (pos 2)) ∷ [] }

initialize-checked_example :
    (Unfit pair_of_targets (world_in TurnPhase.ready)
      × ((e : Error) × (initialize_turn_timeline pair_of_targets (world_in TurnPhase.ready)
            ≡ (raise e, world_in TurnPhase.ready))))
    ⊎ ((entities : List EntityRef) × Fit pair_of_targets (world_in TurnPhase.ready) entities
        × (initialize_turn_timeline pair_of_targets (world_in TurnPhase.ready)
            ≡ (ok tt, with_timeline (world_in TurnPhase.ready) (first_timeline entities)))
        × (timeline (with_timeline (world_in TurnPhase.ready) (first_timeline entities)).state
            ≡ ok (first_timeline entities)))
initialize-checked_example = initialize-checked pair_of_targets (world_in TurnPhase.ready)

abbrev turn_ends : List TurnEnd
turn_ends =
    record { next_action_delay_raw = two; provenance = "first" }
    ∷ record { next_action_delay_raw = one; provenance = "second" }
    ∷ []

abbrev both : List ℤ
both = pos 1 ∷ pos 2 ∷ []

ready-Between : Between both 0 (world_in TurnPhase.ready)
ready-Between = record {
  now = timeline_in TurnPhase.ready;
  delay_of = delays;
  read = timeline_read TurnPhase.ready;
  idle = refl;
  at_index = refl;
  same_participants = Perm.refl _;
  waiting = (first_waits TurnPhase.ready, (second_waits TurnPhase.ready, tt));
}

one_nonnegative : fixpoint_is_negative one ≡ ok false
unfolding fixpoint_is_negative validate_raw
one_nonnegative = refl

take_turns-Between_example :
    (w' : World) × (take_turns turn_ends (world_in TurnPhase.ready) ≡ (ok tt, w'))
    × Between both 2 w'
take_turns-Between_example =
    take_turns-Between both 0 turn_ends (world_in TurnPhase.ready) ready-Between
      ((refl, two_nonnegative), ((refl, one_nonnegative), tt))
