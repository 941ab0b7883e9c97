-- ===== src/Turn/Steps.antt =====
-- src/hsr_battle_agent/battle_runtime/turns.py, the three operations that change the timeline.
use hsr_battle_agent.Base.{
  Bool, List, Option, Result, String, [], completion_required, false, if◌then◌else◌, index_error,
  length, map, none, not, ok, raise, some, true, turn_semantic, unsupported_participant,
  value_error, ℕ, ◌+◌, ◌==◌, ◌∷◌,
}
use hsr_battle_agent.Base.Action.{Action, gets, lift, modify, pure, raise_if, ◌>>=◌, ◌>>◌}
use hsr_battle_agent.Base.Int.{eqb_ℤ, pos, ℤ}
use hsr_battle_agent.Component.{modify_source_zero_untransformed}
use hsr_battle_agent.FixPoint.{fixpoint_is_negative}
use hsr_battle_agent.FixPoint.Arith.{fixedpoint_add, fixedpoint_subtract}
use hsr_battle_agent.State.{BattleState, TurnPhase, TurnTimeline, World}
use hsr_battle_agent.Targets.{EntityRef, TargetSet}
use hsr_battle_agent.Turn.{
  all_distinct, comes_before, delay_entry, delay_id, remaining_action_delay,
  require_nonnegative_raw, timeline,
}
use hsr_battle_agent.Turn.Sort.{sort}

abbrev pub with_timeline : World → TurnTimeline → World
with_timeline w t = record w { state = record w.state { turn_timeline = some t } }

abbrev pub entity_of : ℤ → EntityRef
entity_of id = record { runtime_id = id }

-- `tuple(participants.items)`, refused where an item is null
abbrev pub present : List (Option EntityRef) → Result (List EntityRef)
present [] = ok []
present (none ∷ items) = raise unsupported_participant
present (some entity ∷ items) = elim (present items) [
  | ok entities ↦ ok (entity ∷ entities)
  | raise e ↦ raise e
]

-- The loop that looks every participant's delay up.
abbrev pub check_delays : BattleState → List EntityRef → Result (Unit {0})
check_delays state [] = ok tt
check_delays state (entity ∷ entities) = elim (delay_entry state entity) [
  | ok _ ↦ check_delays state entities
  | raise e ↦ raise e
]

abbrev pub ids_of : List EntityRef → List ℤ
ids_of = map (λ entity. entity.runtime_id)

unfoldable pub initialize_turn_timeline : TargetSet → Action World (Unit {0})
initialize_turn_timeline participants = do
  raise_if (length participants.items == 0) value_error
  entities ← lift (present participants.items)
  raise_if (not (all_distinct (ids_of entities))) value_error
  w ← gets (λ w. w)
  lift (check_delays w.state entities)
  modify (λ w. with_timeline w (record {
    action_entity_runtime_ids = ids_of entities;
    current_actor_runtime_id = none;
    elapsed_action_delay_raw = pos 0;
    turn_index = 0;
    phase = TurnPhase.ready;
    last_completion_provenance = none;
  }))

pub record TurnAdvanceResult : Type 0 where
  pub actor : EntityRef
  pub selected_delay_raw : ℤ
  pub elapsed_action_delay_raw : ℤ
  pub ordered_entities : List EntityRef
  pub turn_index : ℕ

abbrev pub is_active : TurnPhase → Bool
is_active TurnPhase.active = true
is_active _ = false

-- `PropertyModifyFunction.SET`
abbrev pub set_function : ℤ
set_function = pos 1

-- The delay that is left after `selected` has elapsed, not below zero.
unfoldable pub reduced_delay : ℤ → ℤ → Result ℤ
reduced_delay old selected = elim (fixedpoint_subtract old selected) [
  | raise e ↦ raise e
  | ok candidate ↦ elim (fixpoint_is_negative candidate) [
    | raise e ↦ raise e
    | ok negative ↦ ok (if negative then pos 0 else candidate)
  ]
]

-- One round of the loop of `advance_to_next_actor`.
unfoldable pub reduce_entity : ℤ → EntityRef → Action World (Unit {0})
reduce_entity selected entity = do
  w ← gets (λ w. w)
  entry ← lift (delay_entry w.state entity)
  candidate ← lift (reduced_delay entry.materialized selected)
  changed ← modify_source_zero_untransformed entity delay_id set_function candidate
  raise_if (not changed) turn_semantic

unfoldable pub reduce_all : ℤ → List EntityRef → Action World (Unit {0})
reduce_all selected [] = pure tt
reduce_all selected (entity ∷ entities) =
    reduce_entity selected entity >> reduce_all selected entities

-- `entities[0]`; the list is not empty, by the check of `timeline`
abbrev pub first_entity : List EntityRef → Result EntityRef
first_entity [] = raise index_error
first_entity (entity ∷ entities) = ok entity

-- The end of `advance_to_next_actor`: the new timeline and the result.
unfoldable pub activate :
    TurnTimeline → EntityRef → ℤ → List EntityRef → Action World TurnAdvanceResult
activate t actor selected entities = do
  elapsed ← lift (fixedpoint_add t.elapsed_action_delay_raw selected)
  modify (λ w'. with_timeline w' (record {
    action_entity_runtime_ids = ids_of entities;
    current_actor_runtime_id = some actor.runtime_id;
    elapsed_action_delay_raw = elapsed;
    turn_index = t.turn_index + 1;
    phase = TurnPhase.active;
    last_completion_provenance = none;
  }))
  pure (record {
    actor = actor;
    selected_delay_raw = selected;
    elapsed_action_delay_raw = elapsed;
    ordered_entities = entities;
    turn_index = t.turn_index + 1;
  })

unfoldable pub advance_to_next_actor : Action World TurnAdvanceResult
advance_to_next_actor = do
  w ← gets (λ w. w)
  t ← lift (timeline w.state)
  raise_if (is_active t.phase) completion_required
  entities ← lift (sort (comes_before w.state) (map entity_of t.action_entity_runtime_ids))
  actor ← lift (first_entity entities)
  selected ← lift (remaining_action_delay w.state actor)
  reduce_all selected entities
  activate t actor selected entities

-- `ActionCompletionBoundary`; that the provenance is not blank is checked where it is built.
pub record ActionCompletionBoundary : Type 0 where
  pub actor : EntityRef
  pub next_action_delay_raw : ℤ
  pub provenance : String

abbrev pub is_actor : Option ℤ → EntityRef → Bool
is_actor none actor = false
is_actor (some id) actor = eqb_ℤ id actor.runtime_id

unfoldable pub acknowledge_action_completion : ActionCompletionBoundary → Action World (Unit {0})
acknowledge_action_completion boundary = do
  w ← gets (λ w. w)
  t ← lift (timeline w.state)
  raise_if (not (is_active t.phase)) turn_semantic
  raise_if (not (is_actor t.current_actor_runtime_id boundary.actor)) turn_semantic
  lift (require_nonnegative_raw boundary.next_action_delay_raw)
  changed ←
      modify_source_zero_untransformed boundary.actor delay_id set_function
        boundary.next_action_delay_raw
  raise_if (not changed) turn_semantic
  modify (λ w'. with_timeline w' (record t {
    phase = TurnPhase.settled;
    last_completion_provenance = some boundary.provenance;
  }))
