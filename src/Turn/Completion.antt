-- ===== src/Turn/Completion.antt =====
-- acknowledge_action_completion of src/hsr_battle_agent/battle_runtime/turns.py.
use hsr_battle_agent.Base.{
  Bool-cases, false, inl, inr, not, ok, raise, refl, set, some, true, turn_semantic, ◌&&◌, ◌≡◌, ◌≢◌,
}
use hsr_battle_agent.Base.Action.{>>=-at, modify, raise_if, ◌>>◌}
use hsr_battle_agent.Base.Int.{ℤ}
use hsr_battle_agent.Component.{modify_source_zero_untransformed}
use hsr_battle_agent.FixPoint.{fixpoint_is_negative, is_raw}
use hsr_battle_agent.State.{TurnPhase, TurnTimeline, World}
use hsr_battle_agent.Turn.{delay_id, require_nonnegative_raw, timeline}
use hsr_battle_agent.Turn.DelayWrite.{modify_delay-DelaySet}
use hsr_battle_agent.Turn.Participants.{Participant, Participant-timeline, require_nonnegative-ok}
use hsr_battle_agent.Turn.Steps.{
  ActionCompletionBoundary, acknowledge_action_completion, is_active, is_actor, set_function,
  with_timeline,
}

-- What an acknowledged completion has changed.
pub record Completed (t : TurnTimeline) (boundary : ActionCompletionBoundary) (w w' : World)
    : Type 0 where
  pub next_delay : Participant w'.state boundary.actor.runtime_id boundary.next_action_delay_raw
  pub others :
      (other d : ℤ)
      → other ≢ boundary.actor.runtime_id
      → Participant w.state other d
      → Participant w'.state other d
  pub stored :
      w'.state.turn_timeline
      ≡ some (record t {
        phase = TurnPhase.settled;
        last_completion_provenance = some boundary.provenance;
      })

acknowledge-run :
    (boundary : ActionCompletionBoundary) (t : TurnTimeline) (w w' : World)
    → timeline w.state ≡ ok t
    → is_active t.phase ≡ true
    → is_actor t.current_actor_runtime_id boundary.actor ≡ true
    → require_nonnegative_raw boundary.next_action_delay_raw ≡ ok tt
    → modify_source_zero_untransformed boundary.actor delay_id set_function
        boundary.next_action_delay_raw w
      ≡ (ok true, w')
    → acknowledge_action_completion boundary w ≡ (
      ok tt,
      with_timeline w' (record t {
        phase = TurnPhase.settled;
        last_completion_provenance = some boundary.provenance;
      }),
    )
unfolding acknowledge_action_completion
acknowledge-run boundary t w w' found active_phase acting next modified =
    rw (found, active_phase, acting, next)
      (>>=-at
        (modify_source_zero_untransformed boundary.actor delay_id set_function
          boundary.next_action_delay_raw)
        (λ changed.
          raise_if (not changed) turn_semantic
          >> modify (λ w''. with_timeline w'' (record t {
            phase = TurnPhase.settled;
            last_completion_provenance = some boundary.provenance;
          })))
        w modified)

-- In the active phase, the completion by the current actor, which has an acceptable delay stored under
-- kind 1, with an acceptable next delay succeeds: it gives the actor that delay, keeps every other
-- participant's, and settles the timeline.
pub acknowledge-Completed :
    (boundary : ActionCompletionBoundary) (t : TurnTimeline) (w : World) (old : ℤ)
    → timeline w.state ≡ ok t
    → is_active t.phase ≡ true
    → is_actor t.current_actor_runtime_id boundary.actor ≡ true
    → Participant w.state boundary.actor.runtime_id old
    → is_raw boundary.next_action_delay_raw ≡ true
    → fixpoint_is_negative boundary.next_action_delay_raw ≡ ok false
    → (w' : World) × (acknowledge_action_completion boundary w ≡ (ok tt, w'))
      × Completed t boundary w w'
acknowledge-Completed boundary t w old found active_phase acting p raw nonneg =
    let id = boundary.actor.runtime_id in
    let next = boundary.next_action_delay_raw in
    let (w', modified, set) = modify_delay-DelaySet id old next w p raw nonneg in
    (
      _,
      acknowledge-run boundary t w w' found active_phase acting
          (require_nonnegative-ok next raw nonneg) modified,
      record {
        next_delay = Participant-timeline w' _ id next set.participant;
        others = λ other d ne q. Participant-timeline w' _ other d (set.others other d ne q);
        stored = refl;
      },
    )

-- Outside the active phase, or for another entity than the actor, a completion is refused and changes
-- nothing.
pub acknowledge-refused :
    (boundary : ActionCompletionBoundary) (t : TurnTimeline) (w : World)
    → timeline w.state ≡ ok t
    → (is_active t.phase && is_actor t.current_actor_runtime_id boundary.actor) ≡ false
    → acknowledge_action_completion boundary w ≡ (raise turn_semantic, w)
unfolding acknowledge_action_completion
acknowledge-refused boundary t w found h = elim (Bool-cases (is_active t.phase)) [
  | inr idle ↦ rw (found, idle)
  | inl active_phase ↦
      let other : is_actor t.current_actor_runtime_id boundary.actor ≡ false =
        (rw active_phase at h) in
      rw (found, active_phase, other)
]
