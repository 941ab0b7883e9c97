-- ===== src/Turn/Runs.antt =====
-- Turns of src/hsr_battle_agent/battle_runtime/turns.py one after another: each is an advance and the completion
-- of the actor that it chose.
use hsr_battle_agent.Base.{
  All, Bool-cases, List, Option, String, [], ap, arith, false, if◌then◌else◌, inl, inr, length, map,
  ok, refl, some, sym, true, ℕ, ◌+◌, ◌∙◌, ◌∷◌, ◌≡◌, ◌≢◌,
}
use hsr_battle_agent.Base.Action.{>>=-at, Action, pure, ◌>>=◌, ◌>>◌}
use hsr_battle_agent.Base.Dict.{int_eq}
use hsr_battle_agent.Base.Int.{eqb_ℤ, ℤ}
use hsr_battle_agent.FixPoint.{fixpoint_is_negative, is_raw}
use hsr_battle_agent.Modifier.{ref_eq}
use hsr_battle_agent.State.{BattleState, TurnPhase, TurnTimeline, World, key_eq}
use hsr_battle_agent.Targets.{EntityRef}
use hsr_battle_agent.Turn.{timeline}
use hsr_battle_agent.Turn.Advance.{active_timeline, advance-Advanced}
use hsr_battle_agent.Turn.Checked.{timeline-Checked}
use hsr_battle_agent.Turn.Completion.{acknowledge-Completed}
use hsr_battle_agent.Turn.Participants.{Participant, remaining, require_nonnegative-ok}
use hsr_battle_agent.Turn.Reduction.{AllDelayed}
use hsr_battle_agent.Turn.Steps.{
  ActionCompletionBoundary, TurnAdvanceResult, acknowledge_action_completion, advance_to_next_actor,
  entity_of, ids_of, is_active,
}
use hsr_battle_agent.Turn.Stored.{timeline-of_stored}
use mathlib.Core.List.Perm
use mathlib.Core.List.{Perm}
use mathlib.Core.Path.{subst}

-- The next delay and the provenance of a completion.
pub record TurnEnd : Type 0 where
  pub next_action_delay_raw : ℤ
  pub provenance : String

abbrev pub completion_by : EntityRef → TurnEnd → ActionCompletionBoundary
completion_by actor turn_end = record {
  actor = actor;
  next_action_delay_raw = turn_end.next_action_delay_raw;
  provenance = turn_end.provenance;
}

unfoldable pub take_turn : TurnEnd → Action World (Unit {0})
unfolding advance_to_next_actor acknowledge_action_completion
take_turn turn_end = do
  r ← advance_to_next_actor
  acknowledge_action_completion (completion_by r.actor turn_end)

unfoldable pub take_turns : List TurnEnd → Action World (Unit {0})
unfolding take_turn
take_turns [] = pure tt
take_turns (turn_end ∷ turn_ends) = take_turn turn_end >> take_turns turn_ends

abbrev pub IsTurnEnd : TurnEnd → Type 0
IsTurnEnd turn_end =
    (is_raw turn_end.next_action_delay_raw ≡ true)
    × (fixpoint_is_negative turn_end.next_action_delay_raw ≡ ok false)

-- A world between two turns: its timeline is read and is not active, has the index and, in some order, the
-- participants, and each of them has an acceptable delay.
pub record Between (ids : List ℤ) (index : ℕ) (w : World) : Type 0 where
  pub now : TurnTimeline
  pub delay_of : ℤ → ℤ
  pub read : timeline w.state ≡ ok now
  pub idle : is_active now.phase ≡ false
  pub at_index : now.turn_index ≡ index
  pub same_participants : Perm (map entity_of now.action_entity_runtime_ids) (map entity_of ids)
  pub waiting : All (λ id. Participant w.state id (delay_of id)) now.action_entity_runtime_ids

pub entities-ids_of : (entities : List EntityRef) → map entity_of (ids_of entities) ≡ entities
entities-ids_of [] = refl
entities-ids_of (e ∷ entities) = ap (λ l. e ∷ l) (entities-ids_of entities)

-- The delays after the actor's completion.
abbrev with_delay : ℤ → ℤ → (ℤ → ℤ) → ℤ → ℤ
with_delay actor next_delay delay_of id = if eqb_ℤ id actor then next_delay else delay_of id

module _ (actor next_delay : ℤ) (delay_of : ℤ → ℤ) (w w' : World)
    (own : Participant w'.state actor next_delay)
    (others : (other d : ℤ)
      → other ≢ actor
      → Participant w.state other d
      → Participant w'.state other d) where
  Participant-after :
      (id : ℤ)
      → Participant w.state id (delay_of id)
      → Participant w'.state id (with_delay actor next_delay delay_of id)
  Participant-after id p = elim (Bool-cases (eqb_ℤ id actor)) [
    | inl same ↦ rw same (
        subst (λ x. Participant w'.state x next_delay) (sym ((int_eq.beq_iff id actor).0 same)) own)
    | inr other ↦
        rw other (others id (delay_of id) (λ e. ground (arith, int_eq.beq_iff id actor)) p)
  ]

  All-after :
      (entities : List EntityRef)
      → AllDelayed w.state delay_of entities
      → All
          (λ id. Participant w'.state id (with_delay actor next_delay delay_of id))
          (ids_of entities)
  All-after [] all = tt
  All-after (e ∷ entities) all = (Participant-after e.runtime_id all.0, All-after entities all.1)

take_turn-run :
    (turn_end : TurnEnd) (w w1 w2 : World) (r : TurnAdvanceResult)
    → advance_to_next_actor w ≡ (ok r, w1)
    → acknowledge_action_completion (completion_by r.actor turn_end) w1 ≡ (ok tt, w2)
    → take_turn turn_end w ≡ (ok tt, w2)
unfolding take_turn
take_turn-run turn_end w w1 w2 r advanced completed =
    >>=-at advance_to_next_actor
      (λ r. acknowledge_action_completion (completion_by r.actor turn_end)) w advanced
    ∙ completed

first-Participant :
    (state : BattleState) (delay_of : ℤ → ℤ) (actor : EntityRef) (others entities : List EntityRef)
    → entities ≡ actor ∷ others
    → AllDelayed state delay_of entities
    → Participant state actor.runtime_id (delay_of actor.runtime_id)
first-Participant state delay_of actor others entities e all =
    (subst (AllDelayed state delay_of) e all).0

settled-read :
    (state : BattleState) (t : TurnTimeline) (phase : TurnPhase) (provenance : Option String)
    (w : World)
    → timeline state ≡ ok t
    → w.state.turn_timeline
      ≡ some (record t { phase = phase; last_completion_provenance = provenance })
    → timeline w.state ≡ ok (record t { phase = phase; last_completion_provenance = provenance })
settled-read state t phase provenance w read stored =
    let checked = timeline-Checked state t read in
    timeline-of_stored w.state _ stored checked.filled checked.distinct
      (require_nonnegative-ok t.elapsed_action_delay_raw checked.raw checked.nonnegative)

take_turn-Between :
    (ids : List ℤ) (index : ℕ) (turn_end : TurnEnd) (w : World)
    → Between ids index w
    → IsTurnEnd turn_end
    → (w' : World) × (take_turn turn_end w ≡ (ok tt, w')) × Between ids (index + 1) w'
take_turn-Between ids index turn_end w b h =
    let (r, w1, advanced, a) = advance-Advanced b.delay_of b.now w b.read b.idle b.waiting in
    let left = λ (id : ℤ). remaining r.selected_delay_raw (b.delay_of id) in
    let own =
      first-Participant w1.state left r.actor a.others r.ordered_entities a.actor_first a.reduced in
    let (w2, acknowledged, c) =
      acknowledge-Completed (completion_by r.actor turn_end) (active_timeline r) w1
        (left r.actor.runtime_id) a.read refl
        ((int_eq.beq_iff r.actor.runtime_id r.actor.runtime_id).1 refl) own h.0 h.1 in
    (
      w2,
      take_turn-run turn_end w w1 w2 r advanced acknowledged,
      record {
        now = record (active_timeline r) {
          phase = TurnPhase.settled;
          last_completion_provenance = some turn_end.provenance;
        };
        delay_of = with_delay r.actor.runtime_id turn_end.next_action_delay_raw left;
        read = settled-read w1.state (active_timeline r) _ _ w2 a.read c.stored;
        idle = refl;
        at_index = a.next_index ∙ ap (λ n. n + 1) b.at_index;
        same_participants =
            Perm.trans
              (subst (λ l. Perm l (map entity_of b.now.action_entity_runtime_ids))
                (sym (entities-ids_of r.ordered_entities)) a.permuted)
              b.same_participants;
        waiting =
            All-after r.actor.runtime_id turn_end.next_action_delay_raw left w1 w2 c.next_delay
              c.others r.ordered_entities a.reduced;
      },
    )

-- Between two turns, any number of turns that end with acceptable delays can be taken: each chooses an actor and
-- none raises. Afterwards the world is between two turns again, with the same participants, and the
-- index has grown by the number of turns.
pub take_turns-Between :
    (ids : List ℤ) (index : ℕ) (turn_ends : List TurnEnd) (w : World)
    → Between ids index w
    → All IsTurnEnd turn_ends
    → (w' : World) × (take_turns turn_ends w ≡ (ok tt, w'))
      × Between ids (index + length turn_ends) w'
unfolding take_turns
take_turns-Between ids index [] w b h = (w, refl, subst (λ n. Between ids n w) (omega arith) b)
take_turns-Between ids index (turn_end ∷ turn_ends) w b h =
    let (w1, taken, b1) = take_turn-Between ids index turn_end w b h.0 in
    let (w2, rest, b2) = take_turns-Between ids (index + 1) turn_ends w1 b1 h.1 in
    (
      w2,
      >>=-at (take_turn turn_end) (λ _. take_turns turn_ends) w taken ∙ rest,
      subst (λ n. Between ids n w2) (omega arith) b2,
    )
