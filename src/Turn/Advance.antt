-- ===== src/Turn/Advance.antt =====
-- advance_to_next_actor of src/hsr_battle_agent/battle_runtime/turns.py on a timeline of
-- participants.
use mathlib.Core.List.Perm
use hsr_battle_agent.Base.{
  All, List, [], ap, false, inl, inr, map, none, ok, refl, some, sym, true, ◌+◌, ◌∙◌, ◌∷◌, ◌≡◌, ◌⊎◌,
}
use hsr_battle_agent.Base.Action.{>>=-at}
use hsr_battle_agent.Base.Int.{ℤ}
use hsr_battle_agent.FixPoint.{is_raw}
use hsr_battle_agent.FixPoint.Arith.{fixedpoint_add}
use hsr_battle_agent.FixPoint.Order.{scaled}
use hsr_battle_agent.Property.Folds.{fixedpoint_add-IsTotal}
use hsr_battle_agent.State.{TurnPhase, TurnTimeline, World}
use hsr_battle_agent.Targets.{EntityRef}
use hsr_battle_agent.Turn.{comes_before, is_empty, remaining_action_delay, timeline}
use hsr_battle_agent.Turn.Checked.{Checked, timeline-Checked}
use hsr_battle_agent.Turn.Distinct.{order-Distinct}
use hsr_battle_agent.Turn.Keys.{AllDelayed-of, comes_before-key, remaining_action_delay-ok}
use hsr_battle_agent.Turn.Participants.{Participant, Participant-timeline, remaining}
use hsr_battle_agent.Turn.Reduction.{AllDelayed, reduce_all-Reduced}
use hsr_battle_agent.Turn.Sort.{sort}
use hsr_battle_agent.Turn.Stored.{fixedpoint_add-NotNegative, timeline-of_entities}
use hsr_battle_agent.Turn.SortLaws.{IsSorted, sort-Sorted, with_key}
use hsr_battle_agent.Turn.Steps.{
  TurnAdvanceResult, activate, advance_to_next_actor, entity_of, ids_of, is_active, reduce_all,
  with_timeline,
}
use mathlib.Core.List.{Perm}
use mathlib.Core.Path.{subst}

-- The timeline that is stored with a result.
abbrev pub active_timeline : TurnAdvanceResult → TurnTimeline
active_timeline r = record {
  action_entity_runtime_ids = ids_of r.ordered_entities;
  current_actor_runtime_id = some r.actor.runtime_id;
  elapsed_action_delay_raw = r.elapsed_action_delay_raw;
  turn_index = r.turn_index;
  phase = TurnPhase.active;
  last_completion_provenance = none;
}

-- The result and the world of an advance, for the delays that the participants had.
pub record Advanced (delay_of : ℤ → ℤ) (t : TurnTimeline) (w : World) (r : TurnAdvanceResult)
    (w' : World) : Type 0 where
  pub others : List EntityRef
  pub actor_first : r.ordered_entities ≡ r.actor ∷ others
  pub permuted : Perm r.ordered_entities (map entity_of t.action_entity_runtime_ids)
  pub sorted : IsSorted (λ e. scaled (delay_of e.runtime_id)) r.ordered_entities
  pub stable :
      (k : ℤ)
      → with_key (λ e. scaled (delay_of e.runtime_id)) k r.ordered_entities
        ≡ with_key
            (λ e. scaled (delay_of e.runtime_id))
            k
            (map entity_of t.action_entity_runtime_ids)
  pub selected : r.selected_delay_raw ≡ delay_of r.actor.runtime_id
  pub reduced :
      AllDelayed w'.state (λ id. remaining r.selected_delay_raw (delay_of id)) r.ordered_entities
  pub elapsed :
      fixedpoint_add t.elapsed_action_delay_raw r.selected_delay_raw ≡ ok r.elapsed_action_delay_raw
  pub next_index : r.turn_index ≡ t.turn_index + 1
  pub stored : w'.state.turn_timeline ≡ some (active_timeline r)
  pub read : timeline w'.state ≡ ok (active_timeline r)

AllDelayed-timeline :
    (w : World) (u : TurnTimeline) (delay_of : ℤ → ℤ) (entities : List EntityRef)
    → AllDelayed w.state delay_of entities
    → AllDelayed (with_timeline w u).state delay_of entities
AllDelayed-timeline w u delay_of [] all = tt
AllDelayed-timeline w u delay_of (e ∷ entities) all = (
  Participant-timeline w u e.runtime_id (delay_of e.runtime_id) all.0,
  AllDelayed-timeline w u delay_of entities all.1,
)

List-cases :
    (xs : List EntityRef) → (xs ≡ []) ⊎ ((x : EntityRef) × (ys : List EntityRef) × (xs ≡ x ∷ ys))
List-cases [] = inl refl
List-cases (x ∷ xs) = inr (x, xs, refl)

filled-map : (ids : List ℤ) → is_empty ids ≡ false → [] ≡ map entity_of ids → ⊥
filled-map [] h e = cc
filled-map (id ∷ ids) h e = cc

activate-done :
    (t : TurnTimeline) (actor : EntityRef) (selected elapsed : ℤ) (entities : List EntityRef)
    (w : World)
    → fixedpoint_add t.elapsed_action_delay_raw selected ≡ ok elapsed
    → activate t actor selected entities w ≡ (
      ok (record {
        actor = actor;
        selected_delay_raw = selected;
        elapsed_action_delay_raw = elapsed;
        ordered_entities = entities;
        turn_index = t.turn_index + 1;
      }),
      with_timeline w (record {
        action_entity_runtime_ids = ids_of entities;
        current_actor_runtime_id = some actor.runtime_id;
        elapsed_action_delay_raw = elapsed;
        turn_index = t.turn_index + 1;
        phase = TurnPhase.active;
        last_completion_provenance = none;
      }),
    )
unfolding activate
activate-done t actor selected elapsed entities w e = rw e

advance-run :
    (t : TurnTimeline) (w w' : World) (actor : EntityRef) (rest : List EntityRef) (selected : ℤ)
    → timeline w.state ≡ ok t
    → is_active t.phase ≡ false
    → sort (comes_before w.state) (map entity_of t.action_entity_runtime_ids) ≡ ok (actor ∷ rest)
    → remaining_action_delay w.state actor ≡ ok selected
    → reduce_all selected (actor ∷ rest) w ≡ (ok tt, w')
    → advance_to_next_actor w ≡ activate t actor selected (actor ∷ rest) w'
unfolding advance_to_next_actor
advance-run t w w' actor rest selected found idle sorted chosen reduced =
    rw (found, idle, sorted, chosen)
      (>>=-at (reduce_all selected (actor ∷ rest)) (λ _. activate t actor selected (actor ∷ rest)) w
        reduced)

advance-at :
    (delay_of : ℤ → ℤ) (t : TurnTimeline) (w : World) (actor : EntityRef) (rest : List EntityRef)
    → timeline w.state ≡ ok t
    → is_active t.phase ≡ false
    → Checked t
    → sort (comes_before w.state) (map entity_of t.action_entity_runtime_ids) ≡ ok (actor ∷ rest)
    → Perm (actor ∷ rest) (map entity_of t.action_entity_runtime_ids)
    → IsSorted (λ e. scaled (delay_of e.runtime_id)) (actor ∷ rest)
    → ((k : ℤ)
        → with_key (λ e. scaled (delay_of e.runtime_id)) k (actor ∷ rest)
          ≡ with_key
              (λ e. scaled (delay_of e.runtime_id))
              k
              (map entity_of t.action_entity_runtime_ids))
    → AllDelayed w.state delay_of (actor ∷ rest)
    → (r : TurnAdvanceResult) × (w' : World) × (advance_to_next_actor w ≡ (ok r, w'))
      × Advanced delay_of t w r w'
advance-at delay_of t w actor rest found idle checked sorted permuted order stable all =
    let selected = delay_of actor.runtime_id in
    let raw : is_raw selected ≡ true = rw (← all.0.value) all.0.valid.materialized_raw in
    let distinct =
      order-Distinct t.action_entity_runtime_ids (actor ∷ rest) checked.distinct permuted in
    let done = reduce_all-Reduced selected delay_of (actor ∷ rest) w raw distinct all in
    let (elapsed, added, added_raw) =
      fixedpoint_add-IsTotal t.elapsed_action_delay_raw selected checked.raw raw in
    let accepted =
      fixedpoint_add-NotNegative t.elapsed_action_delay_raw selected elapsed checked.raw
        checked.nonnegative raw all.0.nonnegative added in
    (
      _,
      _,
      advance-run t w done.world actor rest selected found idle sorted
            (remaining_action_delay-ok w.state actor.runtime_id selected all.0) done.result
          ∙ activate-done t actor selected elapsed (actor ∷ rest) done.world added,
      record {
        others = rest;
        actor_first = refl;
        permuted = permuted;
        sorted = order;
        stable = stable;
        selected = refl;
        reduced =
            AllDelayed-timeline done.world _ (λ id. remaining selected (delay_of id)) (actor ∷ rest)
              done.reduced;
        elapsed = added;
        next_index = refl;
        stored = refl;
        read =
            timeline-of_entities _ _ (actor ∷ rest) refl refl refl distinct accepted.0 accepted.1;
      },
    )

-- From a timeline that is not active and whose participants have acceptable delays, the advance
-- succeeds. The actor heads an order of the participants by their delays that is a permutation and
-- stable; every participant is left with its delay less the actor's, not below 0; the elapsed delay
-- grows by the actor's, the index by one, and the timeline is active for the actor and passes every
-- check of the later operations.
pub advance-Advanced :
    (delay_of : ℤ → ℤ) (t : TurnTimeline) (w : World)
    → timeline w.state ≡ ok t
    → is_active t.phase ≡ false
    → All (λ id. Participant w.state id (delay_of id)) t.action_entity_runtime_ids
    → (r : TurnAdvanceResult) × (w' : World) × (advance_to_next_actor w ≡ (ok r, w'))
      × Advanced delay_of t w r w'
advance-Advanced delay_of t w found idle all =
    let checked = timeline-Checked w.state t found in
    let key = λ (e : EntityRef). scaled (delay_of e.runtime_id) in
    let s =
      sort-Sorted key (comes_before w.state)
        (λ e. Participant w.state e.runtime_id (delay_of e.runtime_id))
        (comes_before-key w.state delay_of) (map entity_of t.action_entity_runtime_ids)
        (AllDelayed-of w.state delay_of t.action_entity_runtime_ids all) in
    elim (List-cases s.list) [
      | inl none_left ↦ absurd (
          filled-map t.action_entity_runtime_ids checked.filled (
            Perm.nil-eq (
              subst (λ l. Perm l (map entity_of t.action_entity_runtime_ids)) none_left
                s.permuted)))
      | inr (actor, rest, e) ↦
          advance-at delay_of t w actor rest found idle checked (s.result ∙ ap ok e)
            (subst (λ l. Perm l (map entity_of t.action_entity_runtime_ids)) e s.permuted)
            (subst (IsSorted key) e s.sorted) (λ k. ap (with_key key k) (sym e) ∙ s.stable k)
            (subst (AllDelayed w.state delay_of) e s.all_known)
    ]
