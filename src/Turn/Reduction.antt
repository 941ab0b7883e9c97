-- ===== src/Turn/Reduction.antt =====
-- The loop of advance_to_next_actor in src/hsr_battle_agent/battle_runtime/turns.py over the
-- ordered participants.
use hsr_battle_agent.Base.{
  All, List, [], not, ok, refl, set, sym, true, turn_semantic, ◌∙◌, ◌∷◌, ◌≡◌, ◌≢◌,
}
use hsr_battle_agent.Base.Action.{>>=-at, raise_if}
use hsr_battle_agent.Base.Int.{ℤ}
use hsr_battle_agent.Component.{modify_source_zero_untransformed}
use hsr_battle_agent.FixPoint.{is_raw}
use hsr_battle_agent.State.{BattleState, World}
use hsr_battle_agent.Targets.{EntityRef}
use hsr_battle_agent.Turn.{delay_id}
use hsr_battle_agent.Turn.DelayWrite.{DelaySet, modify_delay-DelaySet}
use hsr_battle_agent.Turn.Participants.{
  Participant, delay_entry-ok, reduced_delay-remaining, remaining,
}
use hsr_battle_agent.Turn.Steps.{entity_of, reduce_all, reduce_entity, reduced_delay, set_function}

-- Every id has the delay that the function names.
abbrev pub AllDelayed : BattleState → (ℤ → ℤ) → List EntityRef → Type 0
AllDelayed state delay_of =
    All (λ entity. Participant state entity.runtime_id (delay_of entity.runtime_id))

abbrev pub NotAmong : ℤ → List EntityRef → Type 0
NotAmong id = All (λ entity. id ≢ entity.runtime_id)

abbrev pub Distinct : List EntityRef → Type 0
Distinct [] = Unit
Distinct (entity ∷ entities) = NotAmong entity.runtime_id entities × Distinct entities

reduce_entity-step :
    (selected id old : ℤ) (w w' : World)
    → Participant w.state id old
    → reduced_delay old selected ≡ ok (remaining selected old)
    → modify_source_zero_untransformed
        (entity_of id)
        delay_id
        set_function
        (remaining selected old)
        w
      ≡ (ok true, w')
    → reduce_entity selected (entity_of id) w ≡ (ok tt, w')
unfolding reduce_entity
reduce_entity-step selected id old w w' p reduced modified =
    rw (delay_entry-ok w.state id old p, p.value, reduced)
      (>>=-at
        (modify_source_zero_untransformed (entity_of id) delay_id set_function
          (remaining selected old))
        (λ changed. raise_if (not changed) turn_semantic) w modified)

reduce_entity-DelaySet :
    (selected id old : ℤ) (w : World)
    → Participant w.state id old
    → is_raw old ≡ true
    → is_raw selected ≡ true
    → (w' : World) × (reduce_entity selected (entity_of id) w ≡ (ok tt, w'))
      × DelaySet id (remaining selected old) w w'
reduce_entity-DelaySet selected id old w p ho hs =
    let (reduced, raw, nonneg) = reduced_delay-remaining selected old hs ho in
    let (w', modified, set) =
      modify_delay-DelaySet id old (remaining selected old) w p raw nonneg in
    (w', reduce_entity-step selected id old w w' p reduced modified, set)

AllDelayed-kept :
    (id new : ℤ) (w w' : World) (delay_of : ℤ → ℤ) (entities : List EntityRef)
    → DelaySet id new w w'
    → NotAmong id entities
    → AllDelayed w.state delay_of entities
    → AllDelayed w'.state delay_of entities
AllDelayed-kept id new w w' delay_of [] set free all = tt
AllDelayed-kept id new w w' delay_of (entity ∷ entities) set free all = (
  set.others entity.runtime_id (delay_of entity.runtime_id) (λ e. free.0 (sym e)) all.0,
  AllDelayed-kept id new w w' delay_of entities set free.1 all.1,
)

-- What the loop does.
pub record Reduced (selected : ℤ) (delay_of : ℤ → ℤ) (entities : List EntityRef) (w : World)
    : Type 0 where
  pub world : World
  pub result : reduce_all selected entities w ≡ (ok tt, world)
  pub reduced : AllDelayed world.state (λ id. remaining selected (delay_of id)) entities
  pub others :
      (id d : ℤ) → NotAmong id entities → Participant w.state id d → Participant world.state id d
  pub same_timeline : world.state.turn_timeline ≡ w.state.turn_timeline

pub reduce_all-Reduced :
    (selected : ℤ) (delay_of : ℤ → ℤ) (entities : List EntityRef) (w : World)
    → is_raw selected ≡ true
    → Distinct entities
    → AllDelayed w.state delay_of entities
    → Reduced selected delay_of entities w
unfolding reduce_all
reduce_all-Reduced selected delay_of [] w hs distinct all = record {
  world = w;
  result = refl;
  reduced = tt;
  others = λ id d free p. p;
  same_timeline = refl;
}
reduce_all-Reduced selected delay_of (entity ∷ entities) w hs distinct all =
    let id = entity.runtime_id in
    let (w1, reduced, set) =
      reduce_entity-DelaySet selected id (delay_of id) w all.0
        (rw (← all.0.value) all.0.valid.materialized_raw) hs in
    let rest = reduce_all-Reduced selected delay_of entities w1 hs distinct.1 (
      AllDelayed-kept id (remaining selected (delay_of id)) w w1 delay_of entities set distinct.0
        all.1) in
    record {
      world = rest.world;
      result =
          >>=-at (reduce_entity selected entity) (λ _. reduce_all selected entities) w reduced
          ∙ rest.result;
      reduced = (
        rest.others id (remaining selected (delay_of id)) distinct.0 set.participant,
        rest.reduced,
      );
      others = λ other d free p. rest.others other d free.1 (set.others other d free.0 p);
      same_timeline = rest.same_timeline ∙ set.same_timeline;
    }
