-- ===== src/Turn/Keys.antt =====
-- _compare_entities of src/hsr_battle_agent/battle_runtime/turns.py on participants.
use hsr_battle_agent.Base.{All, List, [], arith, map, ok, true, ◌∷◌, ◌≡◌}
use hsr_battle_agent.Base.Int.{ltb_ℤ, ℤ}
use hsr_battle_agent.FixPoint.{fixpoint_less, is_raw, validate_raw}
use hsr_battle_agent.FixPoint.Order.{fixpoint_compare-scaled, scaled}
use hsr_battle_agent.State.{BattleState}
use hsr_battle_agent.Targets.{EntityRef}
use hsr_battle_agent.Turn.{comes_before, compare_entities, remaining_action_delay}
use hsr_battle_agent.Turn.Participants.{Participant, delay_entry-ok}
use hsr_battle_agent.Turn.Reduction.{AllDelayed}
use hsr_battle_agent.Turn.Steps.{entity_of}

abbrev pub key_of : (ℤ → ℤ) → EntityRef → ℤ
key_of delay_of entity = scaled (delay_of entity.runtime_id)

pub remaining_action_delay-ok :
    (state : BattleState) (id d : ℤ)
    → Participant state id d
    → remaining_action_delay state (entity_of id) ≡ ok d
unfolding remaining_action_delay
remaining_action_delay-ok state id d p = rw (delay_entry-ok state id d p, p.value)

pub comes_before-key :
    (state : BattleState) (delay_of : ℤ → ℤ) (x y : EntityRef)
    → Participant state x.runtime_id (delay_of x.runtime_id)
    → Participant state y.runtime_id (delay_of y.runtime_id)
    → comes_before state x y ≡ ok (ltb_ℤ (key_of delay_of x) (key_of delay_of y))
unfolding comes_before compare_entities fixpoint_less validate_raw
comes_before-key state delay_of x y p q =
    let raw_x : is_raw (delay_of x.runtime_id) ≡ true = rw (← p.value) p.valid.materialized_raw in
    let raw_y : is_raw (delay_of y.runtime_id) ≡ true = rw (← q.value) q.valid.materialized_raw in
    rw
      (
        delay_entry-ok state x.runtime_id (delay_of x.runtime_id) p,
        delay_entry-ok state y.runtime_id (delay_of y.runtime_id) q,
        p.value,
        q.value,
        raw_x,
        raw_y,
      )
      (ground (
        arith,
        fixpoint_compare-scaled (delay_of x.runtime_id) (delay_of y.runtime_id),
        fixpoint_compare-scaled (delay_of y.runtime_id) (delay_of x.runtime_id),
      ))

pub AllDelayed-of :
    (state : BattleState) (delay_of : ℤ → ℤ) (ids : List ℤ)
    → All (λ id. Participant state id (delay_of id)) ids
    → AllDelayed state delay_of (map entity_of ids)
AllDelayed-of state delay_of [] all = tt
AllDelayed-of state delay_of (id ∷ ids) all = (all.0, AllDelayed-of state delay_of ids all.1)
