-- ===== src/Turn/Stored.antt =====
-- The timeline that advance_to_next_actor of src/hsr_battle_agent/battle_runtime/turns.py stores passes the checks
-- of _timeline.
use hsr_battle_agent.Base.{List, [], arith, false, ok, refl, some, true, ◌∷◌, ◌≡◌}
use hsr_battle_agent.Base.Dict.{int_eq}
use hsr_battle_agent.Base.Int.{int_laws, negsuc, pos, ℤ, ◌+ℤ◌, ◌≤ℤ◌}
use hsr_battle_agent.Component.{contains}
use hsr_battle_agent.FixPoint.{fixpoint_is_negative, is_raw, validate_raw}
use hsr_battle_agent.FixPoint.Arith.{
  decode_fixpoint_common, encode_fixpoint_common, encode_saturated, fixedpoint_add, saturate_common,
}
use hsr_battle_agent.FixPoint.ArithLaws.{IsInt64, encode-is_raw, saturate_common-IsInt64}
use hsr_battle_agent.Modifier.{ref_eq}
use hsr_battle_agent.State.{BattleState, TurnTimeline, key_eq}
use hsr_battle_agent.Targets.{EntityRef}
use hsr_battle_agent.Turn.{all_distinct, is_empty, require_nonnegative_raw, timeline}
use hsr_battle_agent.Turn.Participants.{require_nonnegative-ok}
use hsr_battle_agent.Turn.Reduction.{Distinct, NotAmong}
use hsr_battle_agent.Turn.Steps.{ids_of}

abbrev NotNegative : ℤ → Type 0
NotNegative raw = (is_raw raw ≡ true) × (fixpoint_is_negative raw ≡ ok false)

decode-NotNegative :
    (raw : ℤ) → fixpoint_is_negative raw ≡ ok false → pos 0 ≤ℤ decode_fixpoint_common raw
unfolding fixpoint_is_negative validate_raw decode_fixpoint_common
decode-NotNegative raw h = ground arith

encode_saturated-NotNegative :
    (c : ℤ) → IsInt64 c → pos 0 ≤ℤ c → fixpoint_is_negative (encode_saturated c) ≡ ok false
unfolding fixpoint_is_negative validate_raw encode_saturated
encode_saturated-NotNegative (pos n) h p = ground arith
encode_saturated-NotNegative (negsuc n) h p = absurd (omega arith)

saturate_common-NotNegative : (c : ℤ) → pos 0 ≤ℤ c → pos 0 ≤ℤ saturate_common c
unfolding saturate_common
saturate_common-NotNegative c h = ground arith

add-NotNegative : (a b : ℤ) → pos 0 ≤ℤ a → pos 0 ≤ℤ b → pos 0 ≤ℤ (a +ℤ b)
add-NotNegative a b h k = omega int_laws

encode-NotNegative :
    (c : ℤ) → pos 0 ≤ℤ c → fixpoint_is_negative (encode_fixpoint_common c) ≡ ok false
unfolding encode_fixpoint_common
encode-NotNegative c h =
    encode_saturated-NotNegative (saturate_common c) (saturate_common-IsInt64 c)
      (saturate_common-NotNegative c h)

-- The sum of two delays that are not negative is not negative.
pub fixedpoint_add-NotNegative :
    (a b sum : ℤ)
    → is_raw a ≡ true
    → fixpoint_is_negative a ≡ ok false
    → is_raw b ≡ true
    → fixpoint_is_negative b ≡ ok false
    → fixedpoint_add a b ≡ ok sum
    → (is_raw sum ≡ true) × (fixpoint_is_negative sum ≡ ok false)
unfolding fixedpoint_add validate_raw
fixedpoint_add-NotNegative a b sum ha na hb nb e =
    let common = decode_fixpoint_common a +ℤ decode_fixpoint_common b in
    let encoded : ok (encode_fixpoint_common common) ≡ ok sum =
      (rw (ha, hb, fixedpoint_add) at e) in
    let same : encode_fixpoint_common common ≡ sum = cc in
    (
      rw (← same) (encode-is_raw common),
      rw (← same) (
          encode-NotNegative common
            (add-NotNegative _ _ (decode-NotNegative a na) (decode-NotNegative b nb))),
    )

NotAmong-contains :
    (id : ℤ) (entities : List EntityRef)
    → NotAmong id entities
    → contains (ids_of entities) id ≡ false
NotAmong-contains id [] h = refl
NotAmong-contains id (e ∷ entities) h =
    ground (arith, int_eq.beq_iff e.runtime_id id, h.0, NotAmong-contains id entities h.1)

pub Distinct-all_distinct :
    (entities : List EntityRef) → Distinct entities → all_distinct (ids_of entities) ≡ true
Distinct-all_distinct [] h = refl
Distinct-all_distinct (e ∷ entities) h =
    rw (NotAmong-contains e.runtime_id entities h.0, Distinct-all_distinct entities h.1)

-- A stored timeline of distinct participants, whose elapsed delay is accepted, is read.
pub timeline-of_stored :
    (state : BattleState) (t : TurnTimeline)
    → state.turn_timeline ≡ some t
    → is_empty t.action_entity_runtime_ids ≡ false
    → all_distinct t.action_entity_runtime_ids ≡ true
    → require_nonnegative_raw t.elapsed_action_delay_raw ≡ ok tt
    → timeline state ≡ ok t
unfolding timeline
timeline-of_stored state t stored filled distinct elapsed = rw (stored, filled, distinct, elapsed)

pub timeline-of_entities :
    (state : BattleState) (t : TurnTimeline) (entities : List EntityRef)
    → state.turn_timeline ≡ some t
    → t.action_entity_runtime_ids ≡ ids_of entities
    → is_empty (ids_of entities) ≡ false
    → Distinct entities
    → is_raw t.elapsed_action_delay_raw ≡ true
    → fixpoint_is_negative t.elapsed_action_delay_raw ≡ ok false
    → timeline state ≡ ok t
timeline-of_entities state t entities stored ids filled distinct raw nonneg =
    timeline-of_stored state t stored (rw ids filled)
      (rw ids (Distinct-all_distinct entities distinct))
      (require_nonnegative-ok t.elapsed_action_delay_raw raw nonneg)
