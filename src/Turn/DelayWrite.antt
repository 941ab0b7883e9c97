-- ===== src/Turn/DelayWrite.antt =====
-- The write of a participant's delay in src/hsr_battle_agent/battle_runtime/turns.py.
use hsr_battle_agent.Base.{ap, false, length, length-set, ok, refl, true, ℕ, ◌∙◌, ◌≡◌, ◌≢◌, ◌≤◌}
use hsr_battle_agent.Base.Action.{>>-pure-ok}
use hsr_battle_agent.Base.Dict.{int_eq, lookup-insert_ne, lookup-insert_self}
use hsr_battle_agent.Base.Int.{pos, ℤ}
use hsr_battle_agent.Component.{
  modify_source_zero_untransformed, rewrite_entry, set_source_zero,
  modify_source_zero_untransformed_to,
}
use hsr_battle_agent.Component.Laws.{entry_from_state-ok, rewrite_entry-ok, written}
use hsr_battle_agent.FixPoint.{fixpoint_is_negative, is_raw, validate_raw}
use hsr_battle_agent.FixPoint.Arith.{apply_modify_function}
use hsr_battle_agent.Modifier.{ref_eq}
use hsr_battle_agent.Property.{PropertyEntry, is_some}
use hsr_battle_agent.Property.FirstSlot.{rewritten, update-first}
use hsr_battle_agent.Property.Lifecycle.{IsValid-materialized}
use hsr_battle_agent.Property.SlotLaws.{write_slot-IsValid}
use hsr_battle_agent.Property.Slots.{update_source_slot, write_slot}
use hsr_battle_agent.Property.Valid.{IsSupported, IsValid}
use hsr_battle_agent.State.{BoundaryOperation, World, key_eq, property_entry_key}
use hsr_battle_agent.Turn.{delay_id}
use hsr_battle_agent.Turn.Participants.{Participant}
use hsr_battle_agent.Turn.Steps.{entity_of, set_function}

apply-set :
    (old value : ℤ)
    → is_raw old ≡ true
    → is_raw value ≡ true
    → apply_modify_function set_function old value ≡ ok value
unfolding apply_modify_function validate_raw
apply-set old value ho hv = rw (ho, hv)

-- The write of a delay at kind 1, whose materialized value is that of slot 0.
pub set_source_zero-rewritten :
    (entry : PropertyEntry) (value : ℤ)
    → IsValid entry
    → IsSupported entry
    → entry.materialization_kind ≡ 1
    → 1 ≤ length entry.source_value
    → is_raw value ≡ true
    → set_source_zero set_function value entry ≡ (ok 0, rewritten entry value)
unfolding set_source_zero
set_source_zero-rewritten entry value valid s kind room raw =
    let free : is_some entry.post_hook_context ≡ false = ap is_some s.hook in
    rw (free, apply-set entry.materialized value valid.materialized_raw raw)
      (>>-pure-ok {B = ℕ} (update_source_slot (pos 0) value) 0 entry
        (update-first entry value s kind room raw))

-- What stands in the world after the write of a participant's delay.
pub record DelaySet (id new : ℤ) (w w' : World) : Type 0 where
  pub participant : Participant w'.state id new
  pub others :
      (other : ℤ) (d : ℤ) → other ≢ id → Participant w.state other d → Participant w'.state other d
  pub same_timeline : w'.state.turn_timeline ≡ w.state.turn_timeline

pub modify_delay-DelaySet :
    (id old new : ℤ) (w : World)
    → Participant w.state id old
    → is_raw new ≡ true
    → fixpoint_is_negative new ≡ ok false
    → (w' : World) × (modify_source_zero_untransformed (entity_of id) delay_id set_function new w
        ≡ (ok true, w'))
      × DelaySet id new w w'
unfolding modify_source_zero_untransformed_to validate_raw
modify_delay-DelaySet id old new w p raw nonneg =
    let entry = rewritten p.entry new in
    let w' =
      written w (entity_of id) delay_id BoundaryOperation.after_property_changed 0 p.entry entry in
    (
      w',
      rw raw (
          >>-pure-ok
            (rewrite_entry (entity_of id) delay_id BoundaryOperation.after_property_changed
              (set_source_zero set_function new))
            true w
            (rewrite_entry-ok (entity_of id) delay_id BoundaryOperation.after_property_changed
              (set_source_zero set_function new) w p.entry entry 0
              (entry_from_state-ok w.state (entity_of id) delay_id p.entry p.stored p.valid)
              (set_source_zero-rewritten p.entry new p.valid p.supported p.kind p.room raw))),
      record {
        participant = record {
          entry = entry;
          stored =
              lookup-insert_self (property_entry_key (entity_of id) delay_id) entry
                w.state.entity_property_entries;
          valid =
              IsValid-materialized (write_slot p.entry 0 new) new
                (write_slot-IsValid p.entry 0 new p.valid raw) raw;
          supported = record {
            hook = p.supported.hook;
            transform_a = p.supported.transform_a;
            transform_b = p.supported.transform_b;
            kind = p.supported.kind;
          };
          kind = p.kind;
          room = rw (length-set p.entry.source_value 0 new) p.room;
          value = refl;
          nonnegative = nonneg;
        };
        others = λ other d ne q. record {
          entry = q.entry;
          stored =
              lookup-insert_ne (property_entry_key (entity_of other) delay_id)
                (property_entry_key (entity_of id) delay_id) entry w.state.entity_property_entries
                (λ e. ne (ap (λ k. k.entity_runtime_id) e))
              ∙ q.stored;
          valid = q.valid;
          supported = q.supported;
          kind = q.kind;
          room = q.room;
          value = q.value;
          nonnegative = q.nonnegative;
        };
        same_timeline = refl;
      },
    )
