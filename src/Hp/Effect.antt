-- ===== src/Hp/Effect.antt =====
-- The effect of direct_damage_hp_transition in src/hsr_battle_agent/battle_runtime/hp.py on the current
-- HP, where the gate of the negative HP is shut.
use hsr_battle_agent.Base.{Bool, Result, ap, false, length, none, ok, refl, true, ◌∙◌, ◌≡◌, ◌≤◌}
use hsr_battle_agent.Base.Action.{>>=-at, Action, pure, ◌>>=◌, ◌>>◌}
use hsr_battle_agent.Base.Dict.{insert, int_eq}
use hsr_battle_agent.Base.Int.{pos, ℤ}
use hsr_battle_agent.Component.Laws.{AllValid, post_init-ok}
use hsr_battle_agent.FixPoint.{is_raw, validate_raw}
use hsr_battle_agent.FixPoint.Arith.{fixedpoint_subtract}
use hsr_battle_agent.FixPoint.ArithLaws.{fixedpoint_subtract-decode}
use hsr_battle_agent.Hp.{HpDamage, current_hp_id, hp_damage}
use hsr_battle_agent.Hp.Damage.{emit_if-state, hp_damage-current}
use hsr_battle_agent.Hp.Frame.{entry_materialized-stored}
use hsr_battle_agent.Hp.Reading.{hp_damage-y}
use hsr_battle_agent.Hp.Transition.{
  write_source_zero_to, write_negative_hp_to, settle_damage_to, after_current_to, commit_damage_to,
  direct_damage_hp_transition_to, HpTransitionResult, after_current, commit_damage,
  direct_damage_hp_transition, emit_if, write_source_zero,
}
use hsr_battle_agent.Modifier.{ref_eq}
use hsr_battle_agent.Property.{PropertyEntry}
use hsr_battle_agent.Property.FirstSlot.{rewritten, update-first}
use hsr_battle_agent.Property.Lifecycle.{IsValid-materialized}
use hsr_battle_agent.Property.SlotLaws.{write_slot-IsValid}
use hsr_battle_agent.Property.Slots.{write_slot}
use hsr_battle_agent.Property.Valid.{IsSupported, IsValid}
use hsr_battle_agent.State.{
  emit_hp_boundary_to, emit_boundary_to, HpBoundary, World, emit_boundary, emit_hp_boundary, key_eq,
  property_entry_key, set_property_entry, store_entry,
}
use hsr_battle_agent.Targets.{EntityRef}

rewritten-IsValid :
    (entry : PropertyEntry) (value : ℤ)
    → IsValid entry
    → is_raw value ≡ true
    → IsValid (rewritten entry value)
rewritten-IsValid entry value h raw =
    IsValid-materialized (write_slot entry 0 value) value (write_slot-IsValid entry 0 value h raw)
      raw

-- The write of an entry whose kind is 1.
record Written (component : EntityRef) (property_id : ℤ) (new : PropertyEntry) (w : World)
    (r : Result PropertyEntry × World) : Type 0 where
  done : r.0 ≡ ok new
  entries :
      r.1.state.entity_property_entries
      ≡ insert (property_entry_key component property_id) new w.state.entity_property_entries

write_source_zero-Written :
    (component : EntityRef) (property_id : ℤ) (entry : PropertyEntry) (value : ℤ) (w : World)
    → IsValid entry
    → IsSupported entry
    → entry.materialization_kind ≡ 1
    → 1 ≤ length entry.source_value
    → is_raw value ≡ true
    → Written component property_id
        (rewritten entry value)
        w
        (write_source_zero component property_id entry value w)
unfolding write_source_zero_to set_property_entry store_entry emit_boundary_to emit_boundary
write_source_zero-Written component property_id entry value w h s kind room raw =
    rw
      (
        update-first entry value s kind room raw,
        post_init-ok (rewritten entry value) (rewritten-IsValid entry value h raw),
      )
      (record { done = refl; entries = refl })

emit_if-then :
    {A : Type 0} (test : Bool) (boundary : HpBoundary) (next : Action World A) (w : World)
    → (emit_if test boundary >> next) w ≡ next (emit_if test boundary w).1
unfolding emit_hp_boundary_to emit_hp_boundary
emit_if-then true boundary next w = refl
emit_if-then false boundary next w = refl

abbrev shut_result : EntityRef → HpDamage → PropertyEntry → ℤ → HpTransitionResult
shut_result component damage new applied = record {
  component = component;
  old_current = damage.current.materialized;
  new_current = new.materialized;
  applied_delta = applied;
  lock = damage.lock;
  flag = damage.plan.flag;
  p = damage.plan.p;
  y = damage.y;
  negative_hp = none;
  negative_record_boundary = damage.negative_record;
}

after_current-shut :
    (component : EntityRef) (delta applied : ℤ) (damage : HpDamage) (new : PropertyEntry)
    (w : World)
    → fixedpoint_subtract new.materialized damage.current.materialized ≡ ok applied
    → after_current component delta false damage new w ≡ (
      ok (shut_result component damage new applied),
      (emit_if damage.plan.flag (HpBoundary.lock_action damage.lock.actions) w).1,
    )
unfolding after_current_to write_negative_hp_to settle_damage_to
after_current-shut component delta applied damage new w subtracted = rw subtracted (
    emit_if-then damage.plan.flag (HpBoundary.lock_action damage.lock.actions)
      (pure (shut_result component damage new applied)) w)

-- What a transition with the gate shut has done.
pub record Damaged (component : EntityRef) (damage : HpDamage) (w : World) (r : HpTransitionResult)
    (w' : World) : Type 0 where
  pub old : r.old_current ≡ damage.current.materialized
  pub new : r.new_current ≡ damage.y
  pub applied : fixedpoint_subtract damage.y damage.current.materialized ≡ ok r.applied_delta
  pub no_negative : r.negative_hp ≡ none
  pub entries :
      w'.state.entity_property_entries
      ≡ insert
          (property_entry_key component current_hp_id)
          (rewritten damage.current damage.y)
          w.state.entity_property_entries

pair-eq :
    {r : Result PropertyEntry × World} {new : PropertyEntry} → r.0 ≡ ok new → r ≡ (ok new, r.1)
pair-eq {r} e = ap (λ first. (first, r.1)) e

commit_damage-Damaged :
    (component : EntityRef) (delta : ℤ) (damage : HpDamage) (w : World)
    → IsValid damage.current
    → IsSupported damage.current
    → damage.current.materialization_kind ≡ 1
    → 1 ≤ length damage.current.source_value
    → is_raw damage.y ≡ true
    → (r : HpTransitionResult) × (w' : World) × (commit_damage component delta false damage w
        ≡ (ok r, w'))
      × Damaged component damage w r w'
unfolding commit_damage_to
commit_damage-Damaged component delta damage w h s kind room raw =
    let emit = HpBoundary.negative_hp_record damage.y in
    let w1 = (emit_if damage.negative_record emit w).1 in
    let step =
      write_source_zero-Written component current_hp_id damage.current damage.y w1 h s kind room
        raw in
    let (applied, subtracted, applied_raw, decoded) =
      fixedpoint_subtract-decode damage.y damage.current.materialized raw h.materialized_raw in
    let w2 = (write_source_zero component current_hp_id damage.current damage.y w1).1 in
    let lock = HpBoundary.lock_action damage.lock.actions in
    let new = rewritten damage.current damage.y in
    (
      shut_result component damage new applied,
      (emit_if damage.plan.flag lock w2).1,
      emit_if-then damage.negative_record emit
            (write_source_zero component current_hp_id damage.current damage.y
              >>= after_current component delta false damage)
            w
          ∙ >>=-at (write_source_zero component current_hp_id damage.current damage.y)
              (after_current component delta false damage) w1 (pair-eq step.done)
          ∙ after_current-shut component delta applied damage new w2 subtracted,
      record {
        old = refl;
        new = refl;
        applied = subtracted;
        no_negative = refl;
        entries =
            ap (λ st. st.entity_property_entries) (emit_if-state damage.plan.flag lock w2)
            ∙ step.entries
            ∙ ap
                (λ st.
                  insert (property_entry_key component current_hp_id) new
                    st.entity_property_entries)
                (emit_if-state damage.negative_record emit w);
      },
    )

-- With the gate of the negative HP shut, a transition of mode 0 whose reading succeeds on well-formed
-- entries, the current HP being of kind 1 with a slot 0 and no post stage, succeeds: it replaces the
-- current HP by the clamped value, applies the difference to the old one, writes no negative HP and no
-- other entry.
pub direct_damage-Damaged :
    (component : EntityRef) (delta damage_kind : ℤ) (damage : HpDamage) (w : World)
    → AllValid w.state
    → is_raw delta ≡ true
    → hp_damage w.state component delta damage_kind ≡ ok damage
    → IsSupported damage.current
    → damage.current.materialization_kind ≡ 1
    → 1 ≤ length damage.current.source_value
    → (r : HpTransitionResult) × (w' : World) × (direct_damage_hp_transition component delta
          damage_kind
          (pos 0)
          false
          w
        ≡ (ok r, w'))
      × Damaged component damage w r w'
unfolding direct_damage_hp_transition_to validate_raw
direct_damage-Damaged component delta damage_kind damage w valid fine read s kind room =
    let stored =
      entry_materialized-stored w.state component current_hp_id damage.current
        (hp_damage-current w.state component delta damage_kind damage read) in
    let (r, w', done, damaged) =
      commit_damage-Damaged component delta damage w (valid _ damage.current stored) s kind room
        (hp_damage-y w.state component delta damage_kind damage read) in
    (r, w', rw (fine, read) done, damaged)
