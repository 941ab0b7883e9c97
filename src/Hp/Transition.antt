-- ===== src/Hp/Transition.antt =====
-- src/hsr_battle_agent/battle_runtime/hp.py, the operations that change the state.
use hsr_battle_agent.Base.{
  Bool, List, Option, false, if◌then◌else◌, none, not, ok, some, true, unsupported_damage_mode,
  unsupported_positive_change, ◌&&◌,
}
use hsr_battle_agent.Base.Action.{Action, gets, lift, modify, pure, raise_if, ◌>>=◌, ◌>>◌}
use hsr_battle_agent.Base.Dict.{insert, int_eq}
use hsr_battle_agent.Base.Int.{eqb_ℤ, pos, ℤ}
use hsr_battle_agent.FixPoint.{fixpoint_is_positive, fixpoint_less, validate_raw}
use hsr_battle_agent.FixPoint.Arith.{fixedpoint_add, fixedpoint_subtract}
use hsr_battle_agent.Hp.{
  HpDamage, HpPlan, LockHpResult, current_hp_id, entry_materialized, hp_damage, max_hp_id,
  negative_hp_id, set_hp_delta, set_hp_target, zero_raw,
}
use hsr_battle_agent.Modifier.{ref_eq}
use hsr_battle_agent.Property.{PropertyEntry}
use hsr_battle_agent.Property.Slots.{update_source_slot}
use hsr_battle_agent.State.{
  BoundaryOperation, BoundarySink, HpBoundary, HpSink, LockHpRecord, World, emit_boundary_to,
  emit_hp_boundary_to, key_eq, recording, recording_hp, set_property_entry,
}
use hsr_battle_agent.Targets.{EntityRef}

pub record HpTransitionResult : Type 0 where
  pub component : EntityRef
  pub old_current : ℤ
  pub new_current : ℤ
  pub applied_delta : ℤ
  pub lock : LockHpResult
  pub flag : Bool
  pub p : ℤ
  pub y : ℤ
  pub negative_hp : Option (ℤ × ℤ)
  pub negative_record_boundary : Bool

unfoldable pub set_lock_hp_records : EntityRef → List LockHpRecord → Action World (Unit {0})
set_lock_hp_records component records = modify (λ w. record w {
  state = record w.state {
    component_lock_hp_records =
        insert component.runtime_id records w.state.component_lock_hp_records;
  };
})

-- `update_source_slot(entry, 0, value)` on the copy, its store, and its boundary, which tells `told` of the new
-- entry.
unfoldable pub write_source_zero_to :
    BoundarySink
    → (PropertyEntry → ℤ)
    → EntityRef
    → ℤ
    → PropertyEntry
    → ℤ
    → Action World PropertyEntry
unfolding emit_boundary_to
write_source_zero_to sink told component property_id entry value = do
  lift (update_source_slot (pos 0) value entry).0
  let new = (update_source_slot (pos 0) value entry).1
  set_property_entry component property_id new
  emit_boundary_to sink (record {
    operation = BoundaryOperation.after_property_changed;
    entity = component;
    property_id = property_id;
    source_index = 0;
    old_materialized = entry.materialized;
    new_materialized = told new;
  })
  pure new

abbrev pub own_value : PropertyEntry → ℤ
own_value new = new.materialized

abbrev pub is_written : Option (ℤ × ℤ) → Bool
is_written none = false
is_written (some _) = true

abbrev pub emit_if_to : HpSink → Bool → HpBoundary → Action World (Unit {0})
emit_if_to hp_sink test boundary = if test then emit_hp_boundary_to hp_sink boundary else pure tt

-- The operations that take the two sinks.
module _ (sink : BoundarySink) (hp_sink : HpSink) where
  -- The write of the negative HP, where the gate is open and a lock has cut a positive rest `p` off.
  unfoldable pub write_negative_hp_to : EntityRef → Bool → HpPlan → Action World (Option (ℤ × ℤ))
  write_negative_hp_to component negative_hp_gate plan = do
    positive ←
        lift (if negative_hp_gate && plan.flag then fixpoint_is_positive plan.p else ok false)
    if not positive then pure none else (do
      w ← gets (λ w. w)
      entry ← lift (entry_materialized w.state component negative_hp_id)
      sum ← lift (fixedpoint_add entry.materialized plan.p)
      write_source_zero_to sink (λ _. sum) component negative_hp_id entry sum
      pure (some (entry.materialized, sum)))

  -- The end of `direct_damage_hp_transition`, which writes no entry.
  unfoldable pub settle_damage_to :
      EntityRef
      → ℤ
      → HpDamage
      → PropertyEntry
      → ℤ
      → Option (ℤ × ℤ)
      → Action World HpTransitionResult
  settle_damage_to component delta damage new applied negative_hp = do
    applied_delta ←
        lift (if is_written negative_hp then fixedpoint_subtract zero_raw delta else ok applied)
    emit_if_to hp_sink damage.plan.flag (HpBoundary.lock_action damage.lock.actions)
    pure (record {
      component = component;
      old_current = damage.current.materialized;
      new_current = new.materialized;
      applied_delta = applied_delta;
      lock = damage.lock;
      flag = damage.plan.flag;
      p = damage.plan.p;
      y = damage.y;
      negative_hp = negative_hp;
      negative_record_boundary = damage.negative_record;
    })

  -- What follows the write of the current HP.
  unfoldable pub after_current_to :
      EntityRef → ℤ → Bool → HpDamage → PropertyEntry → Action World HpTransitionResult
  after_current_to component delta negative_hp_gate damage new = do
    applied ← lift (fixedpoint_subtract new.materialized damage.current.materialized)
    negative_hp ← write_negative_hp_to component negative_hp_gate damage.plan
    settle_damage_to component delta damage new applied negative_hp

  unfoldable pub commit_damage_to :
      EntityRef → ℤ → Bool → HpDamage → Action World HpTransitionResult
  commit_damage_to component delta negative_hp_gate damage = do
    emit_if_to hp_sink damage.negative_record (HpBoundary.negative_hp_record damage.y)
    new ← write_source_zero_to sink own_value component current_hp_id damage.current damage.y
    after_current_to component delta negative_hp_gate damage new

  -- Modes other than 0 are refused. The opaque context and record are read by nothing and are no
  -- arguments here.
  unfoldable pub direct_damage_hp_transition_to :
      EntityRef → ℤ → ℤ → ℤ → Bool → Action World HpTransitionResult
  direct_damage_hp_transition_to component delta damage_kind mode negative_hp_gate = do
    lift (validate_raw delta)
    raise_if (not (eqb_ℤ mode (pos 0))) unsupported_damage_mode
    w ← gets (λ w. w)
    damage ← lift (hp_damage w.state component delta damage_kind)
    commit_damage_to component delta negative_hp_gate damage

  -- The damage kind is `damage_kind`, which the code defaults to 100.
  unfoldable pub direct_change_hp_mode1_negative_to :
      EntityRef → ℤ → ℤ → ℤ → Bool → Action World HpTransitionResult
  direct_change_hp_mode1_negative_to component modify_value modify_ratio damage_kind
        negative_hp_gate =
      do
        lift (validate_raw modify_value)
        lift (validate_raw modify_ratio)
        w ← gets (λ w. w)
        current ← lift (entry_materialized w.state component current_hp_id)
        maximum ← lift (entry_materialized w.state component max_hp_id)
        target ← lift (set_hp_target modify_value maximum.materialized modify_ratio)
        delta ← lift (set_hp_delta target current.materialized)
        negative ← lift (fixpoint_less delta zero_raw)
        raise_if (not negative) unsupported_positive_change
        direct_damage_hp_transition_to component delta damage_kind (pos 0) negative_hp_gate

-- The operations with sinks that keep what they receive and return.
abbrev pub write_source_zero : EntityRef → ℤ → PropertyEntry → ℤ → Action World PropertyEntry
write_source_zero = write_source_zero_to recording own_value

abbrev pub emit_if : Bool → HpBoundary → Action World (Unit {0})
emit_if = emit_if_to recording_hp

abbrev pub write_negative_hp : EntityRef → Bool → HpPlan → Action World (Option (ℤ × ℤ))
write_negative_hp = write_negative_hp_to recording recording_hp

abbrev pub settle_damage :
    EntityRef → ℤ → HpDamage → PropertyEntry → ℤ → Option (ℤ × ℤ) → Action World HpTransitionResult
settle_damage = settle_damage_to recording recording_hp

abbrev pub after_current :
    EntityRef → ℤ → Bool → HpDamage → PropertyEntry → Action World HpTransitionResult
after_current = after_current_to recording recording_hp

abbrev pub commit_damage : EntityRef → ℤ → Bool → HpDamage → Action World HpTransitionResult
commit_damage = commit_damage_to recording recording_hp

abbrev pub direct_damage_hp_transition :
    EntityRef → ℤ → ℤ → ℤ → Bool → Action World HpTransitionResult
direct_damage_hp_transition = direct_damage_hp_transition_to recording recording_hp

abbrev pub direct_change_hp_mode1_negative :
    EntityRef → ℤ → ℤ → ℤ → Bool → Action World HpTransitionResult
direct_change_hp_mode1_negative = direct_change_hp_mode1_negative_to recording recording_hp
