-- ===== src/Component/Sinks.antt =====
-- The four source operations of src/hsr_battle_agent/battle_runtime/property.py under any boundary sink, also one
-- that raises or that is not callable.
use hsr_battle_agent.Base.{
  Bool, Bool-cases, Error, Result, Result-cases, arith, false, inl, inr, not, ok, raise, refl, sym,
  true, unsupported_special_property, value_error, ℕ, ◌&&◌, ◌≡◌, ◌⊎◌,
}
use hsr_battle_agent.Base.Action.{Action, pure, ◌>>=◌, ◌>>◌}
use hsr_battle_agent.Base.Int.{pos_part, ℤ}
use hsr_battle_agent.Component.{
  component_stack_source_to, contains, modify_source_zero_untransformed_to,
  remove_contribution_source_to, rewrite_entry_to, set_source_zero, special_property_ids,
  update_contribution_source_to,
}
use hsr_battle_agent.Component.Invariant.{SourceCall, finish, modify_zero, remove, stack, update}
use hsr_battle_agent.FixPoint.{is_raw, validate_raw}
use hsr_battle_agent.Property.{PropertyEntry}
use hsr_battle_agent.Property.Slots.{allocate_source_slot, remove_source_slot, update_source_slot}
use hsr_battle_agent.State.{
  BoundaryOperation, BoundarySink, World, emit_boundary_to, entry_from_state, store_entry,
  with_entry,
}
use hsr_battle_agent.Targets.{EntityRef}
use mathlib.Core.Path.{subst}

-- The operation with its sink, without its result.
unfoldable pub run_call_to : BoundarySink → SourceCall → Action World (Unit {0})
run_call_to sink (stack entity property_id value) w =
    finish (component_stack_source_to sink entity property_id value w)
run_call_to sink (update entity property_id source_index value) w =
    finish (update_contribution_source_to sink entity property_id source_index value w)
run_call_to sink (remove entity property_id source_index) w =
    finish (remove_contribution_source_to sink entity property_id source_index w)
run_call_to sink (modify_zero entity property_id function_id operand) w =
    finish (modify_source_zero_untransformed_to sink entity property_id function_id operand w)

-- What a call is about: its component, property and operation, the change of the entry, and whether its
-- operand and its property are accepted.
pub record CallSpec : Type 0 where
  pub entity : EntityRef
  pub property_id : ℤ
  pub operation : BoundaryOperation
  pub change : Action PropertyEntry ℕ
  pub accepted : Bool

abbrev pub spec_of : SourceCall → CallSpec
spec_of (stack entity property_id value) = record {
  entity = entity;
  property_id = property_id;
  operation = BoundaryOperation.source_allocated;
  change = allocate_source_slot value;
  accepted = is_raw value;
}
spec_of (update entity property_id source_index value) = record {
  entity = entity;
  property_id = property_id;
  operation = BoundaryOperation.source_updated;
  change = update_source_slot source_index value >> pure (pos_part source_index);
  accepted = is_raw value;
}
spec_of (remove entity property_id source_index) = record {
  entity = entity;
  property_id = property_id;
  operation = BoundaryOperation.source_removed;
  change = remove_source_slot source_index >> pure (pos_part source_index);
  accepted = true;
}
spec_of (modify_zero entity property_id function_id operand) = record {
  entity = entity;
  property_id = property_id;
  operation = BoundaryOperation.after_property_changed;
  change = set_source_zero function_id operand;
  accepted = is_raw operand && not (contains special_property_ids property_id);
}

-- The check of a call that stops it, before anything is written.
abbrev pub Stopped : CallSpec → World → Type 0
Stopped spec w =
    (spec.accepted ≡ false)
    ⊎ (((e : Error) × (entry_from_state w.state spec.entity spec.property_id ≡ raise e))
        ⊎ ((entry : PropertyEntry) × (e : Error) × (entry_from_state w.state spec.entity
                spec.property_id
              ≡ ok entry)
            × ((spec.change entry).0 ≡ raise e)))

-- The call has stored the changed entry, and ends as its sink does on the boundary of that change.
pub record Told (sink : BoundarySink) (spec : CallSpec) (w : World) (r : Result (Unit {0}) × World)
    : Type 0 where
  pub old : PropertyEntry
  pub index : ℕ
  pub accepted : spec.accepted ≡ true
  pub read : entry_from_state w.state spec.entity spec.property_id ≡ ok old
  pub changed : (spec.change old).0 ≡ ok index
  pub end_of_sink :
      r
      ≡ emit_boundary_to sink
          (record {
            operation = spec.operation;
            entity = spec.entity;
            property_id = spec.property_id;
            source_index = index;
            old_materialized = old.materialized;
            new_materialized = (spec.change old).1.materialized;
          })
          (with_entry w spec.entity spec.property_id (spec.change old).1)

abbrev SinkOutcome : BoundarySink → CallSpec → World → Result (Unit {0}) × World → Type 0
SinkOutcome sink spec w r =
    (Stopped spec w × ((e : Error) × (r ≡ (raise e, w)))) ⊎ Told sink spec w r

finish-then :
    {A : Type 0} (m : Action World (Unit {0})) (a : A) (w : World) → finish ((m >> pure a) w) ≡ m w
finish-then m a w = elim (Result-cases (m w).0) [
  | inl (u, e) ↦ rw (e, ◌>>◌, ◌>>=◌) refl
  | inr (error, e) ↦ rw (e, ◌>>◌, ◌>>=◌) refl
]

finish-pure :
    {A B : Type 0} (m : Action World A) (b : B) (w : World)
    → finish ((m >> pure b) w) ≡ finish (m w)
finish-pure m b w = elim (Result-cases (m w).0) [
  | inl (u, e) ↦ rw (e, ◌>>◌, ◌>>=◌) refl
  | inr (error, e) ↦ rw (e, ◌>>◌, ◌>>=◌) refl
]

module _ (sink : BoundarySink) (spec : CallSpec) (w : World) (accepted : spec.accepted ≡ true) where
  abbrev rewritten_to : Result ℕ × World
  rewritten_to = rewrite_entry_to sink spec.entity spec.property_id spec.operation spec.change w

  stored-Told :
      (entry : PropertyEntry) (i : ℕ)
      → entry_from_state w.state spec.entity spec.property_id ≡ ok entry
      → (spec.change entry).0 ≡ ok i
      → Told sink spec w (finish rewritten_to)
  unfolding rewrite_entry_to store_entry
  stored-Told entry i found done = record {
    old = entry;
    index = i;
    accepted = accepted;
    read = found;
    changed = done;
    end_of_sink = rw (found, done) (finish-then (emit_boundary_to sink _) i _);
  }

  rewrite_entry_to-Told : SinkOutcome sink spec w (finish rewritten_to)
  unfolding rewrite_entry_to
  rewrite_entry_to-Told =
      elim (Result-cases (entry_from_state w.state spec.entity spec.property_id)) [
        | inr (e, missing) ↦ inl (inr (inl (e, missing)), (e, rw missing))
        | inl (entry, found) ↦ elim (Result-cases (spec.change entry).0) [
          | inr (e, failed) ↦ inl (inr (inr (entry, e, found, failed)), (e, rw (found, failed)))
          | inl (i, done) ↦ inr (stored-Told entry i found done)
        ]
      ]

-- An accepted call is its change of the stored entry.
run_call_to-rewritten :
    (sink : BoundarySink) (call : SourceCall) (w : World)
    (accepted : (spec_of call).accepted ≡ true)
    → run_call_to sink call w ≡ finish (rewritten_to sink (spec_of call) w accepted)
unfolding run_call_to component_stack_source_to update_contribution_source_to
    remove_contribution_source_to modify_source_zero_untransformed_to validate_raw
run_call_to-rewritten sink (stack entity property_id value) w accepted = rw accepted
run_call_to-rewritten sink (update entity property_id i value) w accepted = rw accepted
run_call_to-rewritten sink (remove entity property_id i) w accepted = refl
run_call_to-rewritten sink (modify_zero entity property_id function_id operand) w accepted =
    let good : is_raw operand ≡ true = ground (arith, accepted) in
    let ordinary : contains special_property_ids property_id ≡ false = ground (arith, accepted) in
    rw (good, ordinary)
      (finish-pure
        (rewrite_entry_to sink entity property_id BoundaryOperation.after_property_changed
          (set_source_zero function_id operand))
        true w)

run_call_to-refused :
    (sink : BoundarySink) (call : SourceCall) (w : World)
    → (spec_of call).accepted ≡ false
    → (e : Error) × (run_call_to sink call w ≡ (raise e, w))
unfolding run_call_to component_stack_source_to update_contribution_source_to
    remove_contribution_source_to modify_source_zero_untransformed_to validate_raw
run_call_to-refused sink (stack entity property_id value) w bad = (value_error, rw bad)
run_call_to-refused sink (update entity property_id i value) w bad = (value_error, rw bad)
run_call_to-refused sink (remove entity property_id i) w bad = cc
run_call_to-refused sink (modify_zero entity property_id function_id operand) w bad =
    elim (Bool-cases (is_raw operand)) [
      | inr wide ↦ (value_error, rw wide)
      | inl good ↦
          let special : contains special_property_ids property_id ≡ true =
            ground (arith, bad, good) in
          (unsupported_special_property, rw (good, special))
    ]

-- Under any sink a source operation either is stopped by a check, then it raises and has changed nothing,
-- or it has stored the changed entry and ends exactly as the sink ends on the boundary of that change:
-- a raise after the store is one of the sink.
pub run_call_to-Told :
    (sink : BoundarySink) (call : SourceCall) (w : World)
    → (Stopped (spec_of call) w × ((e : Error) × (run_call_to sink call w ≡ (raise e, w))))
      ⊎ Told sink (spec_of call) w (run_call_to sink call w)
run_call_to-Told sink call w = elim (Bool-cases (spec_of call).accepted) [
  | inr bad ↦ inl (inl bad, run_call_to-refused sink call w bad)
  | inl accepted ↦
      subst (SinkOutcome sink (spec_of call) w) (sym (run_call_to-rewritten sink call w accepted))
        (rewrite_entry_to-Told sink (spec_of call) w accepted)
]
