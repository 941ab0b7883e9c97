-- ===== src/Component/Invariant.antt =====
-- The four source operations of src/hsr_battle_agent/battle_runtime/property.py as calls on a
-- world.
use hsr_battle_agent.Base.{
  Bool-cases, Error, Result, arith, inl, inr, ok, raise, refl, some, ◌≡◌, ◌≢◌, ◌⊎◌,
}
use hsr_battle_agent.Base.Action.{Action}
use hsr_battle_agent.Base.Dict.{insert, int_eq, lookup, lookup-insert, lookup-insert_ne}
use hsr_battle_agent.Base.Int.{ℤ}
use hsr_battle_agent.Component.{
  component_stack_source, modify_source_zero_untransformed, remove_contribution_source,
  update_contribution_source,
}
use hsr_battle_agent.Component.Laws.{AllValid, emitted}
use hsr_battle_agent.Component.Outcomes.{
  SourceOutcome, component_stack_source-outcome, modify_source_zero-outcome,
  remove_contribution_source-outcome, update_contribution_source-outcome,
}
use hsr_battle_agent.Modifier.{ref_eq}
use hsr_battle_agent.Property.{PropertyEntry}
use hsr_battle_agent.Property.Valid.{IsValid}
use hsr_battle_agent.State.{PropertyChangeBoundary, PropertyKey, World, key_eq, property_entry_key}
use hsr_battle_agent.Targets.{EntityRef}

pub data SourceCall : Type 0 where
  stack : EntityRef → ℤ → ℤ → SourceCall
  update : EntityRef → ℤ → ℤ → ℤ → SourceCall
  remove : EntityRef → ℤ → ℤ → SourceCall
  modify_zero : EntityRef → ℤ → ℤ → ℤ → SourceCall

-- The stored entry that a call may write.
abbrev pub call_key : SourceCall → PropertyKey
call_key (stack entity property_id _) = property_entry_key entity property_id
call_key (update entity property_id _ _) = property_entry_key entity property_id
call_key (remove entity property_id _) = property_entry_key entity property_id
call_key (modify_zero entity property_id _ _) = property_entry_key entity property_id

-- The call's end, without its result.
abbrev pub finish : {A : Type 0} → Result A × World → Result (Unit {0}) × World
finish (ok _, w) = (ok tt, w)
finish (raise e, w) = (raise e, w)

unfoldable pub run_call : SourceCall → Action World (Unit {0})
run_call (stack entity property_id value) w =
    finish (component_stack_source entity property_id value w)
run_call (update entity property_id source_index value) w =
    finish (update_contribution_source entity property_id source_index value w)
run_call (remove entity property_id source_index) w =
    finish (remove_contribution_source entity property_id source_index w)
run_call (modify_zero entity property_id function_id operand) w =
    finish (modify_source_zero_untransformed entity property_id function_id operand w)

-- A call raises and leaves the world, or writes one entry and one boundary.
pub record Wrote (key : PropertyKey) (w w' : World) : Type 0 where
  pub old : PropertyEntry
  pub new : PropertyEntry
  pub boundary : PropertyChangeBoundary
  pub stored : lookup key w.state.entity_property_entries ≡ some old
  pub keeps : IsValid old → IsValid new
  pub names_old : boundary.old_materialized ≡ old.materialized
  pub names_new : boundary.new_materialized ≡ new.materialized
  pub result :
      w'
      ≡ emitted boundary (record w {
        state = record w.state {
          entity_property_entries = insert key new w.state.entity_property_entries;
        };
      })

abbrev CallOutcome : PropertyKey → World → Result (Unit {0}) × World → Type 0
CallOutcome key w r = ((e : Error) × (r ≡ (raise e, w))) ⊎ ((r.0 ≡ ok tt) × Wrote key w r.1)

outcome-Wrote :
    {A : Type 0} (entity : EntityRef) (property_id : ℤ) (w : World) (r : Result A × World)
    → SourceOutcome entity property_id w r
    → CallOutcome (property_entry_key entity property_id) w (finish r)
outcome-Wrote entity property_id w r (inl (e, raised)) = inl (e, rw raised)
outcome-Wrote entity property_id w r (inr (operation, i, entry, new, a, found, keeps, result)) =
    rw result (
      inr (
        refl,
        record {
          old = entry;
          new = new;
          boundary = record {
            operation = operation;
            entity = entity;
            property_id = property_id;
            source_index = i;
            old_materialized = entry.materialized;
            new_materialized = new.materialized;
          };
          stored = found;
          keeps = keeps;
          names_old = refl;
          names_new = refl;
          result = refl;
        },
      ))

pub run_call-outcome :
    (call : SourceCall) (w : World) → CallOutcome (call_key call) w (run_call call w)
unfolding run_call
run_call-outcome (stack entity property_id value) w =
    outcome-Wrote entity property_id w _ (component_stack_source-outcome entity property_id value w)
run_call-outcome (update entity property_id i value) w =
    outcome-Wrote entity property_id w _
      (update_contribution_source-outcome entity property_id i value w)
run_call-outcome (remove entity property_id i) w =
    outcome-Wrote entity property_id w _ (remove_contribution_source-outcome entity property_id i w)
run_call-outcome (modify_zero entity property_id function_id operand) w =
    outcome-Wrote entity property_id w _
      (modify_source_zero-outcome entity property_id function_id operand w)

-- A source operation leaves every stored entry but its own.
pub run_call-others :
    (call : SourceCall) (w : World) (key : PropertyKey)
    → key ≢ call_key call
    → lookup key (run_call call w).1.state.entity_property_entries
      ≡ lookup key w.state.entity_property_entries
run_call-others call w key ne = elim (run_call-outcome call w) [
  | inl (error, raised) ↦ rw raised
  | inr (fine, wrote) ↦
      rw wrote.result
        (lookup-insert_ne key (call_key call) wrote.new w.state.entity_property_entries ne)
]

-- A source operation, whether it returns or raises, keeps every stored entry well-formed.
pub run_call-AllValid :
    (call : SourceCall) (w : World) → AllValid w.state → AllValid (run_call call w).1.state
run_call-AllValid call w valid key entry found = elim (run_call-outcome call w) [
  | inl (error, raised) ↦ valid key entry (rw raised at found)
  | inr (fine, wrote) ↦ insert-valid wrote (rw wrote.result at found)
]
  where
    insert-valid :
        (wrote : Wrote (call_key call) w (run_call call w).1)
        → lookup key (insert (call_key call) wrote.new w.state.entity_property_entries) ≡ some entry
        → IsValid entry
    insert-valid wrote at_key = elim (Bool-cases (key_eq.beq key (call_key call))) [
      | inl same ↦
          let new : wrote.new ≡ entry =
            ground (
              arith,
              lookup-insert key (call_key call) wrote.new w.state.entity_property_entries,
            ) in
          rw (← new) (wrote.keeps (valid (call_key call) wrote.old wrote.stored))
      | inr other ↦ valid key entry (
          ground
            (arith, lookup-insert key (call_key call) wrote.new w.state.entity_property_entries))
    ]
