-- ===== src/Sandbox/Executor.antt =====
-- src/hsr_battle_agent/battle_sandbox/executor.py: a call is resolved, its inputs are put in the order of the
-- spec, and its implementation runs between two events of the trace. The state, the values and what
-- the trace says of a value are parameters; an implementation may write the state and the trace.
pub mod Events
pub mod Calls
use hsr_battle_agent.Base.{
  List, Result, [], invalid_primitive_input, ok, raise, some, value_error, ◌∷◌,
}
use hsr_battle_agent.Base.Action.{Action, lift, ◌>>=◌, ◌>>◌}
use hsr_battle_agent.Base.Text.{Text}
use hsr_battle_agent.Sandbox.Primitive.{
  Inputs, PrimitiveCall, PrimitiveResult, check_primitive_result, create_call,
  validate_and_order_inputs,
}
use hsr_battle_agent.Sandbox.Registry.{PrimitiveRegistry, RegisteredPrimitive, resolve_primitive}
use hsr_battle_agent.Sandbox.Trace.{ExecutionTrace, TraceValue, finished, started}

-- `ExecutionContext`, the parts that an executor uses
pub record Context (S : Type 0) : Type 0 where
  pub state : S
  pub trace : ExecutionTrace

abbrev pub Implementation : Type 0 → Type 0 → Type 0
Implementation S V = Inputs V → Action (Context S) V

-- A step of the trace in a context.
abbrev pub on_trace : {S A : Type 0} → Action ExecutionTrace A → Action (Context S) A
on_trace act c = let (result, trace) = act c.trace in (result, record c { trace = trace })

-- `ValueError` of the inputs, as the executor raises it
abbrev pub as_invalid_input : {A : Type 0} → Result A → Result A
as_invalid_input (ok a) = ok a
as_invalid_input (raise value_error) = raise invalid_primitive_input
as_invalid_input (raise e) = raise e

unfoldable pub input_tags : {V : Type 0} → (V → Text) → Inputs V → List Text
input_tags input_tag [] = []
input_tags input_tag ((n, v) ∷ inputs) = input_tag v ∷ input_tags input_tag inputs

module _ {S V : Type 0} (describe : V → TraceValue) (input_tag : V → Text) where
  -- What runs once the call is accepted.
  unfoldable pub run_primitive :
      Text
      → RegisteredPrimitive (Implementation S V)
      → Inputs V
      → Action (Context S) (PrimitiveResult V)
  unfolding input_tags started finished check_primitive_result
  run_primitive primitive_id registered inputs = do
    start ← on_trace (λ t.
        let (event, opened) =
          started primitive_id (input_tags input_tag inputs) registered.provenance_ref t in
        (ok event, opened))
    value ← registered.implementation inputs
    on_trace (finished start (describe value))
    lift (
        check_primitive_result (record {
          primitive_id = primitive_id;
          value = value;
          semantic_result_type = registered.spec.result;
          runtime_result_type = some (describe value).type_name;
        }))

  -- `execute`
  unfoldable pub execute :
      PrimitiveRegistry (Implementation S V)
      → PrimitiveCall V
      → Action (Context S) (PrimitiveResult V)
  unfolding resolve_primitive validate_and_order_inputs run_primitive
  execute registry call = do
    registered ← lift (resolve_primitive registry call.primitive_id)
    inputs ← lift (as_invalid_input (validate_and_order_inputs registered.spec call.arguments))
    run_primitive call.primitive_id registered inputs

  -- `Sandbox.execute` of an id with its inputs
  unfoldable pub execute_named :
      PrimitiveRegistry (Implementation S V)
      → Text
      → Inputs V
      → Action (Context S) (PrimitiveResult V)
  unfolding create_call execute
  execute_named registry id inputs = do call ← lift (create_call id inputs); execute registry call
