-- ===== src/Sandbox/Trace.antt =====
-- src/hsr_battle_agent/battle_sandbox/trace.py: the execution trace, its event ids and its dict form. A
-- value that a primitive returns is told by its class, its summary and its scalar.
pub mod Ids
pub mod Stored
pub mod RoundTrip
use hsr_battle_agent.Base.{
  List, Option, Result, [], if◌then◌else◌, length, none, ok, raise, some, type_error, ◌++◌, ◌==◌,
  ◌∷◌,
}
use hsr_battle_agent.Base.Action.{Action, gets, lift, modify, pure, raise_if, ◌>>=◌, ◌>>◌}
use hsr_battle_agent.Base.Int.{leb_ℤ, pos, ℤ, ◌+ℤ◌}
use hsr_battle_agent.Base.Text.{Text, codes}
use hsr_battle_agent.Json.{PyValue, boolean, integer, null, real, str}
use hsr_battle_agent.State.{BoundaryOperation}

pub record PrimitiveStarted : Type 0 where
  pub event : Text
  pub event_id : ℤ
  pub primitive_id : Text
  pub input_tags : List Text
  pub semantic_provenance_ref : Option Text

pub record PrimitiveFinished : Type 0 where
  pub event : Text
  pub event_id : ℤ
  pub primitive_event_id : ℤ
  pub primitive_id : Text
  pub result : PyValue
  pub result_type : Text
  pub semantic_provenance_ref : Option Text

pub data TraceEvent : Type 0 where
  started_event : PrimitiveStarted → TraceEvent
  finished_event : PrimitiveFinished → TraceEvent

abbrev pub id_of : TraceEvent → ℤ
id_of (started_event e) = e.event_id
id_of (finished_event e) = e.event_id

-- `trace_summary` is there for the classes that have one, and `value` is the object itself.
pub record TraceValue : Type 0 where
  pub value : PyValue
  pub trace_summary : Option Text
  pub type_name : Text

pub record ExecutionTrace : Type 0 where
  pub events : List TraceEvent
  pub next_event_id : ℤ

abbrev pub max_ℤ : ℤ → ℤ → ℤ
max_ℤ a b = if leb_ℤ a b then b else a

unfoldable pub greatest_id : ℤ → List TraceEvent → ℤ
greatest_id best [] = best
greatest_id best (e ∷ events) = greatest_id (max_ℤ best (id_of e)) events

-- `max(ids, default=0) + 1`
abbrev pub next_of : List TraceEvent → ℤ
unfolding greatest_id ◌+ℤ◌
next_of [] = pos 0 +ℤ pos 1
next_of (e ∷ events) = greatest_id (id_of e) events +ℤ pos 1

-- `ExecutionTrace(events)`, and `clone`
unfoldable pub of_events : List TraceEvent → ExecutionTrace
unfolding next_of
of_events events = record { events = events; next_event_id = next_of events }

unfoldable pub clone_trace : ExecutionTrace → ExecutionTrace
unfolding of_events
clone_trace trace = of_events trace.events

abbrev pub started_name : Text
started_name = codes "PrimitiveStarted"

abbrev pub finished_name : Text
finished_name = codes "PrimitiveFinished"

-- An event at the next id is appended.
abbrev pub appended : TraceEvent → ExecutionTrace → ExecutionTrace
appended e trace = record {
  events = trace.events ++ e ∷ [];
  next_event_id = trace.next_event_id +ℤ pos 1;
}

-- `started`
unfoldable pub started :
    Text → List Text → Option Text → ExecutionTrace → PrimitiveStarted × ExecutionTrace
started primitive_id input_tags provenance trace =
    let event : PrimitiveStarted = record {
      event = started_name;
      event_id = trace.next_event_id;
      primitive_id = primitive_id;
      input_tags = input_tags;
      semantic_provenance_ref = provenance;
    } in
    (event, appended (started_event event) trace)

-- `_validate_trace_result`: None, a bool, an int, a float or a string
unfoldable pub validate_trace_result : PyValue → Result (Unit {0})
validate_trace_result null = ok tt
validate_trace_result (boolean b) = ok tt
validate_trace_result (integer n) = ok tt
validate_trace_result (real f) = ok tt
validate_trace_result (str s) = ok tt
validate_trace_result _ = raise type_error

-- `_trace_result_summary`
unfoldable pub trace_result_summary : TraceValue → Result PyValue
unfolding validate_trace_result
trace_result_summary v = elim v.trace_summary [
  | some summary ↦ ok (str summary)
  | none ↦ elim (validate_trace_result v.value) [ ok _ ↦ ok v.value | raise e ↦ raise e ]
]

-- `PrimitiveFinished.create` at the next id
abbrev pub finished_of : PrimitiveStarted → PyValue → Text → ℤ → PrimitiveFinished
finished_of start result type_name id = record {
  event = finished_name;
  event_id = id;
  primitive_event_id = start.event_id;
  primitive_id = start.primitive_id;
  result = result;
  result_type = type_name;
  semantic_provenance_ref = start.semantic_provenance_ref;
}

-- `finished`: a result with no summary that is no scalar raises before the id is taken.
unfoldable pub finished : PrimitiveStarted → TraceValue → Action ExecutionTrace PrimitiveFinished
unfolding trace_result_summary
finished start v = do
  trace ← gets (λ t. t)
  result ← lift (trace_result_summary v)
  let event : PrimitiveFinished = finished_of start result v.type_name trace.next_event_id
  modify (appended (finished_event event))
  pure event

-- `record`
unfoldable pub record_event : TraceEvent → ExecutionTrace → ExecutionTrace
record_event e trace = record {
  events = trace.events ++ e ∷ [];
  next_event_id = max_ℤ trace.next_event_id (id_of e +ℤ pos 1);
}

-- The two events of a boundary, whose summary is both the input tag and the result.
unfoldable pub record_boundary : Text → Text → Action ExecutionTrace (Unit {0})
unfolding started finished
record_boundary primitive_id summary trace =
    let (start, opened) = started primitive_id (summary ∷ []) none trace in
    (finished start (record { value = str summary; trace_summary = none; type_name = codes "str" })
        >> pure tt)
      opened

-- `_PROPERTY_BOUNDARY_OPERATION_IDS`
abbrev pub operation_name : BoundaryOperation → Text
operation_name BoundaryOperation.source_allocated =
    codes "battle.ir.property.boundary.source_allocated"
operation_name BoundaryOperation.source_updated = codes "battle.ir.property.boundary.source_updated"
operation_name BoundaryOperation.source_removed = codes "battle.ir.property.boundary.source_removed"
operation_name BoundaryOperation.after_property_changed =
    codes "battle.ir.property.boundary.after_property_changed"

-- `record_property_change_boundary` of a boundary with that operation and summary
unfoldable pub record_property_change_boundary :
    BoundaryOperation → Text → Action ExecutionTrace (Unit {0})
unfolding record_boundary
record_property_change_boundary operation summary =
    record_boundary (operation_name operation) summary

-- `record_hp_boundary`
unfoldable pub record_hp_boundary : Text → Text → Action ExecutionTrace (Unit {0})
unfolding record_boundary
record_hp_boundary boundary_id summary = do
  raise_if (length boundary_id == 0) type_error
  raise_if (length summary == 0) type_error
  record_boundary (codes "battle.ir.hp.boundary." ++ boundary_id) summary
