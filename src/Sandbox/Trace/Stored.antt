-- ===== src/Sandbox/Trace/Stored.antt =====
-- src/hsr_battle_agent/battle_sandbox/trace.py: the dict form of the events and of the trace. Python's
-- `str(value)` of a value that is no string, and `int(text)`, are a parameter.
use hsr_battle_agent.Base.{
  guard, List, Option, Result, [], if◌then◌else◌, key_error, map, none, ok, raise, some, type_error,
  value_error, ◌>>=◌, ◌>>◌, ◌∷◌,
}
use hsr_battle_agent.Base.Float.{double_to_int}
use hsr_battle_agent.Base.Int.{pos, ℤ}
use hsr_battle_agent.Base.Text.{Text, codes, eqb_text}
use hsr_battle_agent.Json.{
  Fields, Items, PyValue, array, boolean, dict, end, field, foreign, integer, item, none_left, null,
  name, opaque, real, str, tuple,
}
use hsr_battle_agent.Sandbox.Rng.{is_text_value, as_array}
use hsr_battle_agent.Sandbox.StoredState.{get}
use hsr_battle_agent.Sandbox.Trace.{
  ExecutionTrace, PrimitiveFinished, PrimitiveStarted, TraceEvent, finished_event, finished_name,
  of_events, started_event, started_name, validate_trace_result,
}

pub record Conversions : Type 0 where
  pub str_of : PyValue → Text
  pub int_of_text : Text → Result ℤ

abbrev pub trace_schema : Text
trace_schema = codes "battle_sandbox_trace/1"

abbrev pub schema_text_key : Text
schema_text_key = codes "schema"

abbrev pub events_key : Text
events_key = codes "events"

abbrev pub event_key : Text
event_key = codes "event"

abbrev pub id_key : Text
id_key = codes "event_id"

abbrev pub started_id_key : Text
started_id_key = codes "primitive_event_id"

abbrev pub primitive_key : Text
primitive_key = codes "primitive_id"

abbrev pub tags_key : Text
tags_key = codes "input_tags"

abbrev pub result_key : Text
result_key = codes "result"

abbrev pub type_key : Text
type_key = codes "result_type"

abbrev pub provenance_key : Text
provenance_key = codes "semantic_provenance_ref"

abbrev pub optional_text : Option Text → PyValue
optional_text none = null
optional_text (some t) = str t

unfoldable pub text_items : List Text → Items
text_items [] = end
text_items (t ∷ ts) = item (str t) (text_items ts)

abbrev pub store : Text → PyValue → Fields → Fields
store key value rest = field (name key) value rest

-- `PrimitiveStarted.to_dict` and `PrimitiveFinished.to_dict`
unfoldable pub event_to_dict : TraceEvent → Fields
unfolding text_items
event_to_dict (started_event e) = store event_key (str e.event) (
    store id_key (integer e.event_id) (
      store primitive_key (str e.primitive_id) (
        store tags_key (array (text_items e.input_tags))
          (store provenance_key (optional_text e.semantic_provenance_ref) none_left))))
event_to_dict (finished_event e) = store event_key (str e.event) (
    store id_key (integer e.event_id) (
      store started_id_key (integer e.primitive_event_id) (
        store primitive_key (str e.primitive_id) (
          store result_key e.result (
            store type_key (str e.result_type)
              (store provenance_key (optional_text e.semantic_provenance_ref) none_left))))))

-- `data[key]`
unfoldable pub required : Text → Fields → Result PyValue
unfolding get
required key stored = elim (get key stored) [ none ↦ raise key_error | some v ↦ ok v ]

module _ (conversions : Conversions) where
  -- `str(value)`
  abbrev pub to_text : PyValue → Text
  to_text (str t) = t
  to_text v = conversions.str_of v

  -- `int(value)`
  unfoldable pub to_int : PyValue → Result ℤ
  unfolding double_to_int
  to_int (integer n) = ok n
  to_int (boolean b) = ok (if b then pos 1 else pos 0)
  to_int (real f) = double_to_int f
  to_int (str t) = conversions.int_of_text t
  to_int v = raise type_error

  unfoldable pub item_texts : Items → List Text
  item_texts end = []
  item_texts (item v items) = to_text v ∷ item_texts items

  unfoldable pub key_texts : Fields → List Text
  key_texts none_left = []
  key_texts (field (name t) v fields) = t ∷ key_texts fields
  key_texts (field foreign v fields) = conversions.str_of opaque ∷ key_texts fields

  -- `tuple(str(item) for item in value)`: a dict gives its keys, a string its code points.
  unfoldable pub to_texts : PyValue → Result (List Text)
  unfolding item_texts key_texts
  to_texts (array items) = ok (item_texts items)
  to_texts (tuple items) = ok (item_texts items)
  to_texts (dict fields) = ok (key_texts fields)
  to_texts (str t) = ok (map (λ c. c ∷ []) t)
  to_texts v = raise type_error

  -- `None if data.get(key) is None else str(data[key])`
  abbrev pub to_optional_text : Option PyValue → Option Text
  to_optional_text none = none
  to_optional_text (some null) = none
  to_optional_text (some v) = some (to_text v)

  unfoldable pub started_from_dict : Fields → Result PrimitiveStarted
  unfolding get item_texts key_texts to_int to_texts required
  started_from_dict stored = do
    event ← required event_key stored
    raw_id ← required id_key stored
    id ← to_int raw_id
    primitive ← required primitive_key stored
    raw_tags ← required tags_key stored
    tags ← to_texts raw_tags
    ok (record {
      event = to_text event;
      event_id = id;
      primitive_id = to_text primitive;
      input_tags = tags;
      semantic_provenance_ref = to_optional_text (get provenance_key stored);
    })

  unfoldable pub finished_from_dict : Fields → Result PrimitiveFinished
  unfolding get validate_trace_result to_int required
  finished_from_dict stored = do
    result ← required result_key stored
    validate_trace_result result
    event ← required event_key stored
    raw_id ← required id_key stored
    id ← to_int raw_id
    raw_start ← required started_id_key stored
    start_id ← to_int raw_start
    primitive ← required primitive_key stored
    result_type ← required type_key stored
    ok (record {
      event = to_text event;
      event_id = id;
      primitive_event_id = start_id;
      primitive_id = to_text primitive;
      result = result;
      result_type = to_text result_type;
      semantic_provenance_ref = to_optional_text (get provenance_key stored);
    })

  unfoldable pub event_named : Option PyValue → Fields → Result TraceEvent
  unfolding started_from_dict finished_from_dict eqb_text
  event_named (some (str t)) stored =
      if eqb_text t started_name
      then (do e ← started_from_dict stored; ok (started_event e))
      else if eqb_text t finished_name
      then (do e ← finished_from_dict stored; ok (finished_event e))
      else raise value_error
  event_named _ stored = raise value_error

  -- One round of the loop of `ExecutionTrace.from_dict`
  unfoldable pub event_from_value : PyValue → Result TraceEvent
  unfolding get event_named
  event_from_value (dict stored) = event_named (get event_key stored) stored
  event_from_value _ = raise type_error

  unfoldable pub events_from_items : Items → Result (List TraceEvent)
  unfolding event_from_value
  events_from_items end = ok []
  events_from_items (item v items) = do
    e ← event_from_value v
    events ← events_from_items items
    ok (e ∷ events)

  -- `ExecutionTrace.from_dict` of the schema that this code writes
  unfoldable pub trace_from_items : Items → Result ExecutionTrace
  unfolding events_from_items of_events
  trace_from_items items = do events ← events_from_items items; ok (of_events events)

  -- `ExecutionTrace.from_dict`
  unfoldable pub trace_from_dict : PyValue → Result ExecutionTrace
  unfolding get eqb_text trace_from_items
  trace_from_dict (dict stored) = do
    guard (is_text_value trace_schema (get schema_text_key stored)) value_error
    items ← as_array (get events_key stored)
    trace_from_items items
  trace_from_dict _ = raise type_error
