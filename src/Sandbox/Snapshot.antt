-- ===== src/Sandbox/Snapshot.antt =====
-- src/hsr_battle_agent/battle_sandbox/snapshot.py, context.py and sandbox.py: an execution context, its clone, and
-- the snapshot that it is captured in and restored from.
pub mod Made
pub mod RoundTrip
use hsr_battle_agent.Base.{
  Bool, List, Option, Result, [], guard, if◌then◌else◌, map, none, ok, raise, some, type_error,
  value_error, ◌>>=◌, ◌>>◌, ◌∷◌,
}
use hsr_battle_agent.Base.Int.{pos, ℤ}
use hsr_battle_agent.Base.Text.{Text, codes}
use hsr_battle_agent.Json.{
  Fields, Items, PyValue, array, dict, end, field, integer, item, name, none_left, str,
}
use hsr_battle_agent.Sandbox.Rng.{
  Random, RngState, as_array, as_block, clone_rng, is_number_value, rng_from_dict, rng_to_dict,
}
use hsr_battle_agent.Sandbox.StoredState.{
  StoredState, clone, copy_dict, empty, equals_number, from_dict, get, schema_key, to_dict,
}
use hsr_battle_agent.Sandbox.Trace.{ExecutionTrace, clone_trace, of_events}
use hsr_battle_agent.Sandbox.Trace.Stored.{
  Conversions, event_to_dict, events_key, schema_text_key, trace_from_dict, trace_schema,
}
use hsr_battle_agent.Targets.{TaskContext}

-- `ExecutionContext`
pub record ExecutionContext : Type 0 where
  pub state : StoredState
  pub rng : RngState
  pub trace : ExecutionTrace
  pub task_context : TaskContext

abbrev pub no_entities : TaskContext
no_entities = record { task_action_target = none; owner_entity = none; caster_entity = none }

abbrev pub new_trace : ExecutionTrace
unfolding of_events
new_trace = of_events []

-- `Sandbox.reset`
unfoldable pub reset : Random → Option ℤ → ExecutionContext
unfolding of_events
reset random seed = record {
  state = empty;
  rng = random.seeded seed;
  trace = new_trace;
  task_context = no_entities;
}

-- `ExecutionContext.clone`; `Sandbox.clone` takes the default, which starts a new trace.
unfoldable pub clone_context : Random → Bool → ExecutionContext → Result ExecutionContext
unfolding clone clone_rng clone_trace
clone_context random copy_trace context = do
  state ← clone context.state
  rng ← clone_rng random context.rng
  ok (record {
    state = state;
    rng = rng;
    trace = if copy_trace then clone_trace context.trace else new_trace;
    task_context = context.task_context;
  })

pub record SandboxSnapshot : Type 0 where
  pub battle_state : Fields
  pub rng_state : Fields
  pub trace_events : List Fields

unfoldable pub copy_dicts : List Fields → Result (List Fields)
unfolding copy_dict
copy_dicts [] = ok []
copy_dicts (fields ∷ events) = do
  copied ← copy_dict fields
  rest ← copy_dicts events
  ok (copied ∷ rest)

-- `SandboxSnapshot.__init__` at the schema version 1
unfoldable pub new_snapshot : Fields → Fields → List Fields → Result SandboxSnapshot
unfolding copy_dict copy_dicts
new_snapshot battle_state rng_state trace_events = do
  battle ← copy_dict battle_state
  rng ← copy_dict rng_state
  events ← copy_dicts trace_events
  ok (record { battle_state = battle; rng_state = rng; trace_events = events })

-- `capture_snapshot`
unfoldable pub capture_snapshot : ExecutionContext → Result SandboxSnapshot
unfolding to_dict rng_to_dict event_to_dict new_snapshot
capture_snapshot context = do
  battle ← to_dict context.state
  new_snapshot battle (rng_to_dict context.rng) (map event_to_dict context.trace.events)

unfoldable pub dict_items : List Fields → Items
dict_items [] = end
dict_items (fields ∷ events) = item (dict fields) (dict_items events)

abbrev pub battle_key : Text
battle_key = codes "battle_state"

abbrev pub rng_key : Text
rng_key = codes "rng_state"

abbrev pub trace_key : Text
trace_key = codes "trace"

-- `SandboxSnapshot.to_dict`
unfoldable pub snapshot_to_dict : SandboxSnapshot → Result Fields
unfolding copy_dict copy_dicts dict_items
snapshot_to_dict snapshot = do
  battle ← copy_dict snapshot.battle_state
  rng ← copy_dict snapshot.rng_state
  events ← copy_dicts snapshot.trace_events
  ok (
      field (name schema_key) (integer (pos 1)) (
        field (name battle_key) (dict battle) (
          field (name rng_key) (dict rng)
            (field (name trace_key) (array (dict_items events)) none_left))))

unfoldable pub as_dicts : Items → Result (List Fields)
as_dicts end = ok []
as_dicts (item (dict fields) items) = as_dicts items >>= λ rest. ok (fields ∷ rest)
as_dicts (item value items) = raise type_error

-- `data.get("trace", [])`, which has to be a list
abbrev pub as_array_or_empty : Option PyValue → Result Items
as_array_or_empty none = ok end
as_array_or_empty (some v) = as_array (some v)

-- `SandboxSnapshot.from_dict`
unfoldable pub snapshot_from_dict : PyValue → Result SandboxSnapshot
unfolding get equals_number as_dicts new_snapshot
snapshot_from_dict (dict stored) = do
  guard (is_number_value 1 (get schema_key stored)) value_error
  battle ← as_block (get battle_key stored)
  rng ← as_block (get rng_key stored)
  items ← as_array_or_empty (get trace_key stored)
  events ← as_dicts items
  new_snapshot battle rng events
snapshot_from_dict _ = raise type_error

abbrev pub trace_dict : List Fields → Fields
unfolding dict_items
trace_dict events =
    field (name schema_text_key) (str trace_schema)
      (field (name events_key) (array (dict_items events)) none_left)

-- `restore_context`
unfoldable pub restore_context : Random → Conversions → SandboxSnapshot → Result ExecutionContext
unfolding copy_dict copy_dicts from_dict rng_from_dict trace_from_dict dict_items
restore_context random conversions snapshot = do
  battle ← copy_dict snapshot.battle_state
  state ← from_dict (dict battle)
  rng_fields ← copy_dict snapshot.rng_state
  rng ← rng_from_dict random (dict rng_fields)
  events ← copy_dicts snapshot.trace_events
  trace ← trace_from_dict conversions (dict (trace_dict events))
  ok (record { state = state; rng = rng; trace = trace; task_context = no_entities })
