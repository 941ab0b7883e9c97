-- ===== src/Sandbox/Executor/Events.antt =====
-- src/hsr_battle_agent/battle_sandbox/executor.py: what a run leaves in the trace.
use hsr_battle_agent.Base.{
  Error, List, Result, Result-cases, [], inl, inr, ok, raise, refl, some, ◌++◌, ◌∙◌, ◌∷◌, ◌≡◌, ◌⊎◌,
}
use hsr_battle_agent.Base.Action.{Action, lift, ◌>>◌}
use hsr_battle_agent.Base.Text.{Text}
use hsr_battle_agent.Json.{PyValue}
use hsr_battle_agent.Sandbox.Executor.{Context, Implementation, input_tags, on_trace, run_primitive}
use hsr_battle_agent.Sandbox.Primitive.{Inputs, PrimitiveResult, check_primitive_result}
use hsr_battle_agent.Sandbox.Registry.{RegisteredPrimitive}
use hsr_battle_agent.Sandbox.Trace.{
  PrimitiveStarted, TraceEvent, TraceValue, appended, finished, finished_event, finished_of,
  started, started_event, started_name, trace_result_summary,
}
use mathlib.Core.List.{append_assoc}

-- An implementation only appends to the trace.
abbrev pub Recording : {S V : Type 0} → Implementation S V → Type 0
Recording {S} {V} implementation =
    (inputs : Inputs V) (c : Context S)
    → (more : List TraceEvent) × ((implementation inputs c).1.trace.events ≡ c.trace.events ++ more)

regroup :
    (events more : List TraceEvent) (e : TraceEvent) {all : List TraceEvent}
    → all ≡ (events ++ e ∷ []) ++ more
    → all ≡ events ++ e ∷ more
regroup events more e h = h ∙ append_assoc events (e ∷ []) more

module _ {S V : Type 0} (describe : V → TraceValue) (input_tag : V → Text) where
  -- The event at the next id that says which primitive is called with which inputs.
  abbrev pub start_of :
      Text → RegisteredPrimitive (Implementation S V) → Inputs V → Context S → PrimitiveStarted
  unfolding input_tags
  start_of id registered inputs c = record {
    event = started_name;
    event_id = c.trace.next_event_id;
    primitive_id = id;
    input_tags = input_tags input_tag inputs;
    semantic_provenance_ref = registered.provenance_ref;
  }

  abbrev pub opened : PrimitiveStarted → Context S → Context S
  opened start c = record c { trace = appended (started_event start) c.trace }

  -- The event at the next id that names `start` and holds the summary of the value.
  abbrev pub closed : PrimitiveStarted → PyValue → Text → Context S → Context S
  closed start summary type_name c = record c {
    trace =
        appended (finished_event (finished_of start summary type_name c.trace.next_event_id))
          c.trace;
  }

  -- How a run ends, from what its implementation gave: what that raised is raised; a value whose
  -- summary is refused raises that; any other value is the result, once the end is in the trace.
  abbrev pub Ends :
      Text
      → RegisteredPrimitive (Implementation S V)
      → PrimitiveStarted
      → Result V × Context S
      → Result (PrimitiveResult V) × Context S
      → Type 0
  unfolding check_primitive_result
  Ends id registered start given out =
      ((e : Error) × (given.0 ≡ raise e) × (out ≡ (raise e, given.1)))
      ⊎ ((v : V) × (given.0 ≡ ok v)
          × (((e : Error) × (trace_result_summary (describe v) ≡ raise e)
                × (out ≡ (raise e, given.1)))
              ⊎ ((summary : PyValue) × (trace_result_summary (describe v) ≡ ok summary)
                  × (out ≡ (
                    check_primitive_result (record {
                      primitive_id = id;
                      value = v;
                      semantic_result_type = registered.spec.result;
                      runtime_result_type = some (describe v).type_name;
                    }),
                    closed start summary (describe v).type_name given.1,
                  )))))

  -- A run: the implementation runs once, on the inputs, where the event of the start is the last, it
  -- adds the events `more`, and the run ends from what it gave.
  abbrev pub Ran :
      Text
      → RegisteredPrimitive (Implementation S V)
      → Inputs V
      → Context S
      → Result (PrimitiveResult V) × Context S
      → Type 0
  Ran id registered inputs c out =
      let start = start_of id registered inputs c in
      let given = registered.implementation inputs (opened start c) in
      ((more : List TraceEvent) × (given.1.trace.events
          ≡ c.trace.events ++ started_event start ∷ more))
      × Ends id registered start given out

  module _ (start : PrimitiveStarted) (id : Text)
      (registered : RegisteredPrimitive (Implementation S V)) where
    -- The end of a run, from the value that the implementation returned.
    abbrev ending : V → Action (Context S) (PrimitiveResult V)
    ending value = do
      on_trace (finished start (describe value))
      lift (
          check_primitive_result (record {
            primitive_id = id;
            value = value;
            semantic_result_type = registered.spec.result;
            runtime_result_type = some (describe value).type_name;
          }))

    abbrev continued : Result V → Context S → Result (PrimitiveResult V) × Context S
    continued r c2 = elim r [ ok a ↦ ending a c2 | raise e ↦ (raise e, c2) ]

    continued-Ends :
        (r : Result V) (c2 : Context S) → Ends id registered start (r, c2) (continued r c2)
    unfolding finished Ends
    continued-Ends (raise e) c2 = inl (e, refl, refl)
    continued-Ends (ok a) c2 = elim (Result-cases (trace_result_summary (describe a))) [
      | inl (summary, e) ↦ inr (a, refl, inr (summary, e, rw e refl))
      | inr (error, e) ↦ inr (a, refl, inl (error, e, rw e refl))
    ]

  pub run_primitive-Ran :
      (id : Text) (registered : RegisteredPrimitive (Implementation S V)) (inputs : Inputs V)
      (c : Context S)
      → Recording registered.implementation
      → Ran id registered inputs c (run_primitive describe input_tag id registered inputs c)
  unfolding run_primitive started start_of
  run_primitive-Ran id registered inputs c records =
      let start = start_of id registered inputs c in
      let (more, h) = records inputs (opened start c) in
      let given = registered.implementation inputs (opened start c) in
      (
        (more, regroup c.trace.events more (started_event start) h),
        continued-Ends start id registered given.0 given.1,
      )
