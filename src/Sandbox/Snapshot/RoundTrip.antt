-- ===== src/Sandbox/Snapshot/RoundTrip.antt =====
-- src/hsr_battle_agent/battle_sandbox/snapshot.py: a captured context is restored.
use hsr_battle_agent.Base.{
  All, Bool, Bool-cases, List, Option, [], ap, arith, false, guard, inl, inr, map, none, ok, raise,
  refl, some, sym, true, value_error, ◌&&◌, ◌>>=◌, ◌>>◌, ◌∙◌, ◌∷◌, ◌≡◌, ◌⊎◌,
}
use hsr_battle_agent.Base.Int.{ℤ}
use hsr_battle_agent.Base.Text.{Text, eqb_text}
use hsr_battle_agent.Json.{
  PyValue, array, boolean, copy_fields, dict, integer, is_finite, item, null, opaque, real, str,
  tuple, validate_items, validate_json_value,
}
use hsr_battle_agent.Sandbox.Rng.{Random, RngState, integer_items, rng_to_dict}
use hsr_battle_agent.Sandbox.Rng.RoundTrip.{rng_from_dict-to_dict}
use hsr_battle_agent.Sandbox.Snapshot.{
  ExecutionContext, SandboxSnapshot, capture_snapshot, copy_dicts, dict_items, new_snapshot,
  no_entities, restore_context, trace_dict,
}
use hsr_battle_agent.Sandbox.Snapshot.Made.{IsContext, Made, Made-IsContext}
use hsr_battle_agent.Sandbox.StoredState.{StoredState, copy_dict, get}
use hsr_battle_agent.Sandbox.StoredState.RoundTrip.{
  IsStored, copy_dict-of_valid, from_dict-stored_at, stored_at,
}
use hsr_battle_agent.Sandbox.Trace.{
  PrimitiveFinished, PrimitiveStarted, TraceEvent, finished_event, started_event,
  validate_trace_result,
}
use hsr_battle_agent.Sandbox.Trace.RoundTrip.{IsEvent, event_items, trace-read}
use hsr_battle_agent.Sandbox.Trace.Stored.{
  Conversions, event_to_dict, optional_text, text_items, trace_from_dict, trace_from_items,
}

-- A result is no NaN and no infinity.
abbrev pub finite_value : PyValue → Bool
finite_value (real f) = is_finite f
finite_value _ = true

abbrev pub finite_result : TraceEvent → Bool
finite_result (started_event e) = true
finite_result (finished_event e) = finite_value e.result

-- No event of a trace holds a NaN or an infinity.
abbrev pub all_finite : List TraceEvent → Bool
all_finite [] = true
all_finite (e ∷ events) = finite_result e && all_finite events

module _ (s : StoredState) (v : IsStored s) where
  stored_at-json : validate_json_value (dict (stored_at 4 s)) ≡ ok tt
  unfolding validate_json_value
  stored_at-json = simp (
    v.extensions_json, v.modifiers_json, v.properties_json, v.contributions_json, v.locks_json,
    v.timeline_json,
  )

integer_items-json : (ns : List ℤ) → validate_items (integer_items ns) ≡ ok tt
unfolding validate_items integer_items
integer_items-json [] = refl
integer_items-json (n ∷ ns) = integer_items-json ns

text_items-json : (ts : List Text) → validate_items (text_items ts) ≡ ok tt
unfolding validate_items text_items
text_items-json [] = refl
text_items-json (t ∷ ts) = text_items-json ts

optional_text-json : (t : Option Text) → validate_json_value (optional_text t) ≡ ok tt
unfolding validate_json_value
optional_text-json none = refl
optional_text-json (some t) = refl

rng-json : (s : RngState) → s.gauss_next ≡ none → validate_json_value (dict (rng_to_dict s)) ≡ ok tt
unfolding validate_json_value rng_to_dict
rng-json s h = rw h (simp (integer_items-json s.internal))

-- A scalar passes the JSON check unless it is a NaN or an infinity.
value-json :
    (v : PyValue)
    → validate_trace_result v ≡ ok tt
    → validate_json_value v ≡ guard (finite_value v) value_error
unfolding validate_json_value validate_trace_result
value-json null h = refl
value-json (boolean b) h = refl
value-json (integer n) h = refl
value-json (real f) h = refl
value-json (str s) h = refl
value-json (array items) h = cc
value-json (tuple items) h = cc
value-json (dict fields) h = cc
value-json opaque h = cc

started-json :
    (e : PrimitiveStarted) → validate_json_value (dict (event_to_dict (started_event e))) ≡ ok tt
unfolding validate_json_value event_to_dict
started-json e = simp (text_items-json e.input_tags, optional_text-json e.semantic_provenance_ref)

finished-json :
    (e : PrimitiveFinished)
    → validate_trace_result e.result ≡ ok tt
    → validate_json_value (dict (event_to_dict (finished_event e)))
      ≡ guard (finite_value e.result) value_error
unfolding validate_json_value event_to_dict
finished-json e h = elim (Bool-cases (finite_value e.result)) [
  | inl fine ↦ simp (value-json e.result h, fine, optional_text-json e.semantic_provenance_ref)
  | inr spoiled ↦ simp (value-json e.result h, spoiled)
]

copied-event :
    (e : TraceEvent)
    → IsEvent e
    → copy_dict (event_to_dict e) ≡ (guard (finite_result e) value_error >> ok (event_to_dict e))
unfolding copy_dict
copied-event (started_event e) h =
    copy_dict-of_valid (event_to_dict (started_event e)) (started-json e)
copied-event (finished_event e) h = elim (Bool-cases (finite_value e.result)) [
  | inl fine ↦
      copy_dict-of_valid (event_to_dict (finished_event e))
        (finished-json e h.1 ∙ ap (λ b. guard b value_error) fine)
      ∙ sym (ap (λ b. guard b value_error >> ok (event_to_dict (finished_event e))) fine)
  | inr spoiled ↦
      ap (λ r. r >>= λ checked. copy_fields (event_to_dict (finished_event e)))
        (finished-json e h.1 ∙ ap (λ b. guard b value_error) spoiled)
      ∙ sym (ap (λ b. guard b value_error >> ok (event_to_dict (finished_event e))) spoiled)
]

copied-events :
    (events : List TraceEvent)
    → All IsEvent events
    → copy_dicts (map event_to_dict events)
      ≡ (guard (all_finite events) value_error >> ok (map event_to_dict events))
unfolding copy_dicts
copied-events [] h = refl
copied-events (e ∷ events) h = elim (Bool-cases (finite_result e)) [
  | inl one ↦ elim (Bool-cases (all_finite events)) [
    | inl rest ↦ simp (copied-event e h.0, copied-events events h.1, one, rest)
    | inr rest ↦ simp (copied-event e h.0, copied-events events h.1, one, rest)
  ]
  | inr one ↦ simp (copied-event e h.0, one)
]

dict_items-events :
    (events : List TraceEvent) → dict_items (map event_to_dict events) ≡ event_items events
unfolding dict_items event_items
dict_items-events [] = refl
dict_items-events (e ∷ events) = ap (item (dict (event_to_dict e))) (dict_items-events events)

-- The snapshot that a context is captured in.
abbrev pub snapshot_of : ExecutionContext → SandboxSnapshot
snapshot_of context = record {
  battle_state = stored_at 4 context.state;
  rng_state = rng_to_dict context.rng;
  trace_events = map event_to_dict context.trace.events;
}

module _ (random : Random) (conversions : Conversions) (context : ExecutionContext)
    (c : IsContext random context) where
  captured :
      capture_snapshot context
      ≡ (guard (all_finite context.trace.events) value_error >> ok (snapshot_of context))
  unfolding capture_snapshot new_snapshot
  captured = elim (Bool-cases (all_finite context.trace.events)) [
    | inl fine ↦ simp (
      (from_dict-stored_at 4 context.state (omega arith) (omega arith) c.stored).0,
      copy_dict-of_valid (stored_at 4 context.state) (stored_at-json context.state c.stored),
      copy_dict-of_valid (rng_to_dict context.rng)
          (rng-json context.rng (random.gauss-Generated _ c.generated)),
      copied-events context.trace.events c.traced.events,
      fine,
    )
    | inr spoiled ↦ simp (
      (from_dict-stored_at 4 context.state (omega arith) (omega arith) c.stored).0,
      copy_dict-of_valid (stored_at 4 context.state) (stored_at-json context.state c.stored),
      copy_dict-of_valid (rng_to_dict context.rng)
          (rng-json context.rng (random.gauss-Generated _ c.generated)),
      copied-events context.trace.events c.traced.events,
      spoiled,
    )
  ]

  trace-restored :
      trace_from_dict conversions (dict (trace_dict (map event_to_dict context.trace.events)))
      ≡ ok context.trace
  unfolding trace_from_dict get eqb_text trace_dict dict_items
  trace-restored =
      ap (trace_from_items conversions) (dict_items-events context.trace.events)
      ∙ trace-read conversions context.trace c.traced.events c.traced.exact

  restore-ok :
      all_finite context.trace.events ≡ true
      → restore_context random conversions (snapshot_of context)
        ≡ ok (record context { task_context = no_entities })
  unfolding restore_context
  restore-ok fine = simp (
    copy_dict-of_valid (stored_at 4 context.state) (stored_at-json context.state c.stored),
    (from_dict-stored_at 4 context.state (omega arith) (omega arith) c.stored).1,
    copy_dict-of_valid (rng_to_dict context.rng)
        (rng-json context.rng (random.gauss-Generated _ c.generated)),
    rng_from_dict-to_dict random context.rng c.generated,
    copied-events context.trace.events c.traced.events,
    fine,
    trace-restored,
  )

-- A context that a reset has made, and any number of seeds and draws of the generator, started and finished
-- events of the trace, states of strict JSON dicts written, entities set and clones, is captured and
-- restored, with its state, its generator and its trace as they were and without the three entities,
-- where no result in its trace is a NaN or an infinity; and where one is, the capture raises
-- ValueError. The generator keeps the documented laws of random.Random.
pub restore-capture :
    (random : Random) (conversions : Conversions) (context : ExecutionContext)
    → Made random context
    → ((all_finite context.trace.events ≡ true)
        × ((snapshot : SandboxSnapshot) × (capture_snapshot context ≡ ok snapshot)
            × (restore_context random conversions snapshot
                ≡ ok (record context { task_context = no_entities }))))
      ⊎ ((all_finite context.trace.events ≡ false) × (capture_snapshot context ≡ raise value_error))
restore-capture random conversions context made =
    let c = Made-IsContext random made in
    elim (Bool-cases (all_finite context.trace.events)) [
      | inl fine ↦ inl (
        fine,
        (
          snapshot_of context,
          captured random conversions context c ∙ rw fine refl,
          restore-ok random conversions context c fine,
        ),
      )
      | inr spoiled ↦ inr (spoiled, captured random conversions context c ∙ rw spoiled refl)
    ]
