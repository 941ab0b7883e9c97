-- ===== src/Sandbox/Snapshot/Made.antt =====
-- src/hsr_battle_agent/battle_sandbox/sandbox.py, rng.py, trace.py and context.py: the contexts that a reset, draws,
-- events of the trace, writes of the state and clones make.
use hsr_battle_agent.Base.{
  All, Bool, List, Option, Option-cases, Result-cases, [], arith, false, inl, inr, ok, refl, sym,
  true, ◌++◌, ◌∙◌, ◌∷◌, ◌≡◌,
}
use hsr_battle_agent.Base.Float.{Float}
use hsr_battle_agent.Base.Int.{ℤ}
use hsr_battle_agent.Base.Text.{Text}
use hsr_battle_agent.Json.{PyValue, validate_json_value}
use hsr_battle_agent.Sandbox.Rng.{uniform, randint, Random, clone_rng, from_state, next_u64, seed}
use hsr_battle_agent.Sandbox.Snapshot.{reset, ExecutionContext, clone_context, new_trace}
use hsr_battle_agent.Sandbox.StoredState.{StoredState, empty}
use hsr_battle_agent.Sandbox.StoredState.RoundTrip.{IsStored, clone-of_stored}
use hsr_battle_agent.Sandbox.Trace.{
  ExecutionTrace, PrimitiveStarted, TraceEvent, TraceValue, appended, finished, id_of, started,
  trace_result_summary, validate_trace_result,
}
use hsr_battle_agent.Sandbox.Trace.Ids.{IsExact, appended-IsExact, clone_trace-of_exact}
use hsr_battle_agent.Sandbox.Trace.RoundTrip.{IsEvent}
use hsr_battle_agent.Targets.{TaskContext}
use mathlib.Core.Path.{subst}

-- One operation on a context: the generator is seeded or draws, the trace gets the event of a start or of an end
-- (which may be refused), the state is replaced by one of strict JSON dicts, the entities are set, or
-- the context is cloned, with its trace or with a new one.
pub data Step (random : Random) : ExecutionContext → ExecutionContext → Type 0 where
  seeds :
      (c : ExecutionContext) (value : Option ℤ)
      → Step random c (record c { rng = seed random value c.rng })
  draws : (c : ExecutionContext) → Step random c (record c { rng = (next_u64 random c.rng).1 })
  draws_int :
      (c : ExecutionContext) (low high : ℤ)
      → Step random c (record c { rng = (randint random low high c.rng).1 })
  draws_float :
      (c : ExecutionContext) (low high : Float)
      → Step random c (record c { rng = (uniform random low high c.rng).1 })
  starts :
      (c : ExecutionContext) (id : Text) (tags : List Text) (provenance : Option Text)
      → Step random c (record c { trace = (started id tags provenance c.trace).1 })
  ends :
      (c : ExecutionContext) (start : PrimitiveStarted) (value : TraceValue)
      → Step random c (record c { trace = (finished start value c.trace).1 })
  writes :
      (c : ExecutionContext) (state : StoredState)
      → IsStored state
      → Step random c (record c { state = state })
  enters :
      (c : ExecutionContext) (task : TaskContext) → Step random c (record c { task_context = task })
  clones :
      (c d : ExecutionContext) (copy_trace : Bool)
      → clone_context random copy_trace c ≡ ok d
      → Step random c d

-- A context that a reset and further operations have made.
pub data Made (random : Random) : ExecutionContext → Type 0 where
  resets : (value : Option ℤ) → Made random (reset random value)
  steps : {c d : ExecutionContext} → Made random c → Step random c d → Made random d

-- A trace of started and finished events whose next id is the one that they give.
pub record IsTrace (trace : ExecutionTrace) : Type 0 where
  pub events : All IsEvent trace.events
  pub exact : IsExact trace

pub record IsContext (random : Random) (context : ExecutionContext) : Type 0 where
  pub stored : IsStored context.state
  pub generated : random.Generated context.rng
  pub traced : IsTrace context.trace

new_trace-IsTrace : IsTrace new_trace
unfolding new_trace
new_trace-IsTrace = record { events = tt; exact = refl }

All-last :
    (events : List TraceEvent) (e : TraceEvent)
    → All IsEvent events
    → IsEvent e
    → All IsEvent (events ++ e ∷ [])
All-last [] e all h = (h, tt)
All-last (d ∷ events) e all h = (all.0, All-last events e all.1 h)

appended-IsTrace :
    (e : TraceEvent) (trace : ExecutionTrace)
    → IsTrace trace
    → IsEvent e
    → id_of e ≡ trace.next_event_id
    → IsTrace (appended e trace)
appended-IsTrace e trace t h i = record {
  events = All-last trace.events e t.events h;
  exact = appended-IsExact e trace t.exact i;
}

started-IsTrace :
    (id : Text) (tags : List Text) (provenance : Option Text) (trace : ExecutionTrace)
    → IsTrace trace
    → IsTrace (started id tags provenance trace).1
unfolding started
started-IsTrace id tags provenance trace t = appended-IsTrace _ trace t refl refl

-- A summary is a scalar.
summary-scalar :
    (v : TraceValue) (r : PyValue) → trace_result_summary v ≡ ok r → validate_trace_result r ≡ ok tt
unfolding trace_result_summary validate_trace_result
summary-scalar v r e = elim (Option-cases v.trace_summary) [
  | inr (summary, given) ↦ ground (arith, given)
  | inl absent ↦ elim (Result-cases (validate_trace_result v.value)) [
    | inl (u, valid) ↦ ground (arith, absent)
    | inr (error, refused) ↦ ground (arith, absent)
  ]
]

finished-IsTrace :
    (start : PrimitiveStarted) (v : TraceValue) (trace : ExecutionTrace)
    → IsTrace trace
    → IsTrace (finished start v trace).1
unfolding finished
finished-IsTrace start v trace t = elim (Result-cases (trace_result_summary v)) [
  | inl (r, e) ↦ rw e (appended-IsTrace _ trace t (refl, summary-scalar v r e) refl)
  | inr (error, e) ↦ rw e t
]

empty-IsStored : IsStored empty
unfolding validate_json_value
empty-IsStored = record {
  extensions_json = refl;
  modifiers_json = refl;
  properties_json = refl;
  contributions_json = refl;
  locks_json = refl;
  timeline_json = refl;
}

same-context : (c d : ExecutionContext) → ok c ≡ ok d → c ≡ d
same-context c d e = cc

module _ (random : Random) where
  clone_rng-ok : (c : ExecutionContext) → IsContext random c → clone_rng random c.rng ≡ ok c.rng
  unfolding clone_rng from_state
  clone_rng-ok c h =
      simp (random.length-Generated c.rng h.generated, random.setstate-Generated c.rng h.generated)

  cloned-IsContext :
      (copy_trace : Bool) (c d : ExecutionContext)
      → IsContext random c
      → clone_context random copy_trace c ≡ ok d
      → IsContext random d
  unfolding clone_context
  cloned-IsContext true c d h e =
      let same : clone_context random true c ≡ ok c = simp (
        clone-of_stored c.state h.stored,
        clone_rng-ok c h,
        clone_trace-of_exact c.trace h.traced.exact,
        clone_context,
      ) in
      subst (IsContext random) (same-context c d (sym same ∙ e)) h
  cloned-IsContext false c d h e =
      let fresh : clone_context random false c ≡ ok (record c { trace = new_trace }) =
        simp (clone-of_stored c.state h.stored, clone_rng-ok c h, clone_context) in
      subst (IsContext random) (same-context (record c { trace = new_trace }) d (sym fresh ∙ e))
        (record { stored = h.stored; generated = h.generated; traced = new_trace-IsTrace })

  step-IsContext :
      {c d : ExecutionContext} → Step random c d → IsContext random c → IsContext random d
  unfolding seed next_u64 randint uniform
  step-IsContext (seeds c value) h = record {
    stored = h.stored;
    generated = random.seeded-Generated value;
    traced = h.traced;
  }
  step-IsContext (draws c) h = record {
    stored = h.stored;
    generated = random.getrandbits64-Generated c.rng h.generated;
    traced = h.traced;
  }
  step-IsContext (draws_int c low high) h = record {
    stored = h.stored;
    generated = random.randint-Generated low high c.rng h.generated;
    traced = h.traced;
  }
  step-IsContext (draws_float c low high) h = record {
    stored = h.stored;
    generated = random.uniform-Generated low high c.rng h.generated;
    traced = h.traced;
  }
  step-IsContext (starts c id tags provenance) h = record {
    stored = h.stored;
    generated = h.generated;
    traced = started-IsTrace id tags provenance c.trace h.traced;
  }
  step-IsContext (ends c start value) h = record {
    stored = h.stored;
    generated = h.generated;
    traced = finished-IsTrace start value c.trace h.traced;
  }
  step-IsContext (writes c state stored) h = record {
    stored = stored;
    generated = h.generated;
    traced = h.traced;
  }
  step-IsContext (enters c task) h = record {
    stored = h.stored;
    generated = h.generated;
    traced = h.traced;
  }
  step-IsContext (clones c d copy_trace e) h = cloned-IsContext copy_trace c d h e

  pub Made-IsContext : {c : ExecutionContext} → Made random c → IsContext random c
  unfolding reset
  Made-IsContext (resets value) = record {
    stored = empty-IsStored;
    generated = random.seeded-Generated value;
    traced = new_trace-IsTrace;
  }
  Made-IsContext (steps made step) = step-IsContext step (Made-IsContext made)
