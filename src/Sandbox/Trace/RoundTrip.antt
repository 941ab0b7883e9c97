-- ===== src/Sandbox/Trace/RoundTrip.antt =====
-- src/hsr_battle_agent/battle_sandbox/trace.py: a trace is read back from its dict form.
use hsr_battle_agent.Base.{
  All, List, Option, [], ap, false, none, ok, refl, some, sym, ◌>>=◌, ◌∙◌, ◌∷◌, ◌≡◌,
}
use hsr_battle_agent.Base.Text.{Text, eqb_text, eqb_text_iff}
use hsr_battle_agent.Json.{Fields, Items, dict, end, item, str}
use hsr_battle_agent.Sandbox.StoredState.{get}
use hsr_battle_agent.Sandbox.Trace.{
  ExecutionTrace, PrimitiveFinished, PrimitiveStarted, TraceEvent, finished_event, finished_name,
  of_events, started_event, started_name, validate_trace_result,
}
use hsr_battle_agent.Sandbox.Trace.Ids.{IsExact, of_events-exact}
use hsr_battle_agent.Sandbox.Trace.Stored.{
  Conversions, event_from_value, event_named, event_to_dict, events_from_items, finished_from_dict,
  item_texts, optional_text, started_from_dict, text_items, to_optional_text, trace_from_items,
}
use mathlib.Core.Path.{subst}

-- An event as the trace makes it: its name is that of its class, and its result is a scalar.
abbrev pub IsEvent : TraceEvent → Type 0
IsEvent (started_event e) = e.event ≡ started_name
IsEvent (finished_event e) = (e.event ≡ finished_name) × (validate_trace_result e.result ≡ ok tt)

abbrev event_name : TraceEvent → Text
event_name (started_event e) = e.event
event_name (finished_event e) = e.event

unfoldable pub event_items : List TraceEvent → Items
event_items [] = end
event_items (e ∷ events) = item (dict (event_to_dict e)) (event_items events)

module _ (conversions : Conversions) where
  item_texts-text_items : (ts : List Text) → item_texts conversions (text_items ts) ≡ ts
  unfolding item_texts text_items
  item_texts-text_items [] = refl
  item_texts-text_items (t ∷ ts) = ap (λ l. t ∷ l) (item_texts-text_items ts)

  optional_text-read : (t : Option Text) → to_optional_text conversions (some (optional_text t)) ≡ t
  optional_text-read none = refl
  optional_text-read (some t) = refl

  started-read :
      (e : PrimitiveStarted)
      → started_from_dict conversions (event_to_dict (started_event e)) ≡ ok e
  unfolding started_from_dict event_to_dict get eqb_text
  started-read e =
      simp (item_texts-text_items e.input_tags, optional_text-read e.semantic_provenance_ref)

  finished-read :
      (e : PrimitiveFinished)
      → validate_trace_result e.result ≡ ok tt
      → finished_from_dict conversions (event_to_dict (finished_event e)) ≡ ok e
  unfolding finished_from_dict event_to_dict get eqb_text
  finished-read e h = simp (h, optional_text-read e.semantic_provenance_ref)

  named-started :
      (t : Text) (stored : Fields) {e : PrimitiveStarted}
      → t ≡ started_name
      → started_from_dict conversions stored ≡ ok e
      → event_named conversions (some (str t)) stored ≡ ok (started_event e)
  unfolding event_named
  named-started t stored h r = rw ((eqb_text_iff t started_name).1 h, r)

  names-differ : (t : Text) → t ≡ finished_name → eqb_text t started_name ≡ false
  unfolding eqb_text
  names-differ t h = subst (λ x. eqb_text x started_name ≡ false) (sym h) refl

  named-finished :
      (t : Text) (stored : Fields) {e : PrimitiveFinished}
      → t ≡ finished_name
      → finished_from_dict conversions stored ≡ ok e
      → event_named conversions (some (str t)) stored ≡ ok (finished_event e)
  unfolding event_named
  named-finished t stored h r = rw (names-differ t h, (eqb_text_iff t finished_name).1 h, r)

  event_key-first :
      (e : TraceEvent)
      → event_from_value conversions (dict (event_to_dict e))
        ≡ event_named conversions (some (str (event_name e))) (event_to_dict e)
  unfolding event_from_value event_to_dict get eqb_text
  event_key-first (started_event e) = refl
  event_key-first (finished_event e) = refl

  event-read :
      (e : TraceEvent) → IsEvent e → event_from_value conversions (dict (event_to_dict e)) ≡ ok e
  event-read (started_event e) h =
      event_key-first (started_event e) ∙ named-started e.event _ h (started-read e)
  event-read (finished_event e) h =
      event_key-first (finished_event e) ∙ named-finished e.event _ h.0 (finished-read e h.1)

  pub events-read :
      (events : List TraceEvent)
      → All IsEvent events
      → events_from_items conversions (event_items events) ≡ ok events
  unfolding events_from_items event_items
  events-read [] h = refl
  events-read (e ∷ events) h = simp (event-read e h.0, events-read events h.1)

  pub trace-read :
      (trace : ExecutionTrace)
      → All IsEvent trace.events
      → IsExact trace
      → trace_from_items conversions (event_items trace.events) ≡ ok trace
  unfolding trace_from_items
  trace-read trace h exact =
      ap (λ r. r >>= λ events. ok (of_events events)) (events-read trace.events h)
      ∙ ap ok (of_events-exact trace exact)
