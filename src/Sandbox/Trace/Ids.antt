-- ===== src/Sandbox/Trace/Ids.antt =====
-- src/hsr_battle_agent/battle_sandbox/trace.py: the ids of a trace grow, and the next id is beyond them.
use hsr_battle_agent.Base.{
  List, Option, Result-cases, [], ap, arith, inl, inr, refl, sym, ◌++◌, ◌∙◌, ◌∷◌, ◌≡◌,
}
use hsr_battle_agent.Base.Int.{int_laws, pos, ℤ, ◌+ℤ◌, ◌≤ℤ◌}
use hsr_battle_agent.Base.Text.{Text}
use hsr_battle_agent.Sandbox.Trace.{
  ExecutionTrace, PrimitiveStarted, TraceEvent, TraceValue, appended, clone_trace, finished,
  greatest_id, id_of, max_ℤ, next_of, of_events, started, trace_result_summary,
}
use mathlib.Core.Path.{subst}

-- The ids from `low` on grow strictly, and stay below `next`.
abbrev pub Growing : ℤ → List TraceEvent → ℤ → Type 0
Growing low [] next = low ≤ℤ next
Growing low (e ∷ events) next = (low ≤ℤ id_of e) × Growing (id_of e +ℤ pos 1) events next

-- A trace whose ids are positive, grow, and stay below the next one.
abbrev pub IsOrdered : ExecutionTrace → Type 0
IsOrdered trace = Growing (pos 1) trace.events trace.next_event_id

Growing-append :
    (low : ℤ) (events : List TraceEvent) (next : ℤ) (e : TraceEvent)
    → Growing low events next
    → id_of e ≡ next
    → Growing low (events ++ e ∷ []) (next +ℤ pos 1)
Growing-append low [] next e h i = (
  subst (λ x. low ≤ℤ x) (sym i) h,
  subst (λ x. (x +ℤ pos 1) ≤ℤ (next +ℤ pos 1)) (sym i) (omega arith),
)
Growing-append low (d ∷ events) next e h i =
    (h.0, Growing-append (id_of d +ℤ pos 1) events next e h.1 i)

pub appended-IsOrdered :
    (e : TraceEvent) (trace : ExecutionTrace)
    → IsOrdered trace
    → id_of e ≡ trace.next_event_id
    → IsOrdered (appended e trace)
appended-IsOrdered e trace h i = Growing-append (pos 1) trace.events trace.next_event_id e h i

pub started-IsOrdered :
    (id : Text) (tags : List Text) (provenance : Option Text) (trace : ExecutionTrace)
    → IsOrdered trace
    → IsOrdered (started id tags provenance trace).1
unfolding started
started-IsOrdered id tags provenance trace h = appended-IsOrdered _ trace h refl

-- `finished` keeps the order whether it returns or raises.
pub finished-IsOrdered :
    (start : PrimitiveStarted) (v : TraceValue) (trace : ExecutionTrace)
    → IsOrdered trace
    → IsOrdered (finished start v trace).1
unfolding finished
finished-IsOrdered start v trace h = elim (Result-cases (trace_result_summary v)) [
  | inl (r, e) ↦ rw e (appended-IsOrdered _ trace h refl)
  | inr (error, e) ↦ rw e h
]

greatest_id-append :
    (best : ℤ) (events : List TraceEvent) (e : TraceEvent)
    → greatest_id best (events ++ e ∷ []) ≡ max_ℤ (greatest_id best events) (id_of e)
unfolding greatest_id
greatest_id-append best [] e = refl
greatest_id-append best (d ∷ events) e = greatest_id-append (max_ℤ best (id_of d)) events e

max_ℤ-le : (a b : ℤ) → a ≤ℤ b → max_ℤ a b ≡ b
max_ℤ-le a b h = ground arith

le-suc : (a : ℤ) → a ≤ℤ (a +ℤ pos 1)
le-suc a = omega int_laws

max_ℤ-suc : (a b : ℤ) → b ≡ a +ℤ pos 1 → max_ℤ a b ≡ b
max_ℤ-suc a b e = max_ℤ-le a b (subst (λ x. a ≤ℤ x) (sym e) (le-suc a))

next_of-append :
    (events : List TraceEvent) (e : TraceEvent)
    → id_of e ≡ next_of events
    → next_of (events ++ e ∷ []) ≡ next_of events +ℤ pos 1
unfolding next_of greatest_id
next_of-append [] e i = ap (λ x. x +ℤ pos 1) i
next_of-append (d ∷ events) e i =
    ap (λ x. x +ℤ pos 1)
      (greatest_id-append (id_of d) events e
        ∙ max_ℤ-suc (greatest_id (id_of d) events) (id_of e) i
        ∙ i)

-- The next id is the one that the events themselves give.
abbrev pub IsExact : ExecutionTrace → Type 0
IsExact trace = trace.next_event_id ≡ next_of trace.events

pub appended-IsExact :
    (e : TraceEvent) (trace : ExecutionTrace)
    → IsExact trace
    → id_of e ≡ trace.next_event_id
    → IsExact (appended e trace)
appended-IsExact e trace h i = ap (λ x. x +ℤ pos 1) h ∙ sym (next_of-append trace.events e (i ∙ h))

pub of_events-exact : (trace : ExecutionTrace) → IsExact trace → of_events trace.events ≡ trace
unfolding of_events
of_events-exact trace h = λ i. record { events = trace.events; next_event_id = sym h i }

pub clone_trace-of_exact : (trace : ExecutionTrace) → IsExact trace → clone_trace trace ≡ trace
unfolding clone_trace of_events
clone_trace-of_exact trace h = λ i. record { events = trace.events; next_event_id = sym h i }
