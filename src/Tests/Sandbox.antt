-- ===== src/Tests/Sandbox.antt =====
-- The sandbox: a generator, a trace of one primitive, a snapshot, and a registry of one primitive.
use hsr_battle_agent.Base.{
  All, Bool-cases, List, Option, [], arith, false, frozen_registry, if◌then◌else◌, inl, inr, length,
  none, ok, raise, refl, some, suc, sym, true, type_error, value_error, zero, ℕ, ◌||◌, ◌∙◌, ◌∷◌,
  ◌≡◌, ◌≢◌, ◌⊎◌,
}
use hsr_battle_agent.Base.Float.{nan}
use hsr_battle_agent.Base.Int.{pos, ℤ, ◌+ℤ◌}
use hsr_battle_agent.Base.Text.{Text, codes, eqb_text, eqb_text_iff}
use hsr_battle_agent.Json.{
  Fields, array, boolean, deep_copy_json_value, dict, end, field, integer, item, name, none_left,
  real, tuple, validate_json_value,
}
use hsr_battle_agent.Sandbox.Executor.{Context, Implementation, execute}
use hsr_battle_agent.Sandbox.Executor.Calls.{Outcome, execute-Ran, execute-same}
use hsr_battle_agent.Sandbox.Executor.Events.{Recording}
use hsr_battle_agent.Sandbox.Primitive.{Inputs, PrimitiveCall, PrimitiveSpec, input}
use hsr_battle_agent.Sandbox.Primitive.Arguments.{SameInputs}
use hsr_battle_agent.Sandbox.Registry.{
  PrimitiveRegistry, create_default, register, resolve_primitive,
}
use hsr_battle_agent.Sandbox.Registry.Bound.{create_default-resolves}
use hsr_battle_agent.Sandbox.Registry.Entries.{bound, id_of_pair}
use hsr_battle_agent.Sandbox.Rng.{Random, next_u64}
use hsr_battle_agent.Sandbox.Snapshot.{
  reset, ExecutionContext, SandboxSnapshot, capture_snapshot, new_trace, no_entities,
  restore_context,
}
use hsr_battle_agent.Sandbox.Snapshot.Made.{Made, draws, ends, resets, starts, steps, writes}
use hsr_battle_agent.Sandbox.Snapshot.RoundTrip.{all_finite, restore-capture}
use hsr_battle_agent.Sandbox.StoredState.{StoredState, empty, from_dict, to_dict}
use hsr_battle_agent.Sandbox.StoredState.RoundTrip.{
  IsStored, from_dict-stored_at, stored_at, upgraded,
}
use hsr_battle_agent.Sandbox.Trace.{PrimitiveStarted, TraceValue, finished, started}
use hsr_battle_agent.Sandbox.Trace.Stored.{Conversions}
use mathlib.Core.List.{append-nil}

abbrev zeros : ℕ → List ℤ
zeros zero = []
zeros (suc n) = pos 0 ∷ zeros n

-- A generator that counts its draws in its version.
abbrev counting : Random
counting = record {
  seeded = λ seed. record { version = pos 3; internal = zeros 625; gauss_next = none };
  getrandbits64 = λ s. (7, record s { version = s.version +ℤ pos 1 });
  randint = λ low high s. (ok low, s);
  uniform = λ low high s. (low, s);
  setstate = λ s. ok s;
  Generated = λ s. (length s.internal ≡ 625) × (s.gauss_next ≡ none);
  seeded-Generated = λ seed. (refl, refl);
  getrandbits64-Generated = λ s h. h;
  randint-Generated = λ low high s h. h;
  uniform-Generated = λ low high s h. h;
  gauss-Generated = λ s h. h.1;
  setstate-Generated = λ s h. refl;
  length-Generated = λ s h. h.0;
}

abbrev conversions : Conversions
conversions = record { str_of = λ v. codes "None"; int_of_text = λ t. raise value_error }

abbrev fields : Fields
fields =
    field (name (codes "round")) (integer (pos 2))
      (field (name (codes "flags")) (array (item (boolean true) end)) none_left)

abbrev stored : StoredState
stored = record empty { extensions = fields }

stored-IsStored : IsStored stored
unfolding validate_json_value
stored-IsStored = record {
  extensions_json = refl;
  modifiers_json = refl;
  properties_json = refl;
  contributions_json = refl;
  locks_json = refl;
  timeline_json = refl;
}

from_dict-stored_at_example :
    (to_dict stored ≡ ok (stored_at 4 stored))
    × (from_dict (dict (stored_at 2 stored)) ≡ ok (upgraded 2 stored))
from_dict-stored_at_example =
    from_dict-stored_at 2 stored (omega arith) (omega arith) stored-IsStored

-- A copy refuses a tuple inside a list, and a NaN.
refused : deep_copy_json_value (array (item (tuple end) end)) ≡ raise type_error
unfolding deep_copy_json_value
refused = refl

abbrev id : Text
id = codes "p"

abbrev five : TraceValue
five = record { value = integer (pos 5); trace_summary = none; type_name = codes "int" }

-- After a reset, a draw and a write, with one call in the trace.
abbrev fresh : ExecutionContext
fresh = reset counting none

abbrev drawn : ExecutionContext
drawn = record fresh { rng = (next_u64 counting fresh.rng).1 }

abbrev written : ExecutionContext
written = record drawn { state = stored }

abbrev begun : ExecutionContext
begun = record written { trace = (started id (codes "int" ∷ []) none written.trace).1 }

abbrev start_event : PrimitiveStarted
start_event = (started id (codes "int" ∷ []) none written.trace).0

abbrev context : ExecutionContext
context = record begun { trace = (finished start_event five begun.trace).1 }

context-Made : Made counting context
context-Made =
    steps
      (steps (steps (steps (resets none) (draws fresh)) (writes drawn stored stored-IsStored))
        (starts written id (codes "int" ∷ []) none))
      (ends begun start_event five)

restore-capture_example :
    ((all_finite context.trace.events ≡ true)
      × ((snapshot : SandboxSnapshot) × (capture_snapshot context ≡ ok snapshot)
          × (restore_context counting conversions snapshot
              ≡ ok (record context { task_context = no_entities }))))
    ⊎ ((all_finite context.trace.events ≡ false) × (capture_snapshot context ≡ raise value_error))
restore-capture_example = restore-capture counting conversions context context-Made

-- The same call with the result NaN cannot be captured.
abbrev spoiled : ExecutionContext
spoiled = record begun {
  trace =
      (finished start_event
        (record { value = real nan; trace_summary = none; type_name = codes "float" })
        begun.trace).1;
}

spoiled-refused : capture_snapshot spoiled ≡ raise value_error
unfolding capture_snapshot reset started finished next_u64
spoiled-refused = refl

-- A primitive of two inputs that returns the first, a number, or raises.
abbrev spec : PrimitiveSpec
spec = record {
  primitive_id = id;
  semantic_name = id;
  input_names = codes "a" ∷ codes "b" ∷ [];
  result = codes "int32";
}

abbrev first_value : Implementation ℕ ℕ
first_value ((n, zero) ∷ inputs) c = (raise value_error, c)
first_value ((n, suc v) ∷ inputs) c = (ok v, c)
first_value [] c = (raise value_error, c)

first_value-Recording : Recording first_value
first_value-Recording ((n, zero) ∷ inputs) c = ([], sym (append-nil c.trace.events))
first_value-Recording ((n, suc v) ∷ inputs) c = ([], sym (append-nil c.trace.events))
first_value-Recording [] c = ([], sym (append-nil c.trace.events))

abbrev registry : PrimitiveRegistry (Implementation ℕ ℕ)
registry = record {
  entries = record { spec = spec; implementation = first_value; provenance_ref = none } ∷ [];
  frozen = true;
}

abbrev describe : ℕ → TraceValue
describe n = record { value = integer (pos n); trace_summary = none; type_name = codes "int" }

abbrev input_tag : ℕ → Text
input_tag n = codes "int"

abbrev inputs_ab : Inputs ℕ
inputs_ab = (codes "a", 3) ∷ (codes "b", 4) ∷ []

abbrev inputs_ba : Inputs ℕ
inputs_ba = (codes "b", 4) ∷ (codes "a", 3) ∷ []

abbrev call : PrimitiveCall ℕ
call = record { primitive_id = id; arguments = inputs_ba }

abbrev start : Context ℕ
start = record { state = 0; trace = new_trace }

execute-Ran_example :
    Outcome describe input_tag registry call start (execute describe input_tag registry call start)
execute-Ran_example = execute-Ran describe input_tag registry call start (first_value-Recording, tt)

a-not-b : codes "a" ≢ codes "b"
unfolding eqb_text
a-not-b e = let same_text : eqb_text (codes "a") (codes "b") ≡ true = (eqb_text_iff _ _).1 e in cc

same : SameInputs inputs_ab inputs_ba
unfolding input
same n = elim (Bool-cases (eqb_text (codes "a") n)) [
  | inl a ↦ elim (Bool-cases (eqb_text (codes "b") n)) [
    | inl b ↦ absurd (a-not-b ((eqb_text_iff _ n).0 a ∙ sym ((eqb_text_iff _ n).0 b)))
    | inr b ↦ rw (a, b)
  ]
  | inr a ↦ rw a
]

execute-same_example :
    execute describe input_tag registry (record { primitive_id = id; arguments = inputs_ab }) start
    ≡ execute describe input_tag registry
        (record { primitive_id = id; arguments = inputs_ba })
        start
execute-same_example = execute-same describe input_tag registry id inputs_ab inputs_ba start same

abbrev other_spec : PrimitiveSpec
other_spec = record spec { primitive_id = codes "q" }

abbrev recovered : List (PrimitiveSpec × Text)
recovered = (other_spec, codes "batch") ∷ []

abbrev bindings : Text → Option (Implementation ℕ ℕ)
bindings n = if eqb_text n id || eqb_text n (codes "q") then some first_value else none

create_default-resolves_example :
    (registry : PrimitiveRegistry (Implementation ℕ ℕ)) × (create_default bindings
        ((spec, codes "batch") ∷ recovered)
      ≡ ok registry)
    × All
        (λ q.
          (i : Implementation ℕ ℕ) × (bindings (id_of_pair q) ≡ some i)
          × (resolve_primitive registry (id_of_pair q) ≡ ok (bound q i)))
        ((spec, codes "batch") ∷ recovered)
    × ((spec : PrimitiveSpec) (i : Implementation ℕ ℕ) (provenance : Option Text)
        → register spec i provenance registry ≡ (raise frozen_registry, registry))
unfolding eqb_text
create_default-resolves_example =
    create_default-resolves bindings (spec, codes "batch") recovered
      ((first_value, refl), ((first_value, refl), tt)) ((refl, tt), (tt, tt))
