-- ===== src/Tests/Calls.antt =====
-- A world of one entity with one entry, and source operations on it.
use hsr_battle_agent.Base.{
  Bool-cases, [], ap, inl, inr, none, property_entry_not_found, raise, refl, some, ◌∷◌, ◌≡◌, Error,
  type_error, ◌⊎◌,
}
use hsr_battle_agent.Base.Dict.{Dict, int_eq, lookup}
use hsr_battle_agent.Base.Int.{pos}
use hsr_battle_agent.Component.{component_stack_source_to, rewrite_entry_to}
use hsr_battle_agent.Component.Invariant.{SourceCall, run_call, run_call-AllValid, run_call-others}
use hsr_battle_agent.Component.Sinks.{Stopped, Told, run_call_to, run_call_to-Told, spec_of}
use hsr_battle_agent.Component.Laws.{AllValid}
use hsr_battle_agent.FixPoint.{validate_raw}
use hsr_battle_agent.Modifier.{ref_eq}
use hsr_battle_agent.Property.{PropertyEntry}
use hsr_battle_agent.Property.Valid.{IsValid}
use hsr_battle_agent.State.{
  BattleState, PropertyKey, World, entry_from_state, key_eq, property_entry_key, emit_boundary_to,
  BoundarySink, callable,
}
use hsr_battle_agent.Targets.{EntityRef}
use hsr_battle_agent.Tests.Entries.{three_slots, three_slots-IsValid}
use hsr_battle_agent.Tests.Numbers.{one}

abbrev pub hero : EntityRef
hero = record { runtime_id = pos 7 }

abbrev pub state_with : PropertyEntry → BattleState
state_with entry = record {
  extensions = [];
  modifier_state_by_entity = [];
  entity_property_entries = (property_entry_key hero (pos 3), entry) ∷ [];
  modifier_property_contributions = [];
  component_lock_hp_records = [];
  turn_timeline = none;
}

abbrev pub world_with : PropertyEntry → World
world_with entry = record {
  state = state_with entry;
  boundaries = some [];
  hp_boundaries = some [];
}

abbrev pub start : World
start = world_with (three_slots 3)

none-ne-some : (entry : PropertyEntry) → none ≡ some entry → ⊥
none-ne-some entry e = cc

some-entry : (a b : PropertyEntry) → some a ≡ some b → a ≡ b
some-entry a b e = cc

-- Every value of a dict of entries is well-formed.
abbrev pub ValidDict : Dict PropertyKey PropertyEntry → Type 0
ValidDict d =
    (key : PropertyKey) (entry : PropertyEntry) → lookup key d ≡ some entry → IsValid entry

pub ValidDict-nil : ValidDict []
unfolding lookup
ValidDict-nil key entry found = absurd (none-ne-some entry found)

pub ValidDict-cons :
    (stored : PropertyKey) (value : PropertyEntry) (d : Dict PropertyKey PropertyEntry)
    → IsValid value
    → ValidDict d
    → ValidDict ((stored, value) ∷ d)
unfolding lookup
ValidDict-cons stored value d h rest key entry found = elim (Bool-cases (key_eq.beq key stored)) [
  | inl same ↦
      let e : some value ≡ some entry = (rw (same, lookup) at found) in
      rw (← some-entry value entry e) h
  | inr other ↦ rest key entry (rw (other, lookup) at found)
]

pub start-AllValid : AllValid start.state
start-AllValid =
    ValidDict-cons (property_entry_key hero (pos 3)) (three_slots 3) [] (three_slots-IsValid 3)
      ValidDict-nil

-- The entity has no property 4.
missing_property :
    (run_call (SourceCall.stack hero (pos 4) one) start).0 ≡ raise property_entry_not_found
unfolding run_call component_stack_source_to rewrite_entry_to emit_boundary_to validate_raw
    entry_from_state lookup
missing_property = refl

-- A sink that raises, after the entry has been stored.
abbrev raising : BoundarySink
raising = callable (λ boundary w. (raise type_error, w))

run_call_to-Told_example :
    (Stopped (spec_of (SourceCall.stack hero (pos 3) one)) start
      × ((e : Error) × (run_call_to raising (SourceCall.stack hero (pos 3) one) start
            ≡ (raise e, start))))
    ⊎ Told raising
        (spec_of (SourceCall.stack hero (pos 3) one))
        start
        (run_call_to raising (SourceCall.stack hero (pos 3) one) start)
run_call_to-Told_example = run_call_to-Told raising (SourceCall.stack hero (pos 3) one) start

four-ne-three : pos 4 ≡ pos 3 → ⊥
four-ne-three e = cc

run_call-others_example :
    lookup
      (property_entry_key hero (pos 4))
      (run_call (SourceCall.stack hero (pos 3) one) start).1.state.entity_property_entries
    ≡ lookup (property_entry_key hero (pos 4)) start.state.entity_property_entries
run_call-others_example =
    run_call-others (SourceCall.stack hero (pos 3) one) start (property_entry_key hero (pos 4))
      (λ e. four-ne-three (ap (λ k. k.property_id) e))

run_call-AllValid_example : AllValid (run_call (SourceCall.stack hero (pos 3) one) start).1.state
run_call-AllValid_example =
    run_call-AllValid (SourceCall.stack hero (pos 3) one) start start-AllValid
