-- ===== src/Sandbox/StoredState/RoundTrip.antt =====
-- src/hsr_battle_agent/battle_sandbox/state.py: the dict form is read back, from every schema version.
use hsr_battle_agent.Base.{
  Bool-cases, arith, if◌then◌else◌, inl, inr, leb, ok, refl, suc, zero, ℕ, ◌∙◌, ◌≡◌, ◌≤◌,
}
use hsr_battle_agent.Base.Text.{eqb_text}
use hsr_battle_agent.Json.{Fields, dict, none_left, validate_json_value}
use hsr_battle_agent.Json.Copy.{copy_fields-of_valid}
use hsr_battle_agent.Sandbox.StoredState.{
  StoredState, build, clone, contributions_key, copy_dict, equals_number, extensions_key,
  from_current, from_dict, from_v1, from_v2, get, get_dict, locks_key, modifiers_key, one_of,
  post_init, properties_key, put, refuse_unknown, timeline_key, to_dict, versioned,
}

-- Each of the six dicts is a strict JSON value.
pub record IsStored (s : StoredState) : Type 0 where
  pub extensions_json : validate_json_value (dict s.extensions) ≡ ok tt
  pub modifiers_json : validate_json_value (dict s.modifier_state_by_entity) ≡ ok tt
  pub properties_json : validate_json_value (dict s.entity_property_entries) ≡ ok tt
  pub contributions_json : validate_json_value (dict s.modifier_property_contributions) ≡ ok tt
  pub locks_json : validate_json_value (dict s.component_lock_hp_records) ≡ ok tt
  pub timeline_json : validate_json_value (dict s.turn_timeline) ≡ ok tt

pub copy_dict-of_valid :
    (fs : Fields) → validate_json_value (dict fs) ≡ ok tt → copy_dict fs ≡ ok fs
unfolding copy_dict
copy_dict-of_valid fs h = rw (h, copy_fields-of_valid fs h)

pub post_init-of_stored : (s : StoredState) → IsStored s → post_init s ≡ ok s
unfolding post_init
post_init-of_stored s v = simp (
  copy_dict-of_valid s.extensions v.extensions_json,
  copy_dict-of_valid s.modifier_state_by_entity v.modifiers_json,
  copy_dict-of_valid s.entity_property_entries v.properties_json,
  copy_dict-of_valid s.modifier_property_contributions v.contributions_json,
  copy_dict-of_valid s.component_lock_hp_records v.locks_json,
  copy_dict-of_valid s.turn_timeline v.timeline_json,
)

pub clone-of_stored : (s : StoredState) → IsStored s → clone s ≡ ok s
unfolding clone
clone-of_stored s v = simp (post_init-of_stored s v)

-- The parts that a schema version has.
abbrev pub stored_at : ℕ → StoredState → Fields
stored_at version s = versioned version (
    put extensions_key s.extensions (
      if leb 2 version
      then put modifiers_key s.modifier_state_by_entity (
          if leb 3 version
          then put properties_key s.entity_property_entries (
              put contributions_key s.modifier_property_contributions (
                put locks_key s.component_lock_hp_records (
                  if leb 4 version then put timeline_key s.turn_timeline none_left else none_left)))
          else none_left)
      else none_left))

abbrev pub part_since : ℕ → ℕ → Fields → Fields
part_since since version part = if leb since version then part else none_left

-- A state whose parts beyond the schema version are empty.
abbrev pub upgraded : ℕ → StoredState → StoredState
upgraded version s = record {
  extensions = s.extensions;
  modifier_state_by_entity = part_since 2 version s.modifier_state_by_entity;
  entity_property_entries = part_since 3 version s.entity_property_entries;
  modifier_property_contributions = part_since 3 version s.modifier_property_contributions;
  component_lock_hp_records = part_since 3 version s.component_lock_hp_records;
  turn_timeline = part_since 4 version s.turn_timeline;
}

part_since-json :
    (since version : ℕ) (fs : Fields)
    → validate_json_value (dict fs) ≡ ok tt
    → validate_json_value (dict (part_since since version fs)) ≡ ok tt
unfolding validate_json_value
part_since-json since version fs h = elim (Bool-cases (leb since version)) [
  | inl e ↦ rw e h
  | inr e ↦ rw e
]

upgraded-IsStored : (version : ℕ) (s : StoredState) → IsStored s → IsStored (upgraded version s)
upgraded-IsStored version s v = record {
  extensions_json = v.extensions_json;
  modifiers_json = part_since-json 2 version _ v.modifiers_json;
  properties_json = part_since-json 3 version _ v.properties_json;
  contributions_json = part_since-json 3 version _ v.contributions_json;
  locks_json = part_since-json 3 version _ v.locks_json;
  timeline_json = part_since-json 4 version _ v.timeline_json;
}

from_dict-build :
    (version : ℕ) (s : StoredState)
    → 1 ≤ version
    → version ≤ 4
    → from_dict (dict (stored_at version s)) ≡ clone (upgraded version s)
unfolding from_dict get get_dict refuse_unknown one_of eqb_text equals_number from_v1 from_v2
    from_current build
from_dict-build zero s low high = absurd (omega arith)
from_dict-build (suc zero) s low high = refl
from_dict-build (suc (suc zero)) s low high = refl
from_dict-build (suc (suc (suc zero))) s low high = refl
from_dict-build (suc (suc (suc (suc zero)))) s low high = refl
from_dict-build (suc (suc (suc (suc (suc n))))) s low high = absurd (omega arith)

-- For a state of strict JSON dicts, to_dict writes the form of schema version 4, and from_dict reads the
-- form of each version from 1 to 4: at 4 it gives the state back, and at an older one the state whose
-- later parts are empty.
pub from_dict-stored_at :
    (version : ℕ) (s : StoredState)
    → 1 ≤ version
    → version ≤ 4
    → IsStored s
    → (to_dict s ≡ ok (stored_at 4 s))
      × (from_dict (dict (stored_at version s)) ≡ ok (upgraded version s))
unfolding to_dict
from_dict-stored_at version s low high v = (
  simp (post_init-of_stored s v),
  from_dict-build version s low high
      ∙ clone-of_stored (upgraded version s) (upgraded-IsStored version s v),
)
