-- ===== src/Sandbox/StoredState.antt =====
-- src/hsr_battle_agent/battle_sandbox/state.py: BattleState as it is stored, six dicts of strict JSON
-- values, with its dict form and the older schemas that it is read from. A state that exists has
-- passed its constructor, so its schema version is the current one.
pub mod Extensions
pub mod RoundTrip
use hsr_battle_agent.Base.{
  Bool, List, Option, Result, [], false, guard, if◌then◌else◌, length, none, not, ok, raise, some,
  type_error, unsupported_state_version, value_error, ℕ, ◌*◌, ◌==◌, ◌>>=◌, ◌>>◌, ◌||◌, ◌∷◌,
}
use hsr_battle_agent.Base.Float.{eqb_Float, finite, unit}
use hsr_battle_agent.Base.Int.{eqb_ℤ, pos}
use hsr_battle_agent.Base.Text.{Text, codes, eqb_text}
use hsr_battle_agent.Json.{
  Fields, Items, Key, PyValue, array, boolean, copy_fields, deep_copy_json_value, dict, field,
  foreign, integer, is_name, name, none_left, real, validate_json_value,
}

pub record StoredState : Type 0 where
  pub extensions : Fields
  pub modifier_state_by_entity : Fields
  pub entity_property_entries : Fields
  pub modifier_property_contributions : Fields
  pub component_lock_hp_records : Fields
  pub turn_timeline : Fields

abbrev pub schema_key : Text
schema_key = codes "schema_version"

abbrev pub extensions_key : Text
extensions_key = codes "extensions"

abbrev pub modifiers_key : Text
modifiers_key = codes "modifier_state_by_entity"

abbrev pub properties_key : Text
properties_key = codes "entity_property_entries"

abbrev pub contributions_key : Text
contributions_key = codes "modifier_property_contributions"

abbrev pub locks_key : Text
locks_key = codes "component_lock_hp_records"

abbrev pub timeline_key : Text
timeline_key = codes "turn_timeline"

-- `deep_copy_json_value` of a dict
unfoldable pub copy_dict : Fields → Result Fields
unfolding validate_json_value copy_fields
copy_dict fields = validate_json_value (dict fields) >> copy_fields fields

-- `BattleState.__post_init__` at the current schema version, and `clone`, which copies once before it
unfoldable pub post_init : StoredState → Result StoredState
post_init s = do
  extensions ← copy_dict s.extensions
  modifiers ← copy_dict s.modifier_state_by_entity
  properties ← copy_dict s.entity_property_entries
  contributions ← copy_dict s.modifier_property_contributions
  locks ← copy_dict s.component_lock_hp_records
  timeline ← copy_dict s.turn_timeline
  ok (record {
    extensions = extensions;
    modifier_state_by_entity = modifiers;
    entity_property_entries = properties;
    modifier_property_contributions = contributions;
    component_lock_hp_records = locks;
    turn_timeline = timeline;
  })

unfoldable pub clone : StoredState → Result StoredState
unfolding post_init
clone s = post_init s >>= post_init

abbrev pub put : Text → Fields → Fields → Fields
put key value rest = field (name key) (dict value) rest

abbrev pub versioned : ℕ → Fields → Fields
versioned version rest = field (name schema_key) (integer (pos version)) rest

-- `to_dict`
unfoldable pub to_dict : StoredState → Result Fields
unfolding post_init
to_dict s = do
  copied ← post_init s
  ok (
      versioned 4 (
        put extensions_key copied.extensions (
          put modifiers_key copied.modifier_state_by_entity (
            put properties_key copied.entity_property_entries (
              put contributions_key copied.modifier_property_contributions (
                put locks_key copied.component_lock_hp_records
                  (put timeline_key copied.turn_timeline none_left)))))))

abbrev pub is_key : Text → Key → Bool
is_key key (name k) = eqb_text k key
is_key key foreign = false

-- `data.get(key)`
unfoldable pub get : Text → Fields → Option PyValue
unfolding eqb_text
get key none_left = none
get key (field k value fields) = if is_key key k then some value else get key fields

abbrev pub as_dict : PyValue → Result Fields
as_dict (dict fields) = ok fields
as_dict _ = raise type_error

-- `data.get(key, {})`, which has to be a dict
unfoldable pub get_dict : Text → Fields → Result Fields
unfolding get
get_dict key stored = elim (get key stored) [ none ↦ ok none_left | some value ↦ as_dict value ]

-- `value == number` of Python, where True is 1 and 2.0 is 2
unfoldable pub equals_number : ℕ → PyValue → Bool
unfolding eqb_Float unit
equals_number n (integer value) = eqb_ℤ value (pos n)
equals_number n (boolean b) = (if b then 1 else 0) == n
equals_number n (real f) = eqb_Float f (finite false (n * unit))
equals_number n _ = false

abbrev pub known_version : Option PyValue → Option ℕ
known_version none = none
known_version (some v) =
    if equals_number 4 v
    then some 4
    else if equals_number 1 v
    then some 1
    else if equals_number 2 v
    then some 2
    else if equals_number 3 v
    then some 3
    else none

unfoldable pub one_of : Key → List Text → Bool
unfolding eqb_text
one_of key [] = false
one_of key (k ∷ keys) = is_key k key || one_of key keys

-- `unknown = set(data) - allowed; if unknown: raise`, where a key that is no string breaks the message
unfoldable pub refuse_unknown : List Text → Fields → Result (Unit {0})
unfolding one_of
refuse_unknown allowed none_left = ok tt
refuse_unknown allowed (field key value fields) =
    let rest = refuse_unknown allowed fields in
    if one_of key allowed then rest else elim rest [
      | ok _ ↦ raise (if is_name key then value_error else type_error)
      | raise error ↦ raise (if is_name key then error else type_error)
    ]

-- `cls(...)` of values that are copied first
unfoldable pub build : StoredState → Result StoredState
unfolding clone
build s = clone s

abbrev pub empty : StoredState
empty = record {
  extensions = none_left;
  modifier_state_by_entity = none_left;
  entity_property_entries = none_left;
  modifier_property_contributions = none_left;
  component_lock_hp_records = none_left;
  turn_timeline = none_left;
}

unfoldable pub from_v1 : Fields → Result StoredState
unfolding refuse_unknown get_dict build
from_v1 stored = do
  refuse_unknown (schema_key ∷ extensions_key ∷ []) stored
  extensions ← get_dict extensions_key stored
  build (record empty { extensions = extensions })

unfoldable pub from_v2 : Fields → Result StoredState
unfolding refuse_unknown get_dict build
from_v2 stored = do
  refuse_unknown (schema_key ∷ extensions_key ∷ modifiers_key ∷ []) stored
  extensions ← get_dict extensions_key stored
  modifiers ← get_dict modifiers_key stored
  build (record empty { extensions = extensions; modifier_state_by_entity = modifiers })

abbrev pub v3_keys : List Text
v3_keys =
    schema_key ∷ extensions_key ∷ modifiers_key ∷ properties_key ∷ contributions_key ∷ locks_key
    ∷ []

-- Versions 3 and 4, which differ in the key of the timeline.
unfoldable pub from_current : List Text → Fields → Result StoredState
unfolding refuse_unknown get_dict build
from_current allowed stored = do
  refuse_unknown allowed stored
  extensions ← get_dict extensions_key stored
  modifiers ← get_dict modifiers_key stored
  properties ← get_dict properties_key stored
  contributions ← get_dict contributions_key stored
  locks ← get_dict locks_key stored
  timeline ← get_dict timeline_key stored
  build (record {
    extensions = extensions;
    modifier_state_by_entity = modifiers;
    entity_property_entries = properties;
    modifier_property_contributions = contributions;
    component_lock_hp_records = locks;
    turn_timeline = timeline;
  })

-- The reader of each version.
abbrev pub from_version : Option ℕ → Fields → Result StoredState
from_version none stored = raise unsupported_state_version
from_version (some version) stored =
    if version == 1
    then from_v1 stored
    else if version == 2
    then from_v2 stored
    else if version == 3
    then from_current v3_keys stored
    else from_current (timeline_key ∷ v3_keys) stored

-- `from_dict`
unfoldable pub from_dict : PyValue → Result StoredState
unfolding get equals_number from_v1 from_v2 from_current
from_dict (dict stored) = from_version (known_version (get schema_key stored)) stored
from_dict _ = raise type_error
