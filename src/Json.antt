-- ===== src/Json.antt =====
-- src/hsr_battle_agent/battle_sandbox/state.py: the strict JSON values of the sandbox, with their check
-- (validate_json_value) and their copy (deep_copy_json_value). A dict is its items in insertion order.
pub mod Copy
use hsr_battle_agent.Base.{
  Bool, Result, false, guard, ok, raise, true, type_error, value_error, ◌>>=◌, ◌>>◌,
}
use hsr_battle_agent.Base.Float.{Float, finite, infinite, nan}
use hsr_battle_agent.Base.Int.{ℤ}
use hsr_battle_agent.Base.Text.{Text}

-- A key of a dict: a string, or an object of another class.
pub data Key : Type 0 where
  name : Text → Key
  foreign : Key

-- A Python value as the check tells it apart; `opaque` is an object of any other class.
mutual
  pub data PyValue : Type 0 where
    null : PyValue
    boolean : Bool → PyValue
    integer : ℤ → PyValue
    real : Float → PyValue
    str : Text → PyValue
    array : Items → PyValue
    tuple : Items → PyValue
    dict : Fields → PyValue
    opaque : PyValue

  pub data Items : Type 0 where
    end : Items
    item : PyValue → Items → Items

  pub data Fields : Type 0 where
    none_left : Fields
    field : Key → PyValue → Fields → Fields

-- `math.isfinite`
abbrev pub is_finite : Float → Bool
is_finite nan = false
is_finite (infinite negative) = false
is_finite (finite negative m) = true

abbrev pub is_name : Key → Bool
is_name (name t) = true
is_name foreign = false

-- `validate_json_value`
unfoldable mutual
  pub validate_json_value : PyValue → Result (Unit {0})
  validate_json_value null = ok tt
  validate_json_value (boolean b) = ok tt
  validate_json_value (integer n) = ok tt
  validate_json_value (str s) = ok tt
  validate_json_value (real f) = guard (is_finite f) value_error
  validate_json_value (dict fields) = validate_fields fields
  validate_json_value (tuple items) = raise type_error
  validate_json_value (array items) = validate_items items
  validate_json_value opaque = raise type_error

  pub validate_items : Items → Result (Unit {0})
  validate_items end = ok tt
  validate_items (item value items) = validate_json_value value >> validate_items items

  pub validate_fields : Fields → Result (Unit {0})
  validate_fields none_left = ok tt
  validate_fields (field key value fields) =
      guard (is_name key) type_error >> (validate_json_value value >> validate_fields fields)

-- `deep_copy_json_value`: the value is checked, and each part is checked again as it is copied.
unfoldable mutual
  unfolding validate_json_value validate_items validate_fields

  pub deep_copy_json_value : PyValue → Result PyValue
  deep_copy_json_value (dict fields) = do
    validate_json_value (dict fields)
    copied ← copy_fields fields
    ok (dict copied)
  deep_copy_json_value (array items) = do
    validate_json_value (array items)
    copied ← copy_items items
    ok (array copied)
  deep_copy_json_value null = validate_json_value null >> ok null
  deep_copy_json_value (boolean b) = validate_json_value (boolean b) >> ok (boolean b)
  deep_copy_json_value (integer n) = validate_json_value (integer n) >> ok (integer n)
  deep_copy_json_value (real f) = validate_json_value (real f) >> ok (real f)
  deep_copy_json_value (str s) = validate_json_value (str s) >> ok (str s)
  deep_copy_json_value (tuple items) = validate_json_value (tuple items) >> ok (tuple items)
  deep_copy_json_value opaque = validate_json_value opaque >> ok opaque

  pub copy_items : Items → Result Items
  copy_items end = ok end
  copy_items (item value items) = do
    copied ← deep_copy_json_value value
    rest ← copy_items items
    ok (item copied rest)

  pub copy_fields : Fields → Result Fields
  copy_fields none_left = ok none_left
  copy_fields (field key value fields) = do
    copied ← deep_copy_json_value value
    rest ← copy_fields fields
    ok (field key copied rest)
