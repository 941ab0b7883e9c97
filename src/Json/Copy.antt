-- ===== src/Json/Copy.antt =====
-- src/hsr_battle_agent/battle_sandbox/state.py: the copy of a value that passes the check is that value.
use hsr_battle_agent.Base.{
  >>=-eq-ok, Result-cases, Error, raise, ap, guard, inl, inr, ok, refl, sym, type_error, ◌>>◌, ◌∙◌,
  ◌≡◌,
}
use hsr_battle_agent.Json.{
  PyValue, Items, Fields, null, boolean, integer, real, str, array, tuple, dict, opaque, end, item,
  none_left, field, validate_json_value, validate_items, validate_fields, deep_copy_json_value,
  copy_items, copy_fields, is_name,
}

mutual
  unfolding deep_copy_json_value copy_items copy_fields validate_json_value validate_items
      validate_fields

  pub copy-of_valid :
      (v : PyValue) {u : Unit {0}} → validate_json_value v ≡ ok u → deep_copy_json_value v ≡ ok v
  copy-of_valid (dict fs) h = rw (h, copy_fields-of_valid fs h)
  copy-of_valid (array is) h = rw (h, copy_items-of_valid is h)
  copy-of_valid null h = refl
  copy-of_valid (boolean b) h = refl
  copy-of_valid (integer n) h = refl
  copy-of_valid (real f) h = rw h
  copy-of_valid (str s) h = refl
  copy-of_valid (tuple is) h = cc
  copy-of_valid opaque h = cc

  pub copy_items-of_valid :
      (is : Items) {u : Unit {0}} → validate_items is ≡ ok u → copy_items is ≡ ok is
  copy_items-of_valid end h = refl
  copy_items-of_valid (item v is) h =
      let step = >>=-eq-ok (validate_json_value v) _ h in
      rw (copy-of_valid v step.1, copy_items-of_valid is step.2)

  pub copy_fields-of_valid :
      (fs : Fields) {u : Unit {0}} → validate_fields fs ≡ ok u → copy_fields fs ≡ ok fs
  copy_fields-of_valid none_left h = refl
  copy_fields-of_valid (field k v fs) h =
      let step = >>=-eq-ok (guard (is_name k) type_error) _ h in
      let next = >>=-eq-ok (validate_json_value v) _ step.2 in
      rw (copy-of_valid v next.1, copy_fields-of_valid fs next.2)

copy-of_invalid :
    (v : PyValue) {error : Error}
    → validate_json_value v ≡ raise error
    → deep_copy_json_value v ≡ raise error
unfolding deep_copy_json_value validate_json_value
copy-of_invalid (dict fs) e = rw e
copy-of_invalid (array is) e = rw e
copy-of_invalid (real f) e = rw e
copy-of_invalid (tuple is) e = cc
copy-of_invalid opaque e = cc
copy-of_invalid null e = cc
copy-of_invalid (boolean b) e = cc
copy-of_invalid (integer n) e = cc
copy-of_invalid (str s) e = cc

-- A copy is the check and then the value itself, whatever the value: what the check refuses is refused
-- with the same error, however deep it stands.
pub deep_copy_json_value_lem :
    (v : PyValue) → deep_copy_json_value v ≡ (validate_json_value v >> ok v)
deep_copy_json_value_lem v = elim (Result-cases (validate_json_value v)) [
  | inl (u, e) ↦ copy-of_valid v e ∙ sym (ap (λ r. r >> ok v) e)
  | inr (error, e) ↦ copy-of_invalid v e ∙ sym (ap (λ r. r >> ok v) e)
]
