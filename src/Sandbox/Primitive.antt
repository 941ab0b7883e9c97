-- ===== src/Sandbox/Primitive.antt =====
-- src/hsr_battle_agent/battle_ir/model.py: the specs of primitives and the calls of them. Texts that only
-- describe a spec are left out.
pub mod Arguments
pub mod Accepted
use hsr_battle_agent.Base.{
  Bool, List, Option, Result, [], false, guard, if◌then◌else◌, length, none, not, ok, raise, some,
  true, value_error, ◌&&◌, ◌==◌, ◌>>=◌, ◌>>◌, ◌||◌, ◌∷◌,
}
use hsr_battle_agent.Base.Text.{Text, eqb_text}

pub record PrimitiveSpec : Type 0 where
  pub primitive_id : Text
  pub semantic_name : Text
  pub input_names : List Text
  pub result : Text

unfoldable pub has_name : Text → List Text → Bool
unfolding eqb_text
has_name name [] = false
has_name name (n ∷ names) = eqb_text n name || has_name name names

-- `len(set(names)) == len(names)`
unfoldable pub distinct_names : List Text → Bool
unfolding has_name
distinct_names [] = true
distinct_names (n ∷ names) = not (has_name n names) && distinct_names names

unfoldable pub no_empty_name : List Text → Bool
no_empty_name [] = true
no_empty_name (n ∷ names) = not (length n == 0) && no_empty_name names

-- `PrimitiveSpec.__post_init__`
unfoldable pub check_spec : PrimitiveSpec → Result PrimitiveSpec
unfolding distinct_names no_empty_name
check_spec spec = do
  guard (not (length spec.primitive_id == 0)) value_error
  guard (not (length spec.semantic_name == 0)) value_error
  guard (distinct_names spec.input_names) value_error
  guard (no_empty_name spec.input_names) value_error
  ok spec

-- The arguments of a call, which name each input once, are the mapping of its inputs.
abbrev pub Inputs : Type 0 → Type 0
Inputs V = List (Text × V)

module _ {V : Type 0} where
  unfoldable pub names_of : Inputs V → List Text
  names_of [] = []
  names_of ((n, v) ∷ inputs) = n ∷ names_of inputs

  unfoldable pub input : Text → Inputs V → Option V
  unfolding eqb_text
  input name [] = none
  input name ((n, v) ∷ inputs) = if eqb_text n name then some v else input name inputs

  -- No input is unknown: `set(inputs) - set(self.input_names)` is empty.
  unfoldable pub all_known : List Text → Inputs V → Bool
  unfolding has_name
  all_known names [] = true
  all_known names ((n, v) ∷ inputs) = has_name n names && all_known names inputs

  -- `{name: inputs[name] for name in self.input_names}`, where each is there
  unfoldable pub ordered : List Text → Inputs V → Result (Inputs V)
  unfolding input
  ordered [] inputs = ok []
  ordered (n ∷ names) inputs = elim (input n inputs) [
    | none ↦ raise value_error
    | some v ↦ do rest ← ordered names inputs; ok ((n, v) ∷ rest)
  ]

  -- `validate_and_order_inputs`
  unfoldable pub validate_and_order_inputs : PrimitiveSpec → Inputs V → Result (Inputs V)
  unfolding all_known ordered
  validate_and_order_inputs spec inputs =
      guard (all_known spec.input_names inputs) value_error >> ordered spec.input_names inputs

pub record PrimitiveCall (V : Type 0) : Type 0 where
  pub primitive_id : Text
  pub arguments : Inputs V

-- `PrimitiveCall.__post_init__`, after that of each `PrimitiveArgument`
unfoldable pub check_call : {V : Type 0} → PrimitiveCall V → Result (PrimitiveCall V)
unfolding names_of distinct_names no_empty_name
check_call call = do
  guard (no_empty_name (names_of call.arguments)) value_error
  guard (not (length call.primitive_id == 0)) value_error
  guard (distinct_names (names_of call.arguments)) value_error
  ok call

-- `PrimitiveCall.create`
unfoldable pub create_call : {V : Type 0} → Text → Inputs V → Result (PrimitiveCall V)
unfolding check_call
create_call id inputs = check_call (record { primitive_id = id; arguments = inputs })

pub record PrimitiveResult (V : Type 0) : Type 0 where
  pub primitive_id : Text
  pub value : V
  pub semantic_result_type : Text
  pub runtime_result_type : Option Text

abbrev is_none_or_filled : Option Text → Bool
is_none_or_filled none = true
is_none_or_filled (some text) = not (length text == 0)

-- `PrimitiveResult.__post_init__`
unfoldable pub check_primitive_result :
    {V : Type 0} → PrimitiveResult V → Result (PrimitiveResult V)
check_primitive_result result = do
  guard (not (length result.primitive_id == 0)) value_error
  guard (not (length result.semantic_result_type == 0)) value_error
  guard (is_none_or_filled result.runtime_result_type) value_error
  ok result
