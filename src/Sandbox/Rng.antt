-- ===== src/Sandbox/Rng.antt =====
-- src/hsr_battle_agent/battle_sandbox/rng.py: the generator of the sandbox, a wrapper of Python's
-- random.Random, whose operations are the parameter. A generator is the state that its getstate
-- returns.
pub mod RoundTrip
use hsr_battle_agent.Base.{
  Bool, List, Option, Result, [], ap, false, guard, length, none, ok, raise, refl, some, suc,
  type_error, value_error, ℕ, ◌==◌, ◌>>=◌, ◌>>◌, ◌∷◌, ◌≡◌,
}
use hsr_battle_agent.Base.Float.{Float}
use hsr_battle_agent.Base.Int.{pos, ℤ}
use hsr_battle_agent.Base.Text.{Text, codes, eqb_text}
use hsr_battle_agent.Json.{
  Fields, Items, PyValue, array, dict, end, field, integer, name, item, none_left, null, real, str,
}
use hsr_battle_agent.Sandbox.StoredState.{equals_number, get, schema_key}

pub record RngState : Type 0 where
  pub version : ℤ
  pub internal : List ℤ
  pub gauss_next : Option Float

-- `random.Random`: `setstate` gives back a state that a generator has been in, which holds 625 words, and has no next
-- Gaussian, since only `gauss` leaves one and the sandbox never calls that.
pub record Random : Type 1 where
  pub seeded : Option ℤ → RngState
  pub getrandbits64 : RngState → ℕ × RngState
  pub randint : ℤ → ℤ → RngState → Result ℤ × RngState
  pub uniform : Float → Float → RngState → Float × RngState
  pub setstate : RngState → Result RngState
  pub Generated : RngState → Type 0
  pub seeded-Generated : (seed : Option ℤ) → Generated (seeded seed)
  pub getrandbits64-Generated : (s : RngState) → Generated s → Generated (getrandbits64 s).1
  pub randint-Generated :
      (low high : ℤ) (s : RngState) → Generated s → Generated (randint low high s).1
  pub uniform-Generated :
      (low high : Float) (s : RngState) → Generated s → Generated (uniform low high s).1
  pub gauss-Generated : (s : RngState) → Generated s → s.gauss_next ≡ none
  pub setstate-Generated : (s : RngState) → Generated s → setstate s ≡ ok s
  pub length-Generated : (s : RngState) → Generated s → length s.internal ≡ 625

abbrev pub rng_algorithm : Text
rng_algorithm = codes "PYTHON_RANDOM_MT19937"

abbrev pub algorithm_key : Text
algorithm_key = codes "algorithm"

abbrev pub state_key : Text
state_key = codes "state"

abbrev pub version_key : Text
version_key = codes "version"

abbrev pub internal_key : Text
internal_key = codes "internal_state"

abbrev pub gauss_key : Text
gauss_key = codes "gauss_next"

unfoldable pub integer_items : List ℤ → Items
integer_items [] = end
integer_items (n ∷ ns) = item (integer n) (integer_items ns)

abbrev pub optional_real : Option Float → PyValue
optional_real none = null
optional_real (some f) = real f

-- `to_dict`
unfoldable pub rng_to_dict : RngState → Fields
unfolding integer_items
rng_to_dict s = field (name schema_key) (integer (pos 1)) (
    field (name algorithm_key) (str rng_algorithm) (
      field (name state_key)
        (dict (
          field (name version_key) (integer s.version) (
            field (name internal_key) (array (integer_items s.internal))
              (field (name gauss_key) (optional_real s.gauss_next) none_left))))
        none_left))

-- `any(isinstance(item, bool) or not isinstance(item, int))`
unfoldable pub as_integers : Items → Result (List ℤ)
as_integers end = ok []
as_integers (item (integer n) items) = as_integers items >>= λ ns. ok (n ∷ ns)
as_integers (item value items) = raise type_error

unfoldable pub count_items : Items → ℕ
count_items end = 0
count_items (item value items) = suc (count_items items)

abbrev pub as_integer : Option PyValue → Result ℤ
as_integer (some (integer n)) = ok n
as_integer _ = raise type_error

abbrev pub as_optional_real : Option PyValue → Result (Option Float)
as_optional_real none = ok none
as_optional_real (some null) = ok none
as_optional_real (some (real f)) = ok (some f)
as_optional_real _ = raise type_error

-- `_validate_rng_state` of the three values that a dict holds
unfoldable pub validate_rng_state : Option PyValue → Items → Option PyValue → Result RngState
unfolding as_integers count_items
validate_rng_state version internal gauss_next = do
  number ← as_integer version
  guard (count_items internal == 625) value_error
  words ← as_integers internal
  gauss ← as_optional_real gauss_next
  ok (record { version = number; internal = words; gauss_next = gauss })

abbrev pub as_block : Option PyValue → Result Fields
as_block (some (dict fields)) = ok fields
as_block _ = raise type_error

abbrev pub as_array : Option PyValue → Result Items
as_array (some (array items)) = ok items
as_array _ = raise type_error

abbrev pub is_text_value : Text → Option PyValue → Bool
unfolding eqb_text
is_text_value text (some (str s)) = eqb_text s text
is_text_value text _ = false

abbrev pub is_number_value : ℕ → Option PyValue → Bool
unfolding equals_number
is_number_value n none = false
is_number_value n (some v) = equals_number n v

module _ (random : Random) where
  -- `from_dict`, and `from_state` and `setstate` from its last two lines on
  unfoldable pub rng_from_dict : PyValue → Result RngState
  unfolding get validate_rng_state
  rng_from_dict (dict stored) = do
    guard (is_number_value 1 (get schema_key stored)) value_error
    guard (is_text_value rng_algorithm (get algorithm_key stored)) value_error
    block ← as_block (get state_key stored)
    internal ← as_array (get internal_key block)
    state ← validate_rng_state (get version_key block) internal (get gauss_key block)
    random.setstate state
  rng_from_dict _ = raise type_error

  unfoldable pub from_state : RngState → Result RngState
  from_state s = guard (length s.internal == 625) value_error >> random.setstate s

  unfoldable pub clone_rng : RngState → Result RngState
  unfolding from_state
  clone_rng s = from_state s

  unfoldable pub next_u64 : RngState → ℕ × RngState
  next_u64 s = random.getrandbits64 s

  -- `seed`, which starts again
  unfoldable pub seed : Option ℤ → RngState → RngState
  seed value s = random.seeded value

  unfoldable pub randint : ℤ → ℤ → RngState → Result ℤ × RngState
  randint low high s = random.randint low high s

  unfoldable pub uniform : Float → Float → RngState → Float × RngState
  uniform low high s = random.uniform low high s
