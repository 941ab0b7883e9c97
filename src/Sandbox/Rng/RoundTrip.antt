-- ===== src/Sandbox/Rng/RoundTrip.antt =====
-- src/hsr_battle_agent/battle_sandbox/rng.py: the dict form of a generator is read back.
use hsr_battle_agent.Base.{
  List, Option, [], ap, length, none, ok, refl, some, suc, ◌>>=◌, ◌∙◌, ◌∷◌, ◌≡◌,
}
use hsr_battle_agent.Base.Float.{Float}
use hsr_battle_agent.Base.Int.{ℤ}
use hsr_battle_agent.Base.Text.{eqb_text}
use hsr_battle_agent.Json.{dict, integer}
use hsr_battle_agent.Sandbox.Rng.{
  Random, RngState, as_integers, as_optional_real, count_items, integer_items, optional_real,
  rng_from_dict, rng_to_dict, validate_rng_state,
}
use hsr_battle_agent.Sandbox.StoredState.{equals_number, get}

as_integers-items : (ns : List ℤ) → as_integers (integer_items ns) ≡ ok ns
unfolding as_integers integer_items
as_integers-items [] = refl
as_integers-items (n ∷ ns) = rw (as_integers-items ns)

count-integer_items : (ns : List ℤ) → count_items (integer_items ns) ≡ length ns
unfolding count_items integer_items
count-integer_items [] = refl
count-integer_items (n ∷ ns) = ap suc (count-integer_items ns)

optional_real-read : (g : Option Float) → as_optional_real (some (optional_real g)) ≡ ok g
optional_real-read none = refl
optional_real-read (some f) = refl

validate-read :
    (s : RngState)
    → length s.internal ≡ 625
    → validate_rng_state
        (some (integer s.version))
        (integer_items s.internal)
        (some (optional_real s.gauss_next))
      ≡ ok s
unfolding validate_rng_state
validate-read s h = simp (
  count-integer_items s.internal,
  h,
  as_integers-items s.internal,
  optional_real-read s.gauss_next,
)

module _ (random : Random) where
  -- A generator is read back from its dict form.
  pub rng_from_dict-to_dict :
      (s : RngState) → random.Generated s → rng_from_dict random (dict (rng_to_dict s)) ≡ ok s
  unfolding rng_from_dict rng_to_dict get eqb_text equals_number
  rng_from_dict-to_dict s g =
      ap (λ r. r >>= random.setstate) (validate-read s (random.length-Generated s g))
      ∙ random.setstate-Generated s g
