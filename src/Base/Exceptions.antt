-- ===== src/Base/Exceptions.antt =====
-- Python's exceptions as values: `raise` in an expression that reads no state, and in a method that
-- has changed its object when it raises.
use mathlib.Core.Path.{◌≡◌, refl}
use mathlib.Core.Bool.{Bool, true, false}
use mathlib.Core.Logic.{◌⊎◌, inl, inr}

-- The exception classes that the modelled code raises.
pub data Error : Type 0 where
  type_error value_error index_error : Error
  property_entry_not_found property_source_slot : Error
  unsupported_materialization_kind unsupported_post_stage unsupported_special_property : Error
  turn_semantic timeline_not_initialized completion_required unsupported_participant : Error
  unsupported_damage_mode unsupported_positive_change : Error
  key_error heal_semantic real_skill_turn_mismatch unsupported_special_heal_component : Error
  required_heal_property_missing unsupported_state_version : Error
  frozen_registry duplicate_primitive unsupported_primitive invalid_primitive_input overflow_error :
      Error

pub data Result {ℓ} (A : Type ℓ) : Type ℓ where
  ok : A → Result A
  raise : Error → Result A

-- `if not test: raise error`
abbrev pub guard : Bool → Error → Result (Unit {0})
guard false error = raise error
guard true error = ok tt

module _ {ℓ} {A : Type ℓ} where
  pub Result-cases : (r : Result A) → ((a : A) × (r ≡ ok a)) ⊎ ((e : Error) × (r ≡ raise e))
  Result-cases (raise e) = inr (e, refl)
  Result-cases (ok a) = inl (a, refl)

module _ {ℓ κ} {A : Type ℓ} {B : Type κ} where
  infixl 5 ◌>>=◌
  abbrev pub ◌>>=◌ : Result A → (A → Result B) → Result B
  raise error >>= next = raise error
  ok a >>= next = next a

  pub >>=-eq-ok :
      (r : Result A) (next : A → Result B) {b : B}
      → (r >>= next) ≡ ok b
      → (a : A) × (r ≡ ok a) × (next a ≡ ok b)
  >>=-eq-ok (raise error) next h = cc
  >>=-eq-ok (ok a) next h = (a, refl, h)

-- A check whose result is not read.
infixl 5 ◌>>◌
abbrev pub ◌>>◌ {κ} : {B : Type κ} → Result (Unit {0}) → Result B → Result B
check >> rest = check >>= λ checked. rest
