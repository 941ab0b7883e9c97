-- ===== src/Values/Equality.antt =====
-- src/hsr_battle_agent/battle_runtime/values.py: what dynamic_value_equals compares.
use hsr_battle_agent.Base.{
  Bool, List, Option, [], arith, false, length, none, some, true, ℕ, zero, suc, ◌≡◌, ◌∷◌, ◌↔◌, refl,
  ap, sym,
}
use hsr_battle_agent.Base.Int.{ℤ}
use hsr_battle_agent.Base.Dict.{eqb_ℤ_iff}
use hsr_battle_agent.Base.Float.{Float, eqb_Float, finite, infinite, nan}
use hsr_battle_agent.Values.{
  DynamicValue, array_ref, bool_value, dynamic_value_equals, encode_utf16, eqb_bytes, float_value,
  int_value, is_one, map_ref, null_value, string_equals, string_value,
}

-- What a cell stands for.
pub data Content : Type 0 where
  number : ℤ → Content
  real : Float → Content
  truth : Bool → Content
  array : ℕ → Content
  mapping : ℕ → Content
  text : Option (List ℕ) → Content

-- A float with one zero; NaN stands for nothing.
abbrev pub real_content : Float → Option Content
real_content nan = none
real_content (infinite negative) = some (real (infinite negative))
real_content (finite negative zero) = some (real (finite false 0))
real_content (finite negative (suc m)) = some (real (finite negative (suc m)))

abbrev pub text_content : Option (List ℕ) → Option (List ℕ)
text_content none = none
text_content (some points) = some (encode_utf16 points)

-- NULL stands for nothing.
abbrev pub content : DynamicValue → Option Content
content (int_value payload) = some (number payload)
content (float_value payload) = real_content payload
content (bool_value payload) = some (truth (is_one payload))
content (array_ref ref) = some (array ref.ref_id)
content (map_ref ref) = some (mapping ref.ref_id)
content (string_value payload) = some (text (text_content payload))
content null_value = none

abbrev pub Shared : Option Content → Option Content → Type 0
Shared a b = (c : Content) × (a ≡ some c) × (b ≡ some c)

eqb_bytes_iff : (as_ bs : List ℕ) → (eqb_bytes as_ bs ≡ true) ↔ (as_ ≡ bs)
unfolding eqb_bytes
eqb_bytes_iff [] [] = ((λ _. refl), (λ _. refl))
eqb_bytes_iff [] (b ∷ bs) = ((λ h. cc), (λ h. cc))
eqb_bytes_iff (a ∷ as_) [] = ((λ h. cc), (λ h. cc))
eqb_bytes_iff (a ∷ as_) (b ∷ bs) = ground (arith, eqb_bytes_iff as_ bs)

string_equals_iff :
    (a b : Option (List ℕ)) → (string_equals a b ≡ true) ↔ (text_content a ≡ text_content b)
unfolding string_equals
string_equals_iff none none = ((λ _. refl), (λ _. refl))
string_equals_iff none (some b) = ((λ h. cc), (λ h. cc))
string_equals_iff (some a) none = ((λ h. cc), (λ h. cc))
string_equals_iff (some a) (some b) = (
  (λ h. ground (arith, eqb_bytes_iff (encode_utf16 a) (encode_utf16 b))),
  (λ h.
      let e : encode_utf16 a ≡ encode_utf16 b = cc in
      ground (arith, eqb_bytes_iff (encode_utf16 a) (encode_utf16 b), ap length e)),
)

eqb_Float_iff : (a b : Float) → (eqb_Float a b ≡ true) ↔ Shared (real_content a) (real_content b)
unfolding eqb_Float
eqb_Float_iff (infinite s) (infinite t) =
    ((λ h. (real (infinite s), refl, ground arith)), (λ e. ground arith))
eqb_Float_iff (finite s zero) (finite t zero) =
    ((λ h. (real (finite false 0), refl, refl)), (λ e. refl))
eqb_Float_iff (finite s zero) (finite t (suc n)) = ((λ h. ground arith), (λ e. ground arith))
eqb_Float_iff (finite s (suc m)) (finite t zero) = ((λ h. ground arith), (λ e. ground arith))
eqb_Float_iff (finite s (suc m)) (finite t (suc n)) =
    ((λ h. (real (finite s (suc m)), refl, ground arith)), (λ e. ground arith))
eqb_Float_iff nan b = ((λ h. cc), (λ e. cc))
eqb_Float_iff (infinite s) nan = ((λ h. cc), (λ e. cc))
eqb_Float_iff (infinite s) (finite t zero) = ((λ h. cc), (λ e. cc))
eqb_Float_iff (infinite s) (finite t (suc n)) = ((λ h. cc), (λ e. cc))
eqb_Float_iff (finite s zero) nan = ((λ h. cc), (λ e. cc))
eqb_Float_iff (finite s (suc m)) nan = ((λ h. cc), (λ e. cc))
eqb_Float_iff (finite s zero) (infinite t) = ((λ h. cc), (λ e. cc))
eqb_Float_iff (finite s (suc m)) (infinite t) = ((λ h. cc), (λ e. cc))

real_content-real : (a : Float) (c : Content) → real_content a ≡ some c → (f : Float) × (c ≡ real f)
real_content-real nan c e = cc
real_content-real (infinite s) c e = (infinite s, cc)
real_content-real (finite s zero) c e = (finite false 0, cc)
real_content-real (finite s (suc m)) c e = (finite s (suc m), cc)

-- dynamic_value_equals holds exactly when both cells stand for one and the same content: the number,
-- the float (NaN for none, one zero), whether a BOOL is 1, the id of an array or of a map, or the
-- UTF-16 units of a string. So it is symmetric and transitive, and false on NULL and NaN themselves.
pub dynamic_value_equals-content :
    (a b : DynamicValue) → (dynamic_value_equals a b ≡ true) ↔ Shared (content a) (content b)
unfolding dynamic_value_equals
dynamic_value_equals-content (int_value a) (int_value b) =
    ((λ h. (number a, refl, ground (arith, eqb_ℤ_iff a b))), (λ e. ground (arith, eqb_ℤ_iff a b)))
dynamic_value_equals-content (float_value a) (float_value b) = eqb_Float_iff a b
dynamic_value_equals-content (bool_value a) (bool_value b) =
    ((λ h. (truth (is_one a), refl, ground arith)), (λ e. ground arith))
dynamic_value_equals-content (array_ref a) (array_ref b) =
    ((λ h. (array a.ref_id, refl, ground arith)), (λ e. ground arith))
dynamic_value_equals-content (map_ref a) (map_ref b) =
    ((λ h. (mapping a.ref_id, refl, ground arith)), (λ e. ground arith))
dynamic_value_equals-content (string_value a) (string_value b) = (
  (λ h. (text (text_content a), refl, ap (λ t. some (text t)) (sym ((string_equals_iff a b).0 h)))),
  (λ e. (string_equals_iff a b).1 cc),
)
dynamic_value_equals-content (float_value a) b =
    ((λ h. cc), (λ e. cc (real_content-real a e.0 e.1).1))
dynamic_value_equals-content a (float_value b) =
    ((λ h. cc), (λ e. cc (real_content-real b e.0 e.2).1))
dynamic_value_equals-content a b = ((λ h. cc), (λ e. cc))
