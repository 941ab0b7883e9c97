-- ===== src/Property/Choice.antt =====
-- The slot that allocate_source_slot of src/hsr_battle_agent/battle_runtime/property.py chooses.
use hsr_battle_agent.Base.{
  Bool, List, Option-cases, [], ap, arith, drop, false, get_elem?, inl, inr, length, length-append,
  none, refl, set, some, suc, true, zero, ℕ, ◌++◌, ◌+◌, ◌<◌, ◌∷◌, ◌≡◌, ◌≢◌, ◌≤◌, ◌⊎◌,
}
use hsr_battle_agent.Base.Int.{pos, ℤ}
use hsr_battle_agent.Property.{PropertyEntry, count_active, extend_slots, reserve_source_zero}
use hsr_battle_agent.Property.ActiveValues.{active_values}
use hsr_battle_agent.Property.Arrays.{first_inactive-some}
use hsr_battle_agent.Property.Slots.{choose_slot, clear_slot, first_inactive, write_slot}
use hsr_battle_agent.Property.Valid.{IsSupported, IsValid}

pub IsSupported-extend :
    (entry : PropertyEntry) → IsSupported entry → IsSupported (extend_slots entry)
IsSupported-extend entry s = record {
  hook = s.hook;
  transform_a = s.transform_a;
  transform_b = s.transform_b;
  kind = s.kind;
}

pub IsSupported-write :
    (entry : PropertyEntry) (i : ℕ) (v : ℤ) → IsSupported entry → IsSupported (write_slot entry i v)
IsSupported-write entry i v s = record {
  hook = s.hook;
  transform_a = s.transform_a;
  transform_b = s.transform_b;
  kind = s.kind;
}

pub IsSupported-clear :
    (entry : PropertyEntry) (i : ℕ) → IsSupported entry → IsSupported (clear_slot entry i)
IsSupported-clear entry i s = record {
  hook = s.hook;
  transform_a = s.transform_a;
  transform_b = s.transform_b;
  kind = s.kind;
}

pub reserve-nonempty :
    (entry : PropertyEntry) → 0 < length entry.source_value → reserve_source_zero entry ≡ entry
unfolding reserve_source_zero
reserve-nonempty entry h = ground arith

-- What allocation chooses in an entry that has its slot 0: a slot from 1 on that is not active, in an
-- entry that differs by that one inactive slot at most.
pub record Chosen (entry : PropertyEntry) (i : ℕ) (room : PropertyEntry) : Type 0 where
  pub from_one : 1 ≤ i
  pub inside : i < length room.source_value
  pub free : get_elem? room.source_active i ≡ some false
  pub not_active : get_elem? entry.source_active i ≢ some true
  pub choice : choose_slot entry ≡ (i, room)
  pub same : (room ≡ entry) ⊎ ((room ≡ extend_slots entry) × (i ≡ length entry.source_value))

get_elem?-length {ℓ} :
    {A : Type ℓ} (xs : List A) (x : A) → get_elem? (xs ++ x ∷ []) (length xs) ≡ some x
get_elem?-length [] x = refl
get_elem?-length (y ∷ xs) x = get_elem?-length xs x

get_elem?-none {ℓ} : {A : Type ℓ} (xs : List A) → get_elem? xs (length xs) ≡ none
get_elem?-none [] = refl
get_elem?-none (y ∷ xs) = get_elem?-none xs

pub get_elem?-inside {ℓ} :
    {A : Type ℓ} (xs : List A) (i : ℕ) (x : A) → get_elem? xs i ≡ some x → i < length xs
get_elem?-inside [] i x h = cc
get_elem?-inside (y ∷ xs) zero x h = omega arith
get_elem?-inside (y ∷ xs) (suc i) x h = omega (arith, get_elem?-inside xs i x h)

get_elem?-drop_one :
    (flags : List Bool) (k : ℕ) (b : Bool)
    → get_elem? (drop 1 flags) k ≡ some b
    → get_elem? flags (1 + k) ≡ some b
get_elem?-drop_one [] k b h = cc
get_elem?-drop_one (f ∷ flags) k b h = let e : 1 + k ≡ suc k = omega arith in rw e h

pub choose_slot-Chosen :
    (entry : PropertyEntry)
    → IsValid entry
    → 0 < length entry.source_value
    → (i : ℕ) × (room : PropertyEntry) × Chosen entry i room
unfolding choose_slot
choose_slot-Chosen entry h nonempty =
    elim (Option-cases (first_inactive 1 (drop 1 entry.source_active))) [
      | inl full ↦
          let n = length entry.source_value in
          (
            n,
            extend_slots entry,
            record {
              from_one = nonempty;
              inside = omega (arith, length-append entry.source_value (pos 0 ∷ []));
              free = rw (← h.parallel) (get_elem?-length entry.source_active false);
              not_active = rw (← h.parallel, get_elem?-none entry.source_active) (λ e. cc);
              choice = rw (full, choose_slot);
              same = inr (refl, refl);
            },
          )
      | inr (i, found) ↦
          let (k, e, got) = first_inactive-some 1 (drop 1 entry.source_active) i found in
          let at_i : get_elem? entry.source_active i ≡ some false =
            rw e (get_elem?-drop_one entry.source_active k false got) in
          (
            i,
            entry,
            record {
              from_one = omega (arith, e);
              inside = omega (arith, get_elem?-inside entry.source_active i false at_i, h.parallel);
              free = at_i;
              not_active = λ active. cc;
              choice = rw (found, choose_slot);
              same = inl refl;
            },
          )
    ]

-- The active values do not see an inactive slot: neither its value, nor one that is added.
pub active_values-extend :
    (flags : List Bool) (vs : List ℤ) (v : ℤ)
    → length flags ≡ length vs
    → active_values (flags ++ false ∷ []) (vs ++ v ∷ []) ≡ active_values flags vs
active_values-extend [] [] v h = refl
active_values-extend [] (x ∷ vs) v h = absurd (omega (arith, h))
active_values-extend (f ∷ flags) [] v h = absurd (omega (arith, h))
active_values-extend (true ∷ flags) (x ∷ vs) v h =
    ap (◌∷◌ x) (active_values-extend flags vs v (omega (arith, h)))
active_values-extend (false ∷ flags) (x ∷ vs) v h =
    active_values-extend flags vs v (omega (arith, h))

active_values-nil : (flags : List Bool) → active_values flags [] ≡ []
active_values-nil [] = refl
active_values-nil (true ∷ flags) = refl
active_values-nil (false ∷ flags) = refl

pub active_values-restore :
    (flags : List Bool) (vs : List ℤ) (i : ℕ) (v : ℤ)
    → get_elem? flags i ≡ some false
    → active_values (set (set flags i true) i false) (set vs i v) ≡ active_values flags vs
active_values-restore [] vs i v h = cc
active_values-restore (true ∷ flags) [] i v h = active_values-nil _
active_values-restore (false ∷ flags) [] i v h = active_values-nil _
active_values-restore (true ∷ flags) (x ∷ vs) zero v h = cc
active_values-restore (true ∷ flags) (x ∷ vs) (suc i) v h =
    ap (◌∷◌ x) (active_values-restore flags vs i v h)
active_values-restore (false ∷ flags) (x ∷ vs) zero v h = refl
active_values-restore (false ∷ flags) (x ∷ vs) (suc i) v h = active_values-restore flags vs i v h

pub get_elem?-extend_ne {ℓ} :
    {A : Type ℓ} (xs : List A) (x : A) (j : ℕ)
    → j ≢ length xs
    → get_elem? (xs ++ x ∷ []) j ≡ get_elem? xs j
get_elem?-extend_ne [] x zero h = absurd (h refl)
get_elem?-extend_ne [] x (suc j) h = refl
get_elem?-extend_ne (y ∷ xs) x zero h = refl
get_elem?-extend_ne (y ∷ xs) x (suc j) h = get_elem?-extend_ne xs x j (λ e. h (ap suc e))

pub count_active-set :
    (flags : List Bool) (i : ℕ) → i < length flags → 0 < count_active (set flags i true)
count_active-set [] i h = elim h [ ]
count_active-set (f ∷ flags) zero h = omega arith
count_active-set (true ∷ flags) (suc i) h = omega arith
count_active-set (false ∷ flags) (suc i) h = count_active-set flags i (omega arith)
