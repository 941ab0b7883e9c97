-- ===== src/Property/Arrays.antt =====
-- The parallel arrays of an entry under the writes of
-- src/hsr_battle_agent/battle_runtime/property.py.
use hsr_battle_agent.Base.{
  Bool, List, [], ap, arith, false, get_elem?, length, refl, set, some, suc, true, zero, ℕ, ◌++◌,
  ◌+◌, ◌<◌, ◌∷◌, ◌≡◌,
}
use hsr_battle_agent.Base.Int.{pos, ℤ}
use hsr_battle_agent.FixPoint.{is_raw}
use hsr_battle_agent.Property.{all_raw, count_active}
use hsr_battle_agent.Property.Slots.{first_inactive}
use hsr_battle_agent.Property.Valid.{Stamped}

pub Stamped-length :
    (counter : ℕ) (gs : List ℕ) (flags : List Bool)
    → Stamped counter gs flags
    → length gs ≡ length flags
Stamped-length counter [] [] h = refl
Stamped-length counter (g ∷ gs) (true ∷ flags) h = ap suc (Stamped-length counter gs flags h.2)
Stamped-length counter (g ∷ gs) (false ∷ flags) h = ap suc (Stamped-length counter gs flags h.1)
Stamped-length counter [] (f ∷ flags) h = absurd h
Stamped-length counter (g ∷ gs) [] h = absurd h

Stamped-mono :
    (counter : ℕ) (gs : List ℕ) (flags : List Bool)
    → Stamped counter gs flags
    → Stamped (counter + 1) gs flags
Stamped-mono counter [] [] h = tt
Stamped-mono counter (g ∷ gs) (true ∷ flags) h =
    (h.0, omega (arith, h.1), Stamped-mono counter gs flags h.2)
Stamped-mono counter (g ∷ gs) (false ∷ flags) h = (h.0, Stamped-mono counter gs flags h.1)
Stamped-mono counter [] (f ∷ flags) h = absurd h
Stamped-mono counter (g ∷ gs) [] h = absurd h

pub Stamped-write :
    (counter : ℕ) (gs : List ℕ) (flags : List Bool) (i : ℕ)
    → Stamped counter gs flags
    → Stamped (counter + 1) (set gs i (counter + 1)) (set flags i true)
Stamped-write counter [] [] i h = tt
Stamped-write counter (g ∷ gs) (true ∷ flags) zero h =
    (omega arith, omega arith, Stamped-mono counter gs flags h.2)
Stamped-write counter (g ∷ gs) (false ∷ flags) zero h =
    (omega arith, omega arith, Stamped-mono counter gs flags h.1)
Stamped-write counter (g ∷ gs) (true ∷ flags) (suc i) h =
    (h.0, omega (arith, h.1), Stamped-write counter gs flags i h.2)
Stamped-write counter (g ∷ gs) (false ∷ flags) (suc i) h =
    (h.0, Stamped-write counter gs flags i h.1)
Stamped-write counter [] (f ∷ flags) i h = absurd h
Stamped-write counter (g ∷ gs) [] i h = absurd h

pub Stamped-clear :
    (counter : ℕ) (gs : List ℕ) (flags : List Bool) (i : ℕ)
    → Stamped counter gs flags
    → Stamped counter (set gs i 0) (set flags i false)
Stamped-clear counter [] [] i h = tt
Stamped-clear counter (g ∷ gs) (true ∷ flags) zero h = (refl, h.2)
Stamped-clear counter (g ∷ gs) (false ∷ flags) zero h = (refl, h.1)
Stamped-clear counter (g ∷ gs) (true ∷ flags) (suc i) h =
    (h.0, h.1, Stamped-clear counter gs flags i h.2)
Stamped-clear counter (g ∷ gs) (false ∷ flags) (suc i) h =
    (h.0, Stamped-clear counter gs flags i h.1)
Stamped-clear counter [] (f ∷ flags) i h = absurd h
Stamped-clear counter (g ∷ gs) [] i h = absurd h

pub Stamped-extend :
    (counter : ℕ) (gs : List ℕ) (flags : List Bool)
    → Stamped counter gs flags
    → Stamped counter (gs ++ 0 ∷ []) (flags ++ false ∷ [])
Stamped-extend counter [] [] h = (refl, tt)
Stamped-extend counter (g ∷ gs) (true ∷ flags) h = (h.0, h.1, Stamped-extend counter gs flags h.2)
Stamped-extend counter (g ∷ gs) (false ∷ flags) h = (h.0, Stamped-extend counter gs flags h.1)
Stamped-extend counter [] (f ∷ flags) h = absurd h
Stamped-extend counter (g ∷ gs) [] h = absurd h

pub all_raw-set :
    (values : List ℤ) (i : ℕ) (v : ℤ)
    → all_raw values ≡ true
    → is_raw v ≡ true
    → all_raw (set values i v) ≡ true
all_raw-set [] i v h hv = refl
all_raw-set (x ∷ values) zero v h hv = ground arith
all_raw-set (x ∷ values) (suc i) v h hv = ground (arith, all_raw-set values i v)

pub all_raw-extend :
    (values : List ℤ) → all_raw values ≡ true → all_raw (values ++ pos 0 ∷ []) ≡ true
all_raw-extend [] h = refl
all_raw-extend (x ∷ values) h = ground (arith, all_raw-extend values)

pub count_active-extend :
    (flags : List Bool) → count_active (flags ++ false ∷ []) ≡ count_active flags
count_active-extend [] = refl
count_active-extend (true ∷ flags) = ap suc (count_active-extend flags)
count_active-extend (false ∷ flags) = count_active-extend flags

pub get_elem?-extend {ℓ} :
    {A : Type ℓ} (xs : List A) (x : A) (i : ℕ)
    → i < length xs
    → get_elem? (xs ++ x ∷ []) i ≡ get_elem? xs i
get_elem?-extend [] x i h = elim h [ ]
get_elem?-extend (y ∷ xs) x zero h = refl
get_elem?-extend (y ∷ xs) x (suc i) h = get_elem?-extend xs x i (omega arith)

pub first_inactive-some :
    (start : ℕ) (flags : List Bool) (i : ℕ)
    → first_inactive start flags ≡ some i
    → (k : ℕ) × (i ≡ start + k) × (get_elem? flags k ≡ some false)
first_inactive-some start [] i h = cc
first_inactive-some start (true ∷ flags) i h =
    let (k, e, got) = first_inactive-some (suc start) flags i h in (suc k, omega (arith, e), got)
first_inactive-some start (false ∷ flags) i h = (0, ground arith, refl)
