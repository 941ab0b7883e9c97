-- ===== src/Turn/Sort.antt =====
-- The list.sort of src/hsr_battle_agent/battle_runtime/turns.py, as an insertion sort by a test
-- that may raise.
use hsr_battle_agent.Base.{Bool, List, Result, [], false, ok, true, ◌>>=◌, ◌∷◌}

module _ {A : Type 0} (before : A → A → Result Bool) where
  -- A new item goes behind the items that it does not come before.
  unfoldable pub insert_sorted : A → List A → Result (List A)
  insert_sorted x [] = ok (x ∷ [])
  insert_sorted x (y ∷ ys) = do
    less ← before x y
    elim less [ true ↦ ok (x ∷ y ∷ ys) | false ↦ do rest ← insert_sorted x ys; ok (y ∷ rest) ]

  unfoldable pub sort_from : List A → List A → Result (List A)
  sort_from sorted [] = ok sorted
  sort_from sorted (x ∷ xs) = do next ← insert_sorted x sorted; sort_from next xs

  abbrev pub sort : List A → Result (List A)
  sort = sort_from []
