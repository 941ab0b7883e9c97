-- ===== src/Turn/SortLaws.antt =====
-- The sort of src/hsr_battle_agent/battle_runtime/turns.py on items whose test compares integer
-- keys.
use mathlib.Core.List.Perm
use hsr_battle_agent.Base.{
  All, Bool, Bool-cases, List, Result, [], ap, arith, if◌then◌else◌, inl, inr, ltb→lt, ok, refl,
  sym, ◌++◌, ◌∙◌, ◌∷◌, ◌≡◌,
}
use hsr_battle_agent.Base.Dict.{int_eq}
use hsr_battle_agent.Base.Int.{eqb_ℤ, ltb_ℤ, ℤ, ◌<ℤ◌, ◌≤ℤ◌}
use hsr_battle_agent.Modifier.{ref_eq}
use hsr_battle_agent.State.{key_eq}
use hsr_battle_agent.Turn.Sort.{insert_sorted, sort, sort_from}
use mathlib.Core.List.{Perm, append-nil, append_assoc, perm_middle}

module _ {A : Type 0} (key : A → ℤ) where
  -- Each item's key is at most that of every later item.
  abbrev pub IsSorted : List A → Type 0
  IsSorted [] = Unit
  IsSorted (x ∷ xs) = All (λ y. key x ≤ℤ key y) xs × IsSorted xs

  -- The items with a given key, in their order.
  abbrev pub with_key : ℤ → List A → List A
  with_key k [] = []
  with_key k (x ∷ xs) = if eqb_ℤ (key x) k then x ∷ with_key k xs else with_key k xs

  All-le_trans :
      (x y : A) (ys : List A)
      → key x ≤ℤ key y
      → All (λ z. key y ≤ℤ key z) ys
      → All (λ z. key x ≤ℤ key z) ys
  All-le_trans x y [] h all = tt
  All-le_trans x y (z ∷ ys) h all = (omega (arith, h, all.0), All-le_trans x y ys h all.1)

  with_key-above : (k : ℤ) (ys : List A) → All (λ z. k <ℤ key z) ys → with_key k ys ≡ []
  with_key-above k [] all = refl
  with_key-above k (y ∷ ys) all = ground (arith, with_key-above k ys)

  All-lt_le :
      (k : ℤ) (y : A) (ys : List A)
      → k <ℤ key y
      → All (λ z. key y ≤ℤ key z) ys
      → All (λ z. k <ℤ key z) ys
  All-lt_le k y [] h all = tt
  All-lt_le k y (z ∷ ys) h all = (omega (arith, h, all.0), All-lt_le k y ys h all.1)

  with_key-append :
      (k : ℤ) (xs ys : List A) → with_key k (xs ++ ys) ≡ with_key k xs ++ with_key k ys
  with_key-append k [] ys = refl
  with_key-append k (x ∷ xs) ys = ground (arith, with_key-append k xs ys)

  with_key-front :
      (k : ℤ) (x : A) (ys : List A)
      → All (λ z. key x <ℤ key z) ys
      → with_key k (x ∷ ys) ≡ with_key k (ys ++ x ∷ [])
  with_key-front k x ys all = elim (Bool-cases (eqb_ℤ (key x) k)) [
    | inl same ↦
        let above : All (λ z. k <ℤ key z) ys = rw (← (int_eq.beq_iff (key x) k).0 same) all in
        rw (with_key-append k ys (x ∷ []), with_key-above k ys above, same)
    | inr other ↦ rw (with_key-append k ys (x ∷ []), other) (sym (append-nil _))
  ]

  module _ (before : A → A → Result Bool) (P : A → Type 0)
      (known : (x y : A) → P x → P y → before x y ≡ ok (ltb_ℤ (key x) (key y))) where
    -- What an insertion into a sorted list gives.
    record Inserted (x : A) (ys : List A) : Type 0 where
      list : List A
      result : insert_sorted before x ys ≡ ok list
      all_known : All P list
      permuted : Perm list (x ∷ ys)
      above :
          (y : A) → key y ≤ℤ key x → All (λ z. key y ≤ℤ key z) ys → All (λ z. key y ≤ℤ key z) list
      sorted : IsSorted list
      stable : (k : ℤ) → with_key k list ≡ with_key k (ys ++ x ∷ [])

    insert-Inserted : (x : A) (ys : List A) → P x → All P ys → IsSorted ys → Inserted x ys
    unfolding insert_sorted
    insert-Inserted x [] px py s = record {
      list = x ∷ [];
      result = refl;
      all_known = (px, tt);
      permuted = Perm.refl (x ∷ []);
      above = λ y le all. (le, tt);
      sorted = (tt, tt);
      stable = λ k. refl;
    }
    insert-Inserted x (y ∷ ys) px py s = elim (Bool-cases (ltb_ℤ (key x) (key y))) [
      | inl less ↦ record {
        list = x ∷ y ∷ ys;
        result = rw (known x y px py.0, less);
        all_known = (px, py);
        permuted = Perm.refl (x ∷ y ∷ ys);
        above = λ z le all. (le, all);
        sorted = ((ground arith, All-le_trans x y ys (ground arith) s.0), s);
        stable = λ k.
            with_key-front k x (y ∷ ys)
              (ltb→lt _ _ less, All-lt_le (key x) y ys (ltb→lt _ _ less) s.0);
      }
      | inr more ↦
          let rest = insert-Inserted x ys px py.1 s.1 in
          record {
            list = y ∷ rest.list;
            result = rw (known x y px py.0, more, rest.result);
            all_known = (py.0, rest.all_known);
            permuted = Perm.trans (Perm.cons y rest.permuted) (Perm.swap x y ys);
            above = λ z le all. (all.0, rest.above z le all.1);
            sorted = (rest.above y (ground arith) s.0, rest.sorted);
            stable = λ k. ground (arith, rest.stable k);
          }
    ]

    -- What the sort gives.
    pub record Sorted (xs : List A) : Type 0 where
      pub list : List A
      pub result : sort before xs ≡ ok list
      pub all_known : All P list
      pub permuted : Perm list xs
      pub sorted : IsSorted list
      pub stable : (k : ℤ) → with_key k list ≡ with_key k xs

    record SortedFrom (acc xs : List A) : Type 0 where
      list : List A
      result : sort_from before acc xs ≡ ok list
      all_known : All P list
      permuted : Perm list (acc ++ xs)
      sorted : IsSorted list
      stable : (k : ℤ) → with_key k list ≡ with_key k (acc ++ xs)

    sort_from-SortedFrom :
        (acc xs : List A) → All P acc → IsSorted acc → All P xs → SortedFrom acc xs
    unfolding sort_from
    sort_from-SortedFrom acc [] pa s px = record {
      list = acc;
      result = refl;
      all_known = pa;
      permuted = rw append-nil (Perm.refl acc);
      sorted = s;
      stable = λ k. rw append-nil;
    }
    sort_from-SortedFrom acc (x ∷ xs) pa s px =
        let i = insert-Inserted x acc px.0 pa s in
        let rest = sort_from-SortedFrom i.list xs i.all_known i.sorted px.1 in
        record {
          list = rest.list;
          result = rw i.result rest.result;
          all_known = rest.all_known;
          permuted =
              Perm.trans rest.permuted (
                Perm.trans (Perm.append i.permuted (Perm.refl xs))
                  (Perm.symm (perm_middle acc xs)));
          sorted = rest.sorted;
          stable = λ k.
              rest.stable k
              ∙ with_key-append k i.list xs
              ∙ ap (λ l. l ++ with_key k xs) (i.stable k)
              ∙ sym (with_key-append k (acc ++ x ∷ []) xs)
              ∙ ap (with_key k) (append_assoc acc (x ∷ []) xs);
        }

    -- The sort of items that satisfy the predicate on which the test compares the keys: it succeeds, and
    -- its result is in order, a permutation of the items, and keeps the order of items with one key.
    pub sort-Sorted : (xs : List A) → All P xs → Sorted xs
    sort-Sorted xs px =
        let s = sort_from-SortedFrom [] xs tt tt px in
        record {
          list = s.list;
          result = s.result;
          all_known = s.all_known;
          permuted = s.permuted;
          sorted = s.sorted;
          stable = s.stable;
        }
