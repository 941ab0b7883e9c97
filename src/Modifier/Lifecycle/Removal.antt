-- ===== src/Modifier/Lifecycle/Removal.antt =====
-- remove_dirty_modifiers of src/hsr_battle_agent/battle_runtime/modifiers.py against a filter.
use hsr_battle_agent.Base.{
  Bool-cases, Result, [], arith, false, get_elem?, if◌then◌else◌, inl, inr, length, lt→ltb, ok,
  raise, refl, some, suc, true, zero, ℕ, ◌+◌, ◌<◌, ◌∷◌, ◌≡◌, ◌≤◌,
}
use hsr_battle_agent.Modifier.{ModifierContainer, ModifierState, delete_at, remove_at}
use hsr_battle_agent.Modifier.Lifecycle.{
  container_of, remove_dirty_below, remove_dirty_modifiers, remove_unless_stays, stays,
  write_container,
}
use hsr_battle_agent.Modifier.Lifecycle.Order.{filter_stays}
use hsr_battle_agent.State.{BattleState}
use hsr_battle_agent.Targets.{EntityRef}

abbrev cons_kept : ModifierState → Result ModifierContainer → Result ModifierContainer
cons_kept m (ok items) = ok (if stays m then m ∷ items else items)
cons_kept m (raise e) = raise e

length-delete_at :
    (items : ModifierContainer) (index : ℕ)
    → index < length items
    → length (delete_at items index) + 1 ≡ length items
length-delete_at [] index h = elim h [ ]
length-delete_at (m ∷ items) zero h = omega arith
length-delete_at (m ∷ items) (suc index) h =
    omega (arith, length-delete_at items index (omega arith))

get_elem?-some :
    (items : ModifierContainer) (index : ℕ)
    → index < length items
    → (m : ModifierState) × (get_elem? items index ≡ some m)
get_elem?-some [] index h = elim h [ ]
get_elem?-some (m ∷ items) zero h = (m, refl)
get_elem?-some (m ∷ items) (suc index) h = get_elem?-some items index (omega arith)

remove_unless_stays-gone :
    (items : ModifierContainer) (index : ℕ) (m : ModifierState)
    → index < length items
    → get_elem? items index ≡ some m
    → stays m ≡ false
    → remove_unless_stays items index ≡ ok (delete_at items index)
unfolding remove_at
remove_unless_stays-gone items index m h found gone =
    rw (found, gone, lt→ltb index (length items) h, remove_unless_stays) refl

remove_unless_stays-kept :
    (items : ModifierContainer) (index : ℕ) (m : ModifierState)
    → get_elem? items index ≡ some m
    → stays m ≡ true
    → remove_unless_stays items index ≡ ok items
remove_unless_stays-kept items index m found kept = rw (found, kept, remove_unless_stays) refl

-- The loop reaches the head of the list last.
remove_dirty_below-cons :
    (m : ModifierState) (index : ℕ) (items : ModifierContainer)
    → index ≤ length items
    → remove_dirty_below (suc index) (m ∷ items) ≡ cons_kept m (remove_dirty_below index items)
unfolding remove_dirty_below remove_at
remove_dirty_below-cons m zero items h = ground arith
remove_dirty_below-cons m (suc index) items h =
    let (n, found) = get_elem?-some items index (omega arith) in
    elim (Bool-cases (stays n)) [
      | inl kept ↦
          rw
            (
              remove_unless_stays-kept items index n found kept,
              remove_unless_stays-kept (m ∷ items) (suc index) n found kept,
              remove_dirty_below,
            )
            (remove_dirty_below-cons m index items (omega arith))
      | inr gone ↦
          rw
            (
              remove_unless_stays-gone items index n (omega arith) found gone,
              remove_unless_stays-gone (m ∷ items) (suc index) n (omega arith) found gone,
              remove_dirty_below,
            )
            (remove_dirty_below-cons m index (delete_at items index)
              (omega (arith, length-delete_at items index (omega arith))))
    ]

-- The backward loop is a filter.
pub remove_dirty_below-filter :
    (items : ModifierContainer) → remove_dirty_below (length items) items ≡ ok (filter_stays items)
unfolding remove_dirty_below
remove_dirty_below-filter [] = refl
remove_dirty_below-filter (m ∷ items) =
    rw (
      remove_dirty_below-cons m (length items) items (omega arith),
      remove_dirty_below-filter items,
    )

-- Removal always succeeds, returns the instances that are alive or guarded in their order, and stores
-- exactly these.
pub remove_dirty_modifiers-filter :
    (target : EntityRef) (state : BattleState)
    → remove_dirty_modifiers target state ≡ (
      ok (filter_stays (container_of state target)),
      (write_container target (filter_stays (container_of state target)) state).1,
    )
unfolding remove_dirty_modifiers write_container
remove_dirty_modifiers-filter target state =
    rw (remove_dirty_below-filter (container_of state target))
