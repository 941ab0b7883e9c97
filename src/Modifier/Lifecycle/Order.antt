-- ===== src/Modifier/Lifecycle/Order.antt =====
-- Owners and ordinals in a container, for src/hsr_battle_agent/battle_runtime/modifiers.py.
use hsr_battle_agent.Base.{
  All, Bool-cases, [], arith, get_elem?, if◌then◌else◌, inl, inr, ltb, set, some, suc, zero, ℕ,
  ◌++◌, ◌+◌, ◌<◌, ◌∙◌, ◌∷◌, ◌≡◌, ◌≤◌,
}
use hsr_battle_agent.Modifier.{ModifierContainer, ModifierState, append, ref}
use hsr_battle_agent.Modifier.Lifecycle.{greatest_ordinal, next_instance_ordinal, stays}
use hsr_battle_agent.Targets.{EntityRef}

-- The ordinals from the bound on, growing, and the owner.
abbrev pub Growing : EntityRef → ℕ → ModifierContainer → Type 0
Growing owner bound [] = Unit
Growing owner bound (m ∷ items) =
    (bound ≤ m.instance_ordinal)
    × (m.owner_entity ≡ owner)
    × Growing owner (suc m.instance_ordinal) items

abbrev pub IsContainer : EntityRef → ModifierContainer → Type 0
IsContainer owner items = Growing owner 0 items

pub Growing-weaken :
    (owner : EntityRef) (low high : ℕ) (items : ModifierContainer)
    → low ≤ high
    → Growing owner high items
    → Growing owner low items
Growing-weaken owner low high [] le h = tt
Growing-weaken owner low high (m ∷ items) le h = (omega (arith, le, h.0), h.1, h.2)

greatest_ordinal-le : (best : ℕ) (items : ModifierContainer) → best ≤ greatest_ordinal best items
unfolding greatest_ordinal
greatest_ordinal-le best [] = omega arith
greatest_ordinal-le best (m ∷ items) = ground (
  arith,
  greatest_ordinal-le (if ltb best m.instance_ordinal then m.instance_ordinal else best) items,
)

greatest_ordinal-above :
    (best : ℕ) (items : ModifierContainer)
    → All (λ m. m.instance_ordinal ≤ greatest_ordinal best items) items
unfolding greatest_ordinal
greatest_ordinal-above best [] = tt
greatest_ordinal-above best (m ∷ items) = (
  ground (
    arith,
    greatest_ordinal-le (if ltb best m.instance_ordinal then m.instance_ordinal else best) items,
  ),
  greatest_ordinal-above (if ltb best m.instance_ordinal then m.instance_ordinal else best) items,
)

All-below :
    (n : ℕ) (items : ModifierContainer)
    → All (λ m. m.instance_ordinal ≤ n) items
    → All (λ m. m.instance_ordinal < n + 1) items
All-below n [] all = tt
All-below n (m ∷ items) all = (omega (arith, all.0), All-below n items all.1)

-- The next ordinal is above every ordinal in use.
pub next_instance_ordinal-above :
    (items : ModifierContainer) → All (λ m. m.instance_ordinal < next_instance_ordinal items) items
unfolding next_instance_ordinal
next_instance_ordinal-above [] = tt
next_instance_ordinal-above (m ∷ items) = (
  omega (arith, greatest_ordinal-le m.instance_ordinal items),
  All-below _ items (greatest_ordinal-above m.instance_ordinal items),
)

Growing-append :
    (owner : EntityRef) (bound : ℕ) (items : ModifierContainer) (added : ModifierState)
    → Growing owner bound items
    → All (λ m. m.instance_ordinal < added.instance_ordinal) items
    → bound ≤ added.instance_ordinal
    → added.owner_entity ≡ owner
    → Growing owner bound (items ++ added ∷ [])
Growing-append owner bound [] added h all le own = (le, own, tt)
Growing-append owner bound (m ∷ items) added h all le own = (
  h.0,
  h.1,
  Growing-append owner (suc m.instance_ordinal) items added h.2 all.1 (omega (arith, all.0)) own,
)

-- An append under the next ordinal keeps the container's order.
pub append-IsContainer :
    (owner : EntityRef) (items : ModifierContainer) (added : ModifierState)
    → IsContainer owner items
    → added.instance_ordinal ≡ next_instance_ordinal items
    → added.owner_entity ≡ owner
    → IsContainer owner (append items added)
unfolding append
append-IsContainer owner items added h next own =
    Growing-append owner 0 items added h (rw next (next_instance_ordinal-above items)) (omega arith)
      own

pub set-Growing :
    (owner : EntityRef) (bound : ℕ) (items : ModifierContainer) (index : ℕ)
    (old new : ModifierState)
    → Growing owner bound items
    → get_elem? items index ≡ some old
    → ref new ≡ ref old
    → Growing owner bound (set items index new)
set-Growing owner bound [] index old new h found same = tt
set-Growing owner bound (m ∷ items) zero old new h found same =
    let ordinal : new.instance_ordinal ≡ m.instance_ordinal = cc in
    let own : new.owner_entity ≡ m.owner_entity = cc in (rw ordinal h.0, own ∙ h.1, rw ordinal h.2)
set-Growing owner bound (m ∷ items) (suc index) old new h found same =
    (h.0, h.1, set-Growing owner (suc m.instance_ordinal) items index old new h.2 found same)

abbrev pub filter_stays : ModifierContainer → ModifierContainer
filter_stays [] = []
filter_stays (m ∷ items) = if stays m then m ∷ filter_stays items else filter_stays items

-- A filter keeps the order.
pub filter_stays-Growing :
    (owner : EntityRef) (bound : ℕ) (items : ModifierContainer)
    → Growing owner bound items
    → Growing owner bound (filter_stays items)
filter_stays-Growing owner bound [] h = tt
filter_stays-Growing owner bound (m ∷ items) h = elim (Bool-cases (stays m)) [
  | inl kept ↦ rw kept (h.0, h.1, filter_stays-Growing owner _ items h.2)
  | inr gone ↦ rw gone (
      filter_stays-Growing owner bound items
        (Growing-weaken owner bound (suc m.instance_ordinal) items (omega (arith, h.0)) h.2))
]
