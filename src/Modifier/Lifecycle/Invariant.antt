-- ===== src/Modifier/Lifecycle/Invariant.antt =====
-- The invariant of the stored containers of src/hsr_battle_agent/battle_runtime/modifiers.py, and
-- its composition.
use hsr_battle_agent.Base.{
  Bool-cases, Option, Result-cases, arith, get_elem?, if◌then◌else◌, inl, inr, length, ltb, ok,
  refl, some, ℕ, ◌≡◌,
}
use hsr_battle_agent.Base.Action.{Action, ◌>>=◌}
use hsr_battle_agent.Base.Dict.{int_eq, lookup-insert}
use hsr_battle_agent.Base.Int.{eqb_ℤ, ℤ}
use hsr_battle_agent.Modifier.{ModifierContainer, ModifierState, ObjectRef, ref, ref_eq, replace_at}
use hsr_battle_agent.Modifier.Lifecycle.{
  apply_modifier_instance, container_of, find_instance, replace_item, write_container,
}
use hsr_battle_agent.Modifier.Lifecycle.Order.{IsContainer, append-IsContainer, set-Growing}
use hsr_battle_agent.Modifier.Lifecycle.TryAdd.{append_new_instance}
use hsr_battle_agent.State.{BattleState, key_eq}
use hsr_battle_agent.Targets.{EntityRef}
use mathlib.Core.Path.{subst}

abbrev pub AllContainers : BattleState → Type 0
AllContainers state = (owner : EntityRef) → IsContainer owner (container_of state owner)

-- The action leaves the stored containers well-formed, whether it returns or raises.
abbrev pub Keeps : {A : Type 0} → Action BattleState A → Type 0
Keeps m = (state : BattleState) → AllContainers state → AllContainers (m state).1

pub container_of-write :
    (owner target : EntityRef) (items : ModifierContainer) (state : BattleState)
    → container_of (write_container target items state).1 owner
      ≡ (if eqb_ℤ owner.runtime_id target.runtime_id then items else container_of state owner)
unfolding container_of write_container
container_of-write owner target items state =
    elim (Bool-cases (eqb_ℤ owner.runtime_id target.runtime_id)) [
      | inl same ↦ ground (
        arith,
        lookup-insert owner.runtime_id target.runtime_id items state.modifier_state_by_entity,
      )
      | inr other ↦ ground (
        arith,
        lookup-insert owner.runtime_id target.runtime_id items state.modifier_state_by_entity,
      )
    ]

pub write_container-Keeps :
    (target : EntityRef) (items : ModifierContainer)
    → IsContainer target items
    → Keeps (write_container target items)
write_container-Keeps target items h state all owner =
    elim (Bool-cases (eqb_ℤ owner.runtime_id target.runtime_id)) [
      | inl same ↦
          let e : target ≡ owner =
            ground (arith, int_eq.beq_iff owner.runtime_id target.runtime_id) in
          rw (container_of-write owner target items state, same)
            (subst (λ o. IsContainer o items) e h)
      | inr other ↦ rw (container_of-write owner target items state, other) (all owner)
    ]

module _ {A B : Type 0} where
  pub bind-Keeps :
      (m : Action BattleState A) (f : A → Action BattleState B)
      → Keeps m
      → ((a : A) → Keeps (f a))
      → Keeps (m >>= f)
  bind-Keeps m f keeps rest state all = elim (Result-cases (m state).0) [
    | inl (a, e) ↦ rw (e, ◌>>=◌) (rest a (m state).1 (keeps state all))
    | inr (error, e) ↦ rw (e, ◌>>=◌) (keeps state all)
  ]

pub apply_modifier_instance-Keeps :
    (target : EntityRef) (modifier : ModifierState)
    → Keeps (apply_modifier_instance target modifier)
unfolding apply_modifier_instance write_container
apply_modifier_instance-Keeps target modifier state all =
    write_container-Keeps target _
      (append-IsContainer target (container_of state target) _ (all target) refl refl) state all

pub append_new_instance-Keeps :
    (target : EntityRef) (modifier : ModifierState) (stacking_flag : ℤ)
    (caster_entity : Option EntityRef) (source_provider_ref : Option ObjectRef)
    → Keeps (append_new_instance target modifier stacking_flag caster_entity source_provider_ref)
unfolding append_new_instance write_container
append_new_instance-Keeps target modifier stacking_flag caster_entity source_provider_ref state
      all =
    write_container-Keeps target _
      (append-IsContainer target (container_of state target) _ (all target) refl refl) state all

pub find_instance-found :
    (items : ModifierContainer) (modifier : ModifierState) (index : ℕ) (m : ModifierState)
    → find_instance items modifier ≡ ok (index, m)
    → get_elem? items index ≡ some m
unfolding find_instance
find_instance-found items modifier index m h = ground arith

-- A replacement under the same reference keeps the containers.
pub replace_item-Keeps :
    (target : EntityRef) (index : ℕ) (old new : ModifierState) (state : BattleState)
    → get_elem? (container_of state target) index ≡ some old
    → ref new ≡ ref old
    → AllContainers state
    → AllContainers (replace_item target index new state).1
unfolding replace_item replace_at write_container
replace_item-Keeps target index old new state found same all =
    elim (Bool-cases (ltb index (length (container_of state target)))) [
      | inl fits ↦ rw fits (
          write_container-Keeps target _
            (set-Growing target 0 (container_of state target) index old new (all target) found same)
            state all)
      | inr out ↦ rw out all
    ]
