-- ===== src/Modifier/Lifecycle/Keeping.antt =====
-- The invariant under each operation of src/hsr_battle_agent/battle_runtime/modifiers.py.
use hsr_battle_agent.Base.{
  Bool-cases, List, Option, Result-cases, [], get_elem?, if◌then◌else◌, inl, inr, none, ok, refl,
  some, ℕ, ◌&&◌, ◌∷◌, ◌≡◌,
}
use hsr_battle_agent.Base.Action.{>>-pure-state, Action, lift, pure, ◌>>=◌, ◌>>◌}
use hsr_battle_agent.Base.Int.{eqb_ℤ, ltb_ℤ, negsuc, pos, ℤ}
use hsr_battle_agent.Modifier.{
  ModifierRef, ModifierStacking, ModifierState, alive, ref, stacking_of,
}
use hsr_battle_agent.Modifier.Lifecycle.{
  add_modifier_task_begin_apply, apply_modifier_instance, container_of, destroy_modifier_instance,
  find_instance, known_stacking, process_modifier_redd, last_item, on_activate_modifier,
  refresh_instance, remove_dirty_modifiers, replace_item, write_container,
}
use hsr_battle_agent.Modifier.Lifecycle.Invariant.{
  AllContainers, Keeps, append_new_instance-Keeps, apply_modifier_instance-Keeps, bind-Keeps,
  find_instance-found, replace_item-Keeps, write_container-Keeps,
}
use hsr_battle_agent.Modifier.Lifecycle.Order.{filter_stays, filter_stays-Growing}
use hsr_battle_agent.Modifier.Lifecycle.Removal.{remove_dirty_modifiers-filter}
use hsr_battle_agent.Modifier.Lifecycle.TryAdd.{
  Decision, Disposition, act_on, add_or_act, append_as, append_duplicate, append_new_instance,
  appended, decide, delay_existing, destroyed_and_appended, duplicate_appended, global_targets,
  is_global, lacks, process_existing, processed, replace_global, source_required,
  try_add_modifier_instance, try_add_stacking,
}
use hsr_battle_agent.Modifier.Match.{apply_redd_life_core}
use hsr_battle_agent.State.{BattleState}
use hsr_battle_agent.Targets.{EntityRef}
use hsr_battle_agent.Values.{ObjectRef}

replace_then-Keeps :
    {A : Type 0} (target : EntityRef) (index : ℕ) (old new : ModifierState) (a : A)
    (state : BattleState)
    → get_elem? (container_of state target) index ≡ some old
    → ref new ≡ ref old
    → AllContainers state
    → AllContainers ((replace_item target index new >> pure a) state).1
replace_then-Keeps target index old new a state found same all =
    rw (>>-pure-state (replace_item target index new) a state)
      (replace_item-Keeps target index old new state found same all)

pub destroy_modifier_instance-Keeps :
    (target : EntityRef) (modifier : ModifierState)
    → Keeps (destroy_modifier_instance target modifier)
unfolding destroy_modifier_instance
destroy_modifier_instance-Keeps target modifier state all =
    elim (Result-cases (find_instance (container_of state target) modifier)) [
      | inr (e, missing) ↦ rw missing all
      | inl ((index, m), found) ↦ elim (Bool-cases (ltb_ℤ alive m.state_raw)) [
        | inl dead ↦ rw (found, dead) all
        | inr live ↦
            rw (found, live)
              (replace_then-Keeps target index m _ _ state
                (find_instance-found _ modifier index m found) refl all)
      ]
    ]

pub on_activate_modifier-Keeps :
    (target : EntityRef) (modifier : ModifierState) → Keeps (on_activate_modifier target modifier)
unfolding on_activate_modifier
on_activate_modifier-Keeps target modifier state all =
    elim (Result-cases (find_instance (container_of state target) modifier)) [
      | inr (e, missing) ↦ rw missing all
      | inl ((index, m), found) ↦ elim (Bool-cases (eqb_ℤ m.state_raw alive)) [
        | inl live ↦ rw (found, live) all
        | inr other ↦
            rw (found, other)
              (replace_then-Keeps target index m _ _ state
                (find_instance-found _ modifier index m found) refl all)
      ]
    ]

apply_redd_life_core-ref :
    (existing updated : ModifierState) (stacking : ModifierStacking) (new_count new_life : ℤ)
    → apply_redd_life_core existing stacking new_count new_life ≡ ok updated
    → ref updated ≡ ref existing
unfolding apply_redd_life_core
apply_redd_life_core-ref existing updated stacking (pos n) new_life h = cc
apply_redd_life_core-ref existing updated stacking (negsuc n) new_life h = cc

refresh_instance-Keeps :
    (target : EntityRef) (modifier : ModifierState) (stacking : ModifierStacking)
    (new_count new_life : ℤ)
    → Keeps (refresh_instance target modifier stacking new_count new_life)
unfolding refresh_instance
refresh_instance-Keeps target modifier stacking new_count new_life state all =
    elim (Result-cases (find_instance (container_of state target) modifier)) [
      | inr (e, missing) ↦ rw missing all
      | inl ((index, m), found) ↦
          elim (Result-cases (apply_redd_life_core m stacking new_count new_life)) [
            | inr (e, failed) ↦ rw (found, failed) all
            | inl (updated, done) ↦
                rw (found, done)
                  (replace_then-Keeps target index m updated updated state
                    (find_instance-found _ modifier index m found)
                    (apply_redd_life_core-ref m updated stacking new_count new_life done) all)
          ]
    ]

pub process_modifier_redd-Keeps :
    (target : EntityRef) (modifier : ModifierState) (stacking new_count new_life : ℤ)
    → Keeps (process_modifier_redd target modifier stacking new_count new_life)
unfolding process_modifier_redd
process_modifier_redd-Keeps target modifier stacking new_count new_life state all =
    elim (Result-cases (known_stacking (stacking_of stacking))) [
      | inr (e, unknown) ↦ rw unknown all
      | inl (known, read) ↦
          rw read (refresh_instance-Keeps target modifier known new_count new_life state all)
    ]

pub remove_dirty_modifiers-Keeps : (target : EntityRef) → Keeps (remove_dirty_modifiers target)
remove_dirty_modifiers-Keeps target state all = rw (remove_dirty_modifiers-filter target state) (
    write_container-Keeps target (filter_stays (container_of state target))
      (filter_stays-Growing target 0 (container_of state target) (all target)) state all)

pub add_modifier_task_begin_apply-Keeps :
    (targets : List (Option EntityRef)) (modifier : ModifierState)
    → Keeps (add_modifier_task_begin_apply targets modifier)
unfolding add_modifier_task_begin_apply
add_modifier_task_begin_apply-Keeps [] modifier state all = all
add_modifier_task_begin_apply-Keeps (none ∷ targets) modifier state all = all
add_modifier_task_begin_apply-Keeps (some target ∷ targets) modifier state all =
    bind-Keeps (apply_modifier_instance target modifier) (λ items. lift (last_item items) >>= after)
      (apply_modifier_instance-Keeps target modifier)
      (λ items.
        bind-Keeps (lift (last_item items)) after (λ s h. h)
          (after-Keeps (add_modifier_task_begin_apply-Keeps targets modifier)))
      state all
  where
    after : ModifierState → Action BattleState (List ModifierRef)
    after last =
        add_modifier_task_begin_apply targets modifier >>= λ applied. pure (ref last ∷ applied)

    after-Keeps :
        Keeps (add_modifier_task_begin_apply targets modifier)
        → (last : ModifierState) → Keeps (after last)
    after-Keeps keeps last =
        bind-Keeps (add_modifier_task_begin_apply targets modifier)
          (λ applied. pure (ref last ∷ applied)) keeps (λ applied s h. h)

module _ (target : EntityRef) (modifier : ModifierState) (stacking_flag : ℤ)
    (caster_entity : Option EntityRef) (source_provider_ref : Option ObjectRef) where
  append_as-Keeps :
      (disposition : Disposition) (destroyed : Option ModifierRef) (before : ℕ)
      → Keeps (
          append_as target modifier stacking_flag caster_entity source_provider_ref disposition
            destroyed before)
  unfolding append_as append_new_instance write_container
  append_as-Keeps disposition destroyed before state all =
      append_new_instance-Keeps target modifier stacking_flag caster_entity source_provider_ref
        state all

  act_on-Keeps :
      (stacking : ModifierStacking) (owner : EntityRef) (existing : ModifierState) (before : ℕ)
      (decision : Decision)
      → Keeps (
          act_on target modifier stacking_flag caster_entity source_provider_ref stacking owner
            existing before decision)
  unfolding act_on
  act_on-Keeps stacking owner existing before append_duplicate state all =
      append_as-Keeps duplicate_appended none before state all
  act_on-Keeps stacking owner existing before replace_global state all =
      bind-Keeps (destroy_modifier_instance owner existing)
        (λ gone.
          append_as target modifier stacking_flag caster_entity source_provider_ref
            destroyed_and_appended (some (ref existing)) before)
        (destroy_modifier_instance-Keeps owner existing)
        (λ gone. append_as-Keeps destroyed_and_appended (some (ref existing)) before) state all
  act_on-Keeps stacking owner existing before delay_existing state all = all
  act_on-Keeps stacking owner existing before process_existing state all =
      bind-Keeps
        (refresh_instance owner existing stacking (pos modifier.count) modifier.current_life)
        (λ updated. pure (processed before updated))
        (refresh_instance-Keeps owner existing stacking (pos modifier.count) modifier.current_life)
        (λ updated s h. h) state all

  add_or_act-Keeps :
      (stacking : ModifierStacking) (before : ℕ) (met : Option (EntityRef × ModifierState))
      → Keeps (
          add_or_act target modifier stacking_flag caster_entity source_provider_ref stacking before
            met)
  unfolding add_or_act
  add_or_act-Keeps stacking before none = append_as-Keeps appended none before
  add_or_act-Keeps stacking before (some (owner, existing)) =
      act_on-Keeps stacking owner existing before (decide stacking existing target)

  try_add_stacking-Keeps :
      (known : Option ModifierStacking)
      → Keeps
          (try_add_stacking target modifier stacking_flag caster_entity source_provider_ref known)
  unfolding try_add_stacking
  try_add_stacking-Keeps none state all = all
  try_add_stacking-Keeps (some stacking) state all =
      elim (Bool-cases (source_required stacking && lacks source_provider_ref)) [
        | inl refused ↦ rw refused all
        | inr fine ↦
            elim (Result-cases
              (if is_global stacking then global_targets state else ok (target ∷ []))) [
                | inr (e, failed) ↦ rw (fine, failed) all
                | inl (owners, searched) ↦
                    rw (fine, searched) (add_or_act-Keeps stacking _ _ state all)
              ]
      ]

  pub try_add_modifier_instance-Keeps :
      (stacking : ℤ)
      → Keeps (
          try_add_modifier_instance target modifier stacking_flag caster_entity source_provider_ref
            stacking)
  unfolding try_add_modifier_instance
  try_add_modifier_instance-Keeps stacking = try_add_stacking-Keeps (stacking_of stacking)
