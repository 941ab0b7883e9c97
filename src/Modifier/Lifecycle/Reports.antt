-- ===== src/Modifier/Lifecycle/Reports.antt =====
-- The counts that try_add_modifier_instance of src/hsr_battle_agent/battle_runtime/modifiers.py reports.
use hsr_battle_agent.Base.{
  Bool-cases, Option, Result, Result-cases, [], ap, arith, if◌then◌else◌, inl, inr, length,
  length-set, ltb, none, ok, raise, refl, set, some, sym, ℕ, ◌&&◌, ◌∙◌, ◌∷◌, ◌≡◌,
}
use hsr_battle_agent.Base.Action.{>>-pure-state, Action, pure, ◌>>=◌}
use hsr_battle_agent.Base.Dict.{int_eq}
use hsr_battle_agent.Base.Int.{eqb_ℤ, pos, ℤ}
use hsr_battle_agent.Modifier.{
  ModifierContainer, ModifierRef, ModifierStacking, ModifierState, ref, ref_eq, replace_at,
  stacking_of,
}
use hsr_battle_agent.Modifier.Lifecycle.{
  container_of, destroy_modifier_instance, find_instance, refresh_instance, replace_item,
  write_container,
}
use hsr_battle_agent.Modifier.Lifecycle.Invariant.{container_of-write}
use hsr_battle_agent.Modifier.Lifecycle.TryAdd.{
  Decision, Disposition, ModifierLifecycleResult, act_on, add_or_act, append_as, append_duplicate,
  append_new_instance, appended, decide, delay_existing, destroyed_and_appended, duplicate_appended,
  global_targets, is_global, lacks, process_existing, processed, replace_global, source_required,
  try_add_modifier_instance, try_add_stacking,
}
use hsr_battle_agent.Modifier.Match.{apply_redd_life_core}
use hsr_battle_agent.State.{BattleState, key_eq}
use hsr_battle_agent.Targets.{EntityRef}
use hsr_battle_agent.Values.{ObjectRef}

abbrev size : BattleState → EntityRef → ℕ
size state owner = length (container_of state owner)

replace_item-size :
    (owner target : EntityRef) (index : ℕ) (new : ModifierState) (state : BattleState)
    → size (replace_item owner index new state).1 target ≡ size state target
unfolding replace_item replace_at
replace_item-size owner target index new state =
    elim (Bool-cases (ltb index (length (container_of state owner)))) [
      | inr out ↦ rw out refl
      | inl fits ↦ elim (Bool-cases (eqb_ℤ target.runtime_id owner.runtime_id)) [
        | inr other ↦
            rw
              (
                fits,
                container_of-write target owner (set (container_of state owner) index new) state,
                other,
              )
              refl
        | inl same ↦
            let e : owner ≡ target =
              ground (arith, int_eq.beq_iff target.runtime_id owner.runtime_id) in
            rw
              (
                fits,
                container_of-write target owner (set (container_of state owner) index new) state,
                same,
              )
              (length-set (container_of state owner) index new ∙ ap (size state) e)
      ]
    ]

refresh_instance-size :
    (owner target : EntityRef) (modifier : ModifierState) (stacking : ModifierStacking)
    (new_count new_life : ℤ) (state : BattleState)
    → size (refresh_instance owner modifier stacking new_count new_life state).1 target
      ≡ size state target
unfolding refresh_instance
refresh_instance-size owner target modifier stacking new_count new_life state =
    elim (Result-cases (find_instance (container_of state owner) modifier)) [
      | inr (e, missing) ↦ rw missing refl
      | inl ((index, m), found) ↦
          elim (Result-cases (apply_redd_life_core m stacking new_count new_life)) [
            | inr (e, failed) ↦ rw (found, failed) refl
            | inl (updated, done) ↦
                rw (found, done, >>-pure-state (replace_item owner index updated) updated state)
                  (replace_item-size owner target index updated state)
          ]
    ]

written_items :
    (target : EntityRef) (items : ModifierContainer) (state : BattleState)
    → container_of (write_container target items state).1 target ≡ items
written_items target items state =
    rw
      (
        container_of-write target target items state,
        (int_eq.beq_iff target.runtime_id target.runtime_id).1 refl,
      )
      refl

-- What a result says of the sizes before and after.
pub record Counted (target : EntityRef) (before : ℕ) (r : ModifierLifecycleResult)
    (state' : BattleState) : Type 0 where
  pub before_size : r.before_count ≡ before
  pub after_size : r.after_count ≡ length (container_of state' target)

abbrev pub Reported : EntityRef → ℕ → Result ModifierLifecycleResult × BattleState → Type 0
Reported target before (ok r, state') = Counted target before r state'
Reported target before (raise e, state') = Unit

-- An action reports what its continuation reports.
then-Reported :
    {A : Type 0} (target : EntityRef) (before : ℕ)
    (next : A → Action BattleState ModifierLifecycleResult) (r : Result A) (state' : BattleState)
    → ((a : A) → Reported target before (next a state'))
    → Reported target before (((λ _. (r, state')) >>= next) state')
then-Reported target before next (ok a) state' h = h a
then-Reported target before next (raise e) state' h = tt

module _ (target : EntityRef) (modifier : ModifierState) (stacking_flag : ℤ)
    (caster_entity : Option EntityRef) (source_provider_ref : Option ObjectRef) where
  append_as-Reported :
      (disposition : Disposition) (destroyed : Option ModifierRef) (before : ℕ)
      (state : BattleState)
      → Reported target before (
          append_as target modifier stacking_flag caster_entity source_provider_ref disposition
            destroyed before state)
  unfolding append_as append_new_instance write_container
  append_as-Reported disposition destroyed before state = record {
    before_size = refl;
    after_size = sym (ap length (written_items target _ state));
  }

  act_on-Reported :
      (stacking : ModifierStacking) (owner : EntityRef) (existing : ModifierState)
      (decision : Decision) (state : BattleState)
      → Reported target (length (container_of state target)) (
          act_on target modifier stacking_flag caster_entity source_provider_ref stacking owner
            existing
            (length (container_of state target))
            decision
            state)
  unfolding act_on
  act_on-Reported stacking owner existing append_duplicate state =
      append_as-Reported duplicate_appended none (length (container_of state target)) state
  act_on-Reported stacking owner existing replace_global state =
      then-Reported target (length (container_of state target))
        (λ gone.
          append_as target modifier stacking_flag caster_entity source_provider_ref
            destroyed_and_appended (some (ref existing)) (length (container_of state target)))
        (destroy_modifier_instance owner existing state).0
        (destroy_modifier_instance owner existing state).1
        (λ gone.
          append_as-Reported destroyed_and_appended (some (ref existing))
            (length (container_of state target)) (destroy_modifier_instance owner existing state).1)
  act_on-Reported stacking owner existing delay_existing state = record {
    before_size = refl;
    after_size = refl;
  }
  act_on-Reported stacking owner existing process_existing state =
      then-Reported target (length (container_of state target))
        (λ updated. pure (processed (length (container_of state target)) updated))
        (refresh_instance owner existing stacking (pos modifier.count) modifier.current_life
          state).0
        (refresh_instance owner existing stacking (pos modifier.count) modifier.current_life
          state).1
        (λ updated. record {
          before_size = refl;
          after_size = sym (
              refresh_instance-size owner target existing stacking (pos modifier.count)
                modifier.current_life state);
        })

  add_or_act-Reported :
      (stacking : ModifierStacking) (met : Option (EntityRef × ModifierState)) (state : BattleState)
      → Reported target (length (container_of state target)) (
          add_or_act target modifier stacking_flag caster_entity source_provider_ref stacking
            (length (container_of state target))
            met
            state)
  unfolding add_or_act
  add_or_act-Reported stacking none state =
      append_as-Reported appended none (length (container_of state target)) state
  add_or_act-Reported stacking (some (owner, existing)) state =
      act_on-Reported stacking owner existing (decide stacking existing target) state

  try_add_stacking-Reported :
      (known : Option ModifierStacking) (state : BattleState)
      → Reported target (length (container_of state target)) (
          try_add_stacking target modifier stacking_flag caster_entity source_provider_ref known
            state)
  unfolding try_add_stacking
  try_add_stacking-Reported none state = tt
  try_add_stacking-Reported (some stacking) state =
      elim (Bool-cases (source_required stacking && lacks source_provider_ref)) [
        | inl refused ↦ rw refused tt
        | inr fine ↦
            elim (Result-cases
              (if is_global stacking then global_targets state else ok (target ∷ []))) [
                | inr (e, failed) ↦ rw (fine, failed) tt
                | inl (owners, searched) ↦
                    rw (fine, searched) (add_or_act-Reported stacking _ state)
              ]
      ]

  -- A result of try_add_modifier_instance reports as its counts the sizes of the target's container
  -- before the call and after it, for every stacking and disposition.
  pub try_add_modifier_instance-Reported :
      (stacking : ℤ) (state : BattleState)
      → Reported target (length (container_of state target)) (
          try_add_modifier_instance target modifier stacking_flag caster_entity source_provider_ref
            stacking state)
  unfolding try_add_modifier_instance
  try_add_modifier_instance-Reported stacking state =
      try_add_stacking-Reported (stacking_of stacking) state
