-- ===== src/Hp/Damage.antt =====
-- The frame of direct_damage_hp_transition in src/hsr_battle_agent/battle_runtime/hp.py.
use hsr_battle_agent.Base.{
  >>=-eq-ok, Bool, Bool-cases, Option, Result-cases, ap, false, if◌then◌else◌, inl, inr, ok, refl,
  some, true, ◌&&◌, ◌∙◌, ◌≡◌,
}
use hsr_battle_agent.Base.Action.{>>-pure-state, Action, ◌>>=◌}
use hsr_battle_agent.Base.Int.{eqb_ℤ, pos, ℤ}
use hsr_battle_agent.Component.Laws.{AllValid}
use hsr_battle_agent.FixPoint.{fixpoint_is_positive, fixpoint_less_equal, validate_raw}
use hsr_battle_agent.FixPoint.Arith.{fixedpoint_add, fixedpoint_subtract}
use hsr_battle_agent.Hp.{
  HpDamage, HpPlan, clamp_hp, current_hp_id, entry_materialized, hp_damage, hp_plan, max_hp_id,
  negative_hp_id, try_get_lock_hp_from_state, zero_raw,
}
use hsr_battle_agent.Hp.Frame.{
  Framed, Framed-same, Framed-trans, entry_materialized-stored, write_source_zero_to-Framed,
}
use hsr_battle_agent.Hp.Transition.{
  write_source_zero_to, write_negative_hp_to, settle_damage_to, after_current_to, commit_damage_to,
  direct_damage_hp_transition_to, own_value, after_current, commit_damage,
  direct_damage_hp_transition, emit_if, is_written, settle_damage, write_negative_hp,
  write_source_zero,
}
use hsr_battle_agent.Property.{PropertyEntry}
use hsr_battle_agent.Property.Valid.{IsValid}
use hsr_battle_agent.State.{
  emit_hp_boundary_to, recording, BattleState, HpBoundary, World, emit_hp_boundary,
}
use hsr_battle_agent.Targets.{EntityRef}

pub emit_if-state :
    (test : Bool) (boundary : HpBoundary) (w : World) → (emit_if test boundary w).1.state ≡ w.state
unfolding emit_hp_boundary_to emit_hp_boundary
emit_if-state true boundary w = refl
emit_if-state false boundary w = refl

write_negative_hp-Framed :
    (component : EntityRef) (negative_hp_gate : Bool) (plan : HpPlan) (w : World)
    → AllValid w.state
    → Framed component w (write_negative_hp component negative_hp_gate plan w).1
unfolding write_negative_hp_to
write_negative_hp-Framed component negative_hp_gate plan w valid =
    elim (Result-cases
      (if negative_hp_gate && plan.flag then fixpoint_is_positive plan.p else ok false)) [
        | inr (e, failed) ↦ rw failed (Framed-same component w w valid refl)
        | inl (positive, tested) ↦ elim (Bool-cases positive) [
          | inr closed ↦ rw (tested, closed) (Framed-same component w w valid refl)
          | inl opened ↦ elim (Result-cases (entry_materialized w.state component negative_hp_id)) [
            | inr (e, missing) ↦ rw (tested, opened, missing) (Framed-same component w w valid refl)
            | inl (entry, read) ↦ elim (Result-cases (fixedpoint_add entry.materialized plan.p)) [
              | inr (e, failed) ↦
                  rw (tested, opened, read, failed) (Framed-same component w w valid refl)
              | inl (sum, added) ↦
                  rw
                    (
                      tested,
                      opened,
                      read,
                      added,
                      >>-pure-state {B = Option (ℤ × ℤ)}
                          (write_source_zero_to recording (λ _. sum) component negative_hp_id entry
                            sum)
                          (some (entry.materialized, sum)) w,
                    )
                    (write_source_zero_to-Framed (λ _. sum) component negative_hp_id entry sum w
                      valid
                      (valid _ entry
                        (entry_materialized-stored w.state component negative_hp_id entry read))
                      (inr refl))
            ]
          ]
        ]
      ]

bind-Framed :
    {A B : Type 0} (component : EntityRef) (m : Action World A) (f : A → Action World B) (w : World)
    → Framed component w (m w).1
    → ((a : A) → Framed component (m w).1 (f a (m w).1).1)
    → Framed component w ((m >>= f) w).1
bind-Framed component m f w first rest = elim (Result-cases (m w).0) [
  | inl (a, e) ↦ rw (e, ◌>>=◌) (Framed-trans component w (m w).1 (f a (m w).1).1 first (rest a))
  | inr (error, e) ↦ rw (e, ◌>>=◌) first
]

settle_damage-Framed :
    (component : EntityRef) (delta : ℤ) (damage : HpDamage) (new : PropertyEntry) (applied : ℤ)
    (negative_hp : Option (ℤ × ℤ)) (w : World)
    → AllValid w.state
    → Framed component w (settle_damage component delta damage new applied negative_hp w).1
unfolding settle_damage_to emit_hp_boundary_to emit_hp_boundary
settle_damage-Framed component delta damage new applied negative_hp w valid =
    elim (Result-cases
      (if is_written negative_hp then fixedpoint_subtract zero_raw delta else ok applied)) [
        | inr (e, failed) ↦ rw failed (Framed-same component w w valid refl)
        | inl (value, done) ↦ elim (Bool-cases damage.plan.flag) [
          | inl on ↦
              rw (done, on)
                (Framed-same component w _ valid
                  (emit_if-state true (HpBoundary.lock_action damage.lock.actions) w))
          | inr off ↦ rw (done, off) (Framed-same component w w valid refl)
        ]
      ]

after_current-Framed :
    (component : EntityRef) (delta : ℤ) (negative_hp_gate : Bool) (damage : HpDamage)
    (new : PropertyEntry) (w : World)
    → AllValid w.state
    → Framed component w (after_current component delta negative_hp_gate damage new w).1
unfolding after_current_to
after_current-Framed component delta negative_hp_gate damage new w valid =
    elim (Result-cases (fixedpoint_subtract new.materialized damage.current.materialized)) [
      | inr (e, failed) ↦ rw failed (Framed-same component w w valid refl)
      | inl (applied, done) ↦
          let written = write_negative_hp-Framed component negative_hp_gate damage.plan w valid in
          rw done (
            bind-Framed component (write_negative_hp component negative_hp_gate damage.plan)
              (settle_damage component delta damage new applied) w written
              (λ negative_hp.
                settle_damage-Framed component delta damage new applied negative_hp _
                  written.valid))
    ]

commit_damage-Framed :
    (component : EntityRef) (delta : ℤ) (negative_hp_gate : Bool) (damage : HpDamage) (w : World)
    → AllValid w.state
    → IsValid damage.current
    → Framed component w (commit_damage component delta negative_hp_gate damage w).1
unfolding commit_damage_to
commit_damage-Framed component delta negative_hp_gate damage w valid h =
    let emit = emit_if damage.negative_record (HpBoundary.negative_hp_record damage.y) in
    let emitted =
      Framed-same component w (emit w).1 valid
        (emit_if-state damage.negative_record (HpBoundary.negative_hp_record damage.y) w) in
    bind-Framed component emit
      (λ _.
        write_source_zero component current_hp_id damage.current damage.y
        >>= after_current component delta negative_hp_gate damage)
      w emitted
      (λ _.
        let written =
          write_source_zero_to-Framed own_value component current_hp_id damage.current damage.y
            (emit w).1 emitted.valid h (inl refl) in
        bind-Framed component (write_source_zero component current_hp_id damage.current damage.y)
          (after_current component delta negative_hp_gate damage) (emit w).1 written
          (λ new. after_current-Framed component delta negative_hp_gate damage new _ written.valid))

same-current : (a b : HpDamage) → ok a ≡ ok b → a.current ≡ b.current
same-current a b h = cc

pub hp_damage-current :
    (state : BattleState) (component : EntityRef) (delta damage_kind : ℤ) (damage : HpDamage)
    → hp_damage state component delta damage_kind ≡ ok damage
    → entry_materialized state component current_hp_id ≡ ok damage.current
unfolding hp_damage
hp_damage-current state component delta damage_kind damage h =
    let (current, e1, h1) = >>=-eq-ok (entry_materialized state component current_hp_id) _ h in
    let (maximum, e2, h2) = >>=-eq-ok (entry_materialized state component max_hp_id) _ h1 in
    let (candidate, e3, h3) = >>=-eq-ok (fixedpoint_add current.materialized delta) _ h2 in
    let (lock, e4, h4) = >>=-eq-ok (try_get_lock_hp_from_state state component damage_kind) _ h3 in
    let (plan, e5, h5) =
      >>=-eq-ok (hp_plan state component current.materialized candidate maximum.materialized lock) _
        h4 in
    let (y, e6, h6) = >>=-eq-ok (clamp_hp plan.x plan.bound maximum.materialized) _ h5 in
    let (negative, e7, h7) = >>=-eq-ok (fixpoint_less_equal y zero_raw) _ h6 in
    e1 ∙ ap ok (same-current _ damage h7)

-- From well-formed entries, a transition writes at most the current and the negative HP of its
-- component and leaves every stored entry well-formed, whether it returns or raises.
pub direct_damage-Framed :
    (component : EntityRef) (delta damage_kind mode : ℤ) (negative_hp_gate : Bool) (w : World)
    → AllValid w.state
    → Framed component w
        (direct_damage_hp_transition component delta damage_kind mode negative_hp_gate w).1
unfolding direct_damage_hp_transition_to
direct_damage-Framed component delta damage_kind mode negative_hp_gate w valid =
    elim (Result-cases (validate_raw delta)) [
      | inr (e, refused) ↦ rw refused (Framed-same component w w valid refl)
      | inl (u, fine) ↦ elim (Bool-cases (eqb_ℤ mode (pos 0))) [
        | inr other ↦ rw (fine, other) (Framed-same component w w valid refl)
        | inl zero_mode ↦ elim (Result-cases (hp_damage w.state component delta damage_kind)) [
          | inr (e, failed) ↦ rw (fine, zero_mode, failed) (Framed-same component w w valid refl)
          | inl (damage, read) ↦
              rw (fine, zero_mode, read)
                (commit_damage-Framed component delta negative_hp_gate damage w valid (
                  valid _ damage.current (
                    entry_materialized-stored w.state component current_hp_id damage.current
                      (hp_damage-current w.state component delta damage_kind damage read))))
        ]
      ]
    ]
