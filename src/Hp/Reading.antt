-- ===== src/Hp/Reading.antt =====
-- What hp_damage of Hp.antt guarantees where it succeeds, for direct_damage_hp_transition in
-- src/hsr_battle_agent/battle_runtime/hp.py.
use hsr_battle_agent.Base.{
  >>=-eq-ok, Bool, Bool-cases, false, inl, inr, ok, raise, true, value_error, ◌≡◌,
}
use hsr_battle_agent.Base.Int.{ℤ}
use hsr_battle_agent.FixPoint.{fixpoint_less_equal, is_raw, validate_raw}
use hsr_battle_agent.FixPoint.Arith.{fixedpoint_add}
use hsr_battle_agent.Hp.{
  HpDamage, clamp_hp, current_hp_id, entry_materialized, hp_damage, hp_plan, max_hp_id,
  try_get_lock_hp_from_state, zero_raw,
}
use hsr_battle_agent.State.{BattleState}
use hsr_battle_agent.Targets.{EntityRef}
use mathlib.Core.Path.{subst}

raw-of-less_equal :
    (a b : ℤ) (result : Bool) → fixpoint_less_equal a b ≡ ok result → is_raw a ≡ true
unfolding fixpoint_less_equal validate_raw
raw-of-less_equal a b result h = elim (Bool-cases (is_raw a)) [
  | inl raw ↦ raw
  | inr bad ↦ absurd (refused bad h)
]
  where
    refused : is_raw a ≡ false → fixpoint_less_equal a b ≡ ok result → ⊥
    refused bad h' = let e : raise value_error ≡ ok result = (rw bad at h') in cc

same-y : (a b : HpDamage) → ok a ≡ ok b → a.y ≡ b.y
same-y a b h = cc

pub hp_damage-y :
    (state : BattleState) (component : EntityRef) (delta damage_kind : ℤ) (damage : HpDamage)
    → hp_damage state component delta damage_kind ≡ ok damage
    → is_raw damage.y ≡ true
unfolding hp_damage
hp_damage-y state component delta damage_kind damage h =
    let (current, e1, h1) = >>=-eq-ok (entry_materialized state component current_hp_id) _ h in
    let (maximum, e2, h2) = >>=-eq-ok (entry_materialized state component max_hp_id) _ h1 in
    let (candidate, e3, h3) = >>=-eq-ok (fixedpoint_add current.materialized delta) _ h2 in
    let (lock, e4, h4) = >>=-eq-ok (try_get_lock_hp_from_state state component damage_kind) _ h3 in
    let (plan, e5, h5) =
      >>=-eq-ok (hp_plan state component current.materialized candidate maximum.materialized lock) _
        h4 in
    let (y, e6, h6) = >>=-eq-ok (clamp_hp plan.x plan.bound maximum.materialized) _ h5 in
    let (negative, e7, h7) = >>=-eq-ok (fixpoint_less_equal y zero_raw) _ h6 in
    subst (λ v. is_raw v ≡ true) (same-y _ damage h7) (raw-of-less_equal y zero_raw negative e7)
