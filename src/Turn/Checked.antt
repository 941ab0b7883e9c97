-- ===== src/Turn/Checked.antt =====
-- The checks of _timeline in src/hsr_battle_agent/battle_runtime/turns.py.
use hsr_battle_agent.Base.{
  >>=-eq-ok, Bool, Error, Option-cases, Result, ◌>>=◌, arith, false, guard, inl, inr, not, ok,
  raise, refl, timeline_not_initialized, true, turn_semantic, value_error, ◌>>◌, ◌≡◌,
}
use hsr_battle_agent.Base.Int.{ℤ}
use hsr_battle_agent.FixPoint.{fixpoint_is_negative, is_raw, validate_raw}
use hsr_battle_agent.State.{BattleState, TurnTimeline}
use hsr_battle_agent.Turn.{all_distinct, is_empty, require_nonnegative_raw, timeline}

guard-true : (b : Bool) (e : Error) (u : Unit {0}) → guard b e ≡ ok u → b ≡ true
guard-true true e u h = refl
guard-true false e u h = cc

abbrev checked_timeline : TurnTimeline → Result TurnTimeline
checked_timeline t = do
  guard (not (is_empty t.action_entity_runtime_ids)) turn_semantic
  guard (all_distinct t.action_entity_runtime_ids) turn_semantic
  require_nonnegative_raw t.elapsed_action_delay_raw
  ok t

validate_raw-is_raw : (value : ℤ) (u : Unit {0}) → validate_raw value ≡ ok u → is_raw value ≡ true
unfolding validate_raw
validate_raw-is_raw value u h = guard-true (is_raw value) value_error u h

not_negative :
    (r : Result Bool) {u : Unit {0}}
    → (r >>= λ negative. guard (not negative) value_error) ≡ ok u
    → r ≡ ok false
not_negative (ok false) h = refl
not_negative (ok true) h = cc
not_negative (raise e) h = cc

-- What the checks of `timeline` establish.
pub record Checked (t : TurnTimeline) : Type 0 where
  pub filled : is_empty t.action_entity_runtime_ids ≡ false
  pub distinct : all_distinct t.action_entity_runtime_ids ≡ true
  pub raw : is_raw t.elapsed_action_delay_raw ≡ true
  pub nonnegative : fixpoint_is_negative t.elapsed_action_delay_raw ≡ ok false

ok-timeline : (s t : TurnTimeline) → ok s ≡ ok t → s ≡ t
ok-timeline s t h = cc

checked_timeline-Checked : (s t : TurnTimeline) → checked_timeline s ≡ ok t → Checked t
unfolding require_nonnegative_raw
checked_timeline-Checked s t h =
    let (u1, e1, h1) =
      >>=-eq-ok (guard (not (is_empty s.action_entity_runtime_ids)) turn_semantic) _ h in
    let (u2, e2, h2) =
      >>=-eq-ok (guard (all_distinct s.action_entity_runtime_ids) turn_semantic) _ h1 in
    let (u3, e3, h3) = >>=-eq-ok (require_nonnegative_raw s.elapsed_action_delay_raw) _ h2 in
    let (u4, e4, h4) = >>=-eq-ok (validate_raw s.elapsed_action_delay_raw) _ e3 in
    let same : s ≡ t = ok-timeline s t h3 in
    rw (← same) (record {
      filled =
          ground
            (arith, guard-true (not (is_empty s.action_entity_runtime_ids)) turn_semantic u1 e1);
      distinct = guard-true (all_distinct s.action_entity_runtime_ids) turn_semantic u2 e2;
      raw = validate_raw-is_raw s.elapsed_action_delay_raw u4 e4;
      nonnegative = not_negative (fixpoint_is_negative s.elapsed_action_delay_raw) h4;
    })

pub timeline-Checked : (state : BattleState) (t : TurnTimeline) → timeline state ≡ ok t → Checked t
unfolding timeline
timeline-Checked state t h = elim (Option-cases state.turn_timeline) [
  | inl absent ↦
      let bad : raise timeline_not_initialized ≡ ok t = (rw (absent, timeline) at h) in cc
  | inr (s, stored) ↦ checked_timeline-Checked s t (rw (stored, timeline) at h)
]
