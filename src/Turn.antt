-- ===== src/Turn.antt =====
-- src/hsr_battle_agent/battle_runtime/turns.py: the turn timeline. A participant's remaining delay is
-- its property 38; the timeline holds the order, the actor, the elapsed delay, the phase and the index.
pub mod Sort
pub mod Steps
pub mod SortLaws
pub mod Participants
pub mod DelayWrite
pub mod Reduction
pub mod Keys
pub mod Completion
pub mod Start
pub mod Checked
pub mod Distinct
pub mod Advance
pub mod Stored
pub mod Runs
use hsr_battle_agent.Base.{
  Bool, List, Option, Ordering, Result, [], false, guard, if◌then◌else◌, none, not, ok, raise, some,
  timeline_not_initialized, true, turn_semantic, unsupported_participant, value_error, ◌&&◌, ◌>>=◌,
  ◌>>◌, ◌∷◌,
}
use hsr_battle_agent.Base.Int.{pos, ℤ}
use hsr_battle_agent.Component.{contains}
use hsr_battle_agent.FixPoint.{fixpoint_is_negative, fixpoint_less, is_lt, validate_raw}
use hsr_battle_agent.Property.{PropertyEntry, is_some}
use hsr_battle_agent.State.{BattleState, TurnTimeline, get_property_entry}
use hsr_battle_agent.Targets.{EntityRef}

-- `REMAINING_ACTION_DELAY_PROPERTY_ID`
abbrev pub delay_id : ℤ
delay_id = pos 38

-- `_require_nonnegative_raw`
unfoldable pub require_nonnegative_raw : ℤ → Result (Unit {0})
require_nonnegative_raw value = do
  validate_raw value
  negative ← fixpoint_is_negative value
  guard (not negative) value_error

-- `len(set(ids)) == len(ids)`
abbrev pub all_distinct : List ℤ → Bool
all_distinct [] = true
all_distinct (id ∷ ids) = not (contains ids id) && all_distinct ids

abbrev pub is_empty : List ℤ → Bool
is_empty [] = true
is_empty (_ ∷ _) = false

-- `_timeline`: the dict with its checks. Its phase is one of the three by its type.
unfoldable pub timeline : BattleState → Result TurnTimeline
timeline state = elim state.turn_timeline [
  | none ↦ raise timeline_not_initialized
  | some t ↦ do
    guard (not (is_empty t.action_entity_runtime_ids)) turn_semantic
    guard (all_distinct t.action_entity_runtime_ids) turn_semantic
    require_nonnegative_raw t.elapsed_action_delay_raw
    ok t
]

-- `_delay_entry`
unfoldable pub delay_entry : BattleState → EntityRef → Result PropertyEntry
delay_entry state entity = do
  found ← get_property_entry state entity delay_id
  elim found [
    | none ↦ raise unsupported_participant
    | some entry ↦ do
      require_nonnegative_raw entry.materialized
      guard (not (is_some entry.post_hook_context)) unsupported_participant
      guard (not (is_some entry.post_transform_a)) unsupported_participant
      guard (not (is_some entry.post_transform_b)) unsupported_participant
      ok entry
  ]

-- `remaining_action_delay`
unfoldable pub remaining_action_delay : BattleState → EntityRef → Result ℤ
remaining_action_delay state entity = do entry ← delay_entry state entity; ok entry.materialized

-- `_compare_entities`; -1, 0, 1 are `lt`, `eq`, `gt`
unfoldable pub compare_entities : BattleState → EntityRef → EntityRef → Result Ordering
compare_entities state left right = do
  left_entry ← delay_entry state left
  right_entry ← delay_entry state right
  less ← fixpoint_less left_entry.materialized right_entry.materialized
  greater ← fixpoint_less right_entry.materialized left_entry.materialized
  ok (if less then Ordering.lt else if greater then Ordering.gt else Ordering.eq)

-- The test that `list.sort` makes on the keys of `cmp_to_key`.
unfoldable pub comes_before : BattleState → EntityRef → EntityRef → Result Bool
comes_before state left right = do
  comparison ← compare_entities state left right
  ok (is_lt comparison)

-- `current_actor`
unfoldable pub current_actor : BattleState → Result (Option EntityRef)
current_actor state = do
  t ← timeline state
  ok (elim t.current_actor_runtime_id [ none ↦ none | some id ↦ some (record { runtime_id = id }) ])
