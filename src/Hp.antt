-- ===== src/Hp.antt =====
-- src/hsr_battle_agent/battle_runtime/hp.py with battle_ir/hp.py: the lock records of a component, and
-- the arithmetic of the HP transition, which reads entries and writes nothing.
pub mod Transition
pub mod Locks
pub mod Clamp
pub mod Frame
pub mod Damage
pub mod Effect
pub mod Reading
use hsr_battle_agent.Base.{
  Bool, List, Option, Result, String, [], drop, false, get_elem?, guard, if◌then◌else◌, index_error,
  length, map, none, not, ok, property_entry_not_found, raise, some, suc, true, value_error, zero,
  ℕ, ◌>>=◌, ◌>>◌, ◌∷◌,
}
use hsr_battle_agent.Base.Dict.{int_eq, lookup, string_eq}
use hsr_battle_agent.Base.Int.{ltb_ℤ, pos, ℤ}
use hsr_battle_agent.FixPoint.{
  fixpoint_equal, fixpoint_from_int32, fixpoint_greater, fixpoint_greater_equal, fixpoint_less,
  fixpoint_less_equal, is_raw, validate_raw,
}
use hsr_battle_agent.FixPoint.Arith.{fixedpoint_add, fixedpoint_multiply, fixedpoint_subtract}
use hsr_battle_agent.Modifier.{ref_eq}
use hsr_battle_agent.Property.{PropertyEntry}
use hsr_battle_agent.State.{BattleState, LockHpRecord, get_property_entry, key_eq}
use hsr_battle_agent.Targets.{EntityRef}

-- `CURRENT_HP_PROPERTY_ID`, `NEGATIVE_HP_PROPERTY_ID`, `MAX_HP_PROPERTY_ID` and
-- `DIRTY_HP_RATIO_PROPERTY_ID`
abbrev pub current_hp_id : ℤ
current_hp_id = pos 10

abbrev pub negative_hp_id : ℤ
negative_hp_id = pos 9

abbrev pub max_hp_id : ℤ
max_hp_id = pos 1

abbrev pub dirty_hp_ratio_id : ℤ
dirty_hp_ratio_id = pos 7

pub record LockHpResult : Type 0 where
  pub success : Bool
  pub lock_value : ℤ
  pub actions : List String

-- The checks of `LockHPRecord` as a record is read back.
abbrev pub check_record : LockHpRecord → Result (Unit {0})
check_record r = do
  guard (not (string_eq.beq r.action_ref "")) value_error
  guard (is_raw r.value) value_error

abbrev pub check_records : List LockHpRecord → Result (List LockHpRecord)
check_records [] = ok []
check_records (r ∷ records) = do check_record r; checked ← check_records records; ok (r ∷ checked)

-- `_records_from_state`
unfoldable pub records_from_state : BattleState → EntityRef → Result (List LockHpRecord)
records_from_state state component =
    elim (lookup component.runtime_id state.component_lock_hp_records) [
      | none ↦ ok []
      | some records ↦ check_records records
    ]

-- The accepted value with the best index so far, after the record at `index`; the flag is false where
-- the loop breaks.
unfoldable pub lock_step : ℤ → LockHpRecord → ℕ → Option (ℤ × ℕ) → Result (Bool × Option (ℤ × ℕ))
lock_step damage_kind r index found =
    if ltb_ℤ r.kind damage_kind then ok (true, found) else elim found [
      | none ↦ ok (true, some (r.value, index))
      | some (selected, best) ↦ do
        same ← fixpoint_equal selected r.value
        ok (if same then (true, some (selected, index)) else (false, some (selected, best)))
    ]

-- The loop of `try_get_lock_hp` on the indexes below the first argument, downwards.
unfoldable pub lock_scan : ℕ → List LockHpRecord → ℤ → Option (ℤ × ℕ) → Result (Option (ℤ × ℕ))
lock_scan zero records damage_kind found = ok found
lock_scan (suc index) records damage_kind found = elim (get_elem? records index) [
  | none ↦ raise index_error
  | some r ↦ elim (lock_step damage_kind r index found) [
    | raise e ↦ raise e
    | ok (more, next) ↦ elim more [
      | true ↦ lock_scan index records damage_kind next
      | false ↦ ok next
    ]
  ]
]

-- The actions run forward from the best index to the end of the list.
abbrev pub lock_result : List LockHpRecord → Option (ℤ × ℕ) → LockHpResult
lock_result records none = record { success = false; lock_value = pos 0; actions = [] }
lock_result records (some (selected, best)) = record {
  success = true;
  lock_value = selected;
  actions = map (λ r. r.action_ref) (drop best records);
}

unfoldable pub try_get_lock_hp : List LockHpRecord → ℤ → Result LockHpResult
try_get_lock_hp records damage_kind = do
  found ← lock_scan (length records) records damage_kind none
  ok (lock_result records found)

unfoldable pub try_get_lock_hp_from_state : BattleState → EntityRef → ℤ → Result LockHpResult
try_get_lock_hp_from_state state component damage_kind = do
  records ← records_from_state state component
  try_get_lock_hp records damage_kind

-- `_entry_materialized`
unfoldable pub entry_materialized : BattleState → EntityRef → ℤ → Result PropertyEntry
entry_materialized state component property_id = do
  found ← get_property_entry state component property_id
  elim found [ none ↦ raise property_entry_not_found | some entry ↦ ok entry ]

-- `_fp_min` and `_fp_max`
unfoldable pub fp_min : ℤ → ℤ → Result ℤ
fp_min left right = do less ← fixpoint_less left right; ok (if less then left else right)

unfoldable pub fp_max : ℤ → ℤ → Result ℤ
fp_max left right = do greater ← fixpoint_greater left right; ok (if greater then left else right)

-- What the transition has settled before its clamp.
pub record HpPlan : Type 0 where
  pub x : ℤ
  pub bound : ℤ
  pub p : ℤ
  pub flag : Bool

-- The threshold `t` that a lock puts under the current HP.
unfoldable pub lock_threshold : ℤ → ℤ → ℤ → Result ℤ
lock_threshold old_current max_hp lock_value = do
  k ← fixpoint_from_int32 (pos 2)
  lock_cap ← fixedpoint_multiply max_hp lock_value
  least ← fp_min k max_hp
  floor ← fp_max least lock_cap
  fp_min old_current floor

-- The plan where no lock acts: the bound is what the dirty ratio leaves of the maximum.
unfoldable pub unlocked_plan : BattleState → EntityRef → ℤ → ℤ → Result HpPlan
unlocked_plan state component candidate max_hp = do
  dirty ← entry_materialized state component dirty_hp_ratio_id
  lost ← fixedpoint_multiply max_hp dirty.materialized
  bound ← fixedpoint_subtract max_hp lost
  ok (record { x = candidate; bound = bound; p = pos 0; flag = false })

unfoldable pub locked_plan : BattleState → EntityRef → ℤ → ℤ → ℤ → ℤ → Result HpPlan
locked_plan state component old_current candidate max_hp lock_value = do
  t ← lock_threshold old_current max_hp lock_value
  below ← fixpoint_less candidate t
  if below
      then (do
        p ← fixedpoint_subtract t candidate
        ok (record { x = t; bound = max_hp; p = p; flag = true }))
      else unlocked_plan state component candidate max_hp

-- `FIXPOINT_ZERO`, `fixpoint_from_int32(0)`
abbrev pub zero_raw : ℤ
zero_raw = pos 0

unfoldable pub hp_plan : BattleState → EntityRef → ℤ → ℤ → ℤ → LockHpResult → Result HpPlan
hp_plan state component old_current candidate max_hp lock = do
  acts ← (if lock.success then fixpoint_greater max_hp zero_raw else ok false)
  if acts
      then locked_plan state component old_current candidate max_hp lock.lock_value
      else unlocked_plan state component candidate max_hp

-- The shared clamp.
unfoldable pub clamp_hp : ℤ → ℤ → ℤ → Result ℤ
clamp_hp x bound max_hp = do
  below ← fixpoint_less x bound
  if below then ok x else (do
    nonnegative ← fixpoint_greater_equal x zero_raw
    positive ← (if nonnegative then fixpoint_greater max_hp zero_raw else ok false)
    if positive then fp_max bound zero_raw else fp_min x max_hp)

-- What `direct_damage_hp_transition` has read and computed before its first boundary.
pub record HpDamage : Type 0 where
  pub current : PropertyEntry
  pub lock : LockHpResult
  pub plan : HpPlan
  pub y : ℤ
  pub negative_record : Bool

unfoldable pub hp_damage : BattleState → EntityRef → ℤ → ℤ → Result HpDamage
hp_damage state component delta damage_kind = do
  current ← entry_materialized state component current_hp_id
  maximum ← entry_materialized state component max_hp_id
  candidate ← fixedpoint_add current.materialized delta
  lock ← try_get_lock_hp_from_state state component damage_kind
  plan ← hp_plan state component current.materialized candidate maximum.materialized lock
  y ← clamp_hp plan.x plan.bound maximum.materialized
  negative_record ← fixpoint_less_equal y zero_raw
  ok (record {
    current = current;
    lock = lock;
    plan = plan;
    y = y;
    negative_record = negative_record;
  })

unfoldable pub set_hp_target : ℤ → ℤ → ℤ → Result ℤ
set_hp_target modify_value max_hp modify_ratio = do
  validate_raw modify_value
  validate_raw max_hp
  validate_raw modify_ratio
  product ← fixedpoint_multiply max_hp modify_ratio
  fixedpoint_add modify_value product

unfoldable pub set_hp_delta : ℤ → ℤ → Result ℤ
set_hp_delta target current = do
  validate_raw target
  validate_raw current
  fixedpoint_subtract target current
