-- ===== src/Tests/Health.antt =====
-- An entity with its current and maximum HP, and lock records.
use hsr_battle_agent.Base.{
  List, [], arith, false, if◌then◌else◌, none, ok, refl, some, true, ◌-◌, ◌^◌, ◌∷◌, ◌≡◌,
}
use hsr_battle_agent.Base.Dict.{int_eq, lookup}
use hsr_battle_agent.Base.Int.{pos, ℤ, ◌*ℤ◌, ◌+ℤ◌, ◌-ℤ◌, ◌<ℤ◌, ◌≤ℤ◌}
use hsr_battle_agent.Component.Laws.{AllValid}
use hsr_battle_agent.FixPoint.{
  compare_words, fixpoint_compare, fixpoint_less, fixpoint_less_equal, is_raw, validate_raw,
}
use hsr_battle_agent.FixPoint.Arith.{
  decode_fixpoint_common, encode_fixpoint_common, encode_saturated, fixedpoint_add,
  fixedpoint_multiply, fixedpoint_subtract, saturate_common,
}
use hsr_battle_agent.FixPoint.Order.{scaled, scaled_word}
use hsr_battle_agent.Hp.{
  HpDamage, LockHpResult, clamp_hp, current_hp_id, dirty_hp_ratio_id, entry_materialized, hp_damage,
  hp_plan, lock_scan, max_hp_id, records_from_state, try_get_lock_hp, try_get_lock_hp_from_state,
  unlocked_plan,
}
use hsr_battle_agent.Hp.Clamp.{clamp_hp-le, clamp_hp-nonnegative}
use hsr_battle_agent.Hp.Damage.{direct_damage-Framed}
use hsr_battle_agent.Hp.Effect.{Damaged, direct_damage-Damaged}
use hsr_battle_agent.Hp.Frame.{Framed}
use hsr_battle_agent.Hp.Locks.{try_get_lock_hp-selects}
use hsr_battle_agent.Hp.Transition.{HpTransitionResult, direct_damage_hp_transition}
use hsr_battle_agent.Modifier.{ref_eq}
use hsr_battle_agent.Property.{PropertyEntry, post_init}
use hsr_battle_agent.Property.Valid.{IsValid}
use hsr_battle_agent.State.{LockHpRecord, World, get_property_entry, key_eq, property_entry_key}
use hsr_battle_agent.Tests.Calls.{ValidDict-cons, ValidDict-nil, hero}
use hsr_battle_agent.Tests.Numbers.{one, two}

abbrev pub hp_entry : ℤ → PropertyEntry
hp_entry value = record {
  source_generation = 1 ∷ [];
  source_active = true ∷ [];
  source_value = value ∷ [];
  post_hook_context = none;
  post_transform_a = none;
  post_transform_b = none;
  materialization_kind = 1;
  generation_counter = 1;
  active_source_extent = 1;
  last_changed_source = 0;
  base_or_fallback = pos 0;
  materialized = value;
}

hp_entry-IsValid : (value : ℤ) → is_raw value ≡ true → IsValid (hp_entry value)
hp_entry-IsValid value raw = record {
  stamped = (omega arith, omega arith, tt);
  parallel = refl;
  values = rw raw refl;
  base = refl;
  materialized_raw = raw;
  extent = refl;
}

abbrev locks : List LockHpRecord
locks =
    record { action_ref = "a"; kind = pos 5; value = one }
    ∷ record { action_ref = "b"; kind = pos 1; value = two }
    ∷ []

abbrev wounded : World
wounded = record {
  state = record {
    extensions = [];
    modifier_state_by_entity = [];
    entity_property_entries =
        (property_entry_key hero current_hp_id, hp_entry two)
        ∷ (property_entry_key hero max_hp_id, hp_entry two)
        ∷ (property_entry_key hero dirty_hp_ratio_id, hp_entry (pos 0))
        ∷ [];
    modifier_property_contributions = [];
    component_lock_hp_records = [];
    turn_timeline = none;
  };
  boundaries = some [];
  hp_boundaries = some [];
}

wounded-AllValid : AllValid wounded.state
wounded-AllValid =
    ValidDict-cons (property_entry_key hero current_hp_id) (hp_entry two) _
      (hp_entry-IsValid two refl)
      (ValidDict-cons (property_entry_key hero max_hp_id) (hp_entry two) _
        (hp_entry-IsValid two refl)
        (ValidDict-cons (property_entry_key hero dirty_hp_ratio_id) (hp_entry (pos 0)) []
          (hp_entry-IsValid (pos 0) refl) ValidDict-nil))

direct_damage-Framed_example :
    Framed hero wounded
      (direct_damage_hp_transition hero (pos (2 ^ 64 - 2 ^ 33)) (pos 100) (pos 0) false wounded).1
direct_damage-Framed_example =
    direct_damage-Framed hero (pos (2 ^ 64 - 2 ^ 33)) (pos 100) (pos 0) false wounded
      wounded-AllValid

try_get_lock_hp-selects_example :
    (result : LockHpResult) × (try_get_lock_hp locks (pos 3) ≡ ok result)
    × ((if result.success then some result.lock_value else none) ≡ some one)
try_get_lock_hp-selects_example = try_get_lock_hp-selects locks (pos 3) refl

one_le_two : scaled one ≤ℤ scaled two
unfolding scaled scaled_word
one_le_two = omega arith

one_nonnegative : pos 0 ≤ℤ scaled one
unfolding scaled scaled_word
one_nonnegative = omega arith

two_positive : pos 0 <ℤ scaled two
unfolding scaled scaled_word
two_positive = omega arith

clamp_hp-le_example :
    (y : ℤ) × (clamp_hp two one two ≡ ok y) × (is_raw y ≡ true) × (scaled y ≤ℤ scaled two)
clamp_hp-le_example = clamp_hp-le two one two refl refl refl one_le_two

clamp_hp-nonnegative_example :
    (y : ℤ) × (clamp_hp one two two ≡ ok y) × (is_raw y ≡ true) × (pos 0 ≤ℤ scaled y)
clamp_hp-nonnegative_example =
    clamp_hp-nonnegative one two two refl refl refl one_nonnegative two_positive

-- Damage of one from two HP.
abbrev minus_one : ℤ
minus_one = pos (2 ^ 64 - 2 ^ 33)

abbrev light_damage : HpDamage
light_damage = record {
  current = hp_entry two;
  lock = record { success = false; lock_value = pos 0; actions = [] };
  plan = record { x = one; bound = two; p = pos 0; flag = false };
  y = one;
  negative_record = false;
}

light_damage_read : hp_damage wounded.state hero minus_one (pos 100) ≡ ok light_damage
unfolding hp_damage entry_materialized get_property_entry lookup post_init fixedpoint_add
    try_get_lock_hp_from_state records_from_state try_get_lock_hp lock_scan hp_plan unlocked_plan
    fixedpoint_multiply fixedpoint_subtract clamp_hp fixpoint_less fixpoint_less_equal
    fixpoint_compare compare_words validate_raw decode_fixpoint_common encode_fixpoint_common
    encode_saturated saturate_common ◌+ℤ◌ ◌-ℤ◌ ◌*ℤ◌
light_damage_read = refl

direct_damage-Damaged_example :
    (r : HpTransitionResult) × (w' : World) × (direct_damage_hp_transition hero minus_one
        (pos 100)
        (pos 0)
        false
        wounded
      ≡ (ok r, w'))
    × Damaged hero light_damage wounded r w'
direct_damage-Damaged_example =
    direct_damage-Damaged hero minus_one (pos 100) light_damage wounded wounded-AllValid refl
      light_damage_read
      (record { hook = refl; transform_a = refl; transform_b = refl; kind = refl }) refl
      (omega arith)
