-- ===== src/Tests/Entries.antt =====
-- Property entries of three slots.
use hsr_battle_agent.Base.{
  All, [], arith, false, get_elem?, none, ok, refl, some, true, ℕ, ◌*◌, ◌^◌, ◌∷◌, ◌≡◌, ◌≢◌, ◌≤◌,
}
use hsr_battle_agent.Base.Int.{pos, ℤ, ◌*ℤ◌, ◌+ℤ◌, ◌≤ℤ◌}
use hsr_battle_agent.FixPoint.{is_raw, validate_raw}
use hsr_battle_agent.FixPoint.Arith.{
  decode_fixpoint_common, encode_fixpoint_common, encode_saturated, fixedpoint_add, saturate_common,
}
use hsr_battle_agent.FixPoint.Order.{scaled}
use hsr_battle_agent.Property.{
  PropertyEntry, active_indices, materialize_by_kind, require_supported_post_stages,
  reserve_source_zero,
}
use hsr_battle_agent.Property.ActiveValues.{materialize-reduce, reduce}
use hsr_battle_agent.Property.Extrema.{IsOneOf, materialize-greatest, materialize-least}
use hsr_battle_agent.Property.Lifecycle.{allocate-others, allocate_source_slot_lem}
use hsr_battle_agent.Property.Materialize.{materialize_by_kind-total}
use hsr_battle_agent.Property.Removal.{remove-allocate}
use hsr_battle_agent.Property.Slots.{
  allocate_source_slot, choose_slot, rebuild_materialized, remove_source_slot,
}
use hsr_battle_agent.Property.Valid.{IsSupported, IsValid}
use hsr_battle_agent.Tests.Numbers.{one, two}

-- Slots 0 and 2 are active.
abbrev pub three_slots : ℕ → PropertyEntry
three_slots kind = record {
  source_generation = 1 ∷ 0 ∷ 2 ∷ [];
  source_active = true ∷ false ∷ true ∷ [];
  source_value = one ∷ pos 0 ∷ two ∷ [];
  post_hook_context = none;
  post_transform_a = none;
  post_transform_b = none;
  materialization_kind = kind;
  generation_counter = 2;
  active_source_extent = 2;
  last_changed_source = 2;
  base_or_fallback = pos 0;
  materialized = one;
}

pub three_slots-IsValid : (kind : ℕ) → IsValid (three_slots kind)
three_slots-IsValid kind = record {
  stamped = (omega arith, omega arith, (refl, (omega arith, omega arith, tt)));
  parallel = refl;
  values = refl;
  base = refl;
  materialized_raw = refl;
  extent = refl;
}

pub three_slots-IsSupported : IsSupported (three_slots 3)
three_slots-IsSupported = record {
  hook = refl;
  transform_a = refl;
  transform_b = refl;
  kind = refl;
}

materialize-reduce_example :
    materialize_by_kind (three_slots 3)
    ≡ reduce 3 (pos 0) (one ∷ pos 0 ∷ two ∷ []) 2 (one ∷ two ∷ [])
materialize-reduce_example = materialize-reduce (three_slots 3) refl

materialize_by_kind-total_example :
    (v : ℤ) × (materialize_by_kind (three_slots 3) ≡ ok v) × (is_raw v ≡ true)
materialize_by_kind-total_example =
    materialize_by_kind-total (three_slots 3) (three_slots-IsValid 3) refl

materialize-least_example :
    (v : ℤ) × (materialize_by_kind (three_slots 6) ≡ ok v)
    × All (λ y. scaled v ≤ℤ scaled y) (one ∷ two ∷ [])
    × IsOneOf v (one ∷ two ∷ [])
materialize-least_example =
    materialize-least (three_slots 6) one (two ∷ []) (three_slots-IsValid 6) refl refl

materialize-greatest_example :
    (v : ℤ) × (materialize_by_kind (three_slots 7) ≡ ok v)
    × All (λ y. scaled y ≤ℤ scaled v) (one ∷ two ∷ [])
    × IsOneOf v (one ∷ two ∷ [])
materialize-greatest_example =
    materialize-greatest (three_slots 7) one (two ∷ []) (three_slots-IsValid 7) refl refl

allocate_source_slot_lem_example :
    (i : ℕ) × ((allocate_source_slot two (three_slots 3)).0 ≡ ok i)
    × (1 ≤ i)
    × (get_elem? (three_slots 3).source_active i ≢ some true)
    × (get_elem? (allocate_source_slot two (three_slots 3)).1.source_active i ≡ some true)
    × (get_elem? (allocate_source_slot two (three_slots 3)).1.source_value i ≡ some two)
allocate_source_slot_lem_example =
    allocate_source_slot_lem two (three_slots 3) (three_slots-IsValid 3) three_slots-IsSupported
      (omega arith) refl

allocated_at_1 : (allocate_source_slot two (three_slots 3)).0 ≡ ok 1
unfolding allocate_source_slot validate_raw reserve_source_zero choose_slot rebuild_materialized
    require_supported_post_stages materialize_by_kind active_indices fixedpoint_add
    decode_fixpoint_common encode_fixpoint_common encode_saturated saturate_common ◌+ℤ◌ ◌*ℤ◌
allocated_at_1 = refl

allocate-others_example :
    (get_elem? (allocate_source_slot two (three_slots 3)).1.source_active 2 ≡ some true)
    × (get_elem? (allocate_source_slot two (three_slots 3)).1.source_value 2 ≡ some two)
allocate-others_example =
    allocate-others two (three_slots 3) 1 2 (three_slots-IsValid 3) three_slots-IsSupported
      (omega arith) refl allocated_at_1 (λ e. omega (arith, e))

summed : materialize_by_kind (three_slots 3) ≡ ok (pos (3 * 2 ^ 33))
unfolding materialize_by_kind active_indices fixedpoint_add validate_raw decode_fixpoint_common
    encode_fixpoint_common encode_saturated saturate_common ◌+ℤ◌ ◌*ℤ◌
summed = refl

remove-allocate_example :
    ((remove_source_slot (pos 1) (allocate_source_slot two (three_slots 3)).1).0 ≡ ok tt)
    × ((remove_source_slot (pos 1) (allocate_source_slot two (three_slots 3)).1).1.materialized
        ≡ pos (3 * 2 ^ 33))
remove-allocate_example =
    remove-allocate two (three_slots 3) 1 (pos (3 * 2 ^ 33)) (three_slots-IsValid 3)
      three_slots-IsSupported (omega arith) refl (λ e. omega (arith, e)) summed allocated_at_1
