-- ===== src/Property/SlotLaws.antt =====
-- The slot writers of src/hsr_battle_agent/battle_runtime/property.py and the well-formedness of an
-- entry.
use hsr_battle_agent.Base.{
  Bool-cases, Option-cases, Result-cases, [], arith, drop, false, inl, inr, leb, length,
  length-append, length-set, refl, sym, true, ℕ, ◌==◌, ◌∙◌, ◌∷◌, ◌≡◌,
}
use hsr_battle_agent.Base.Action.{>>-pure-state}
use hsr_battle_agent.Base.Int.{pos, ℤ}
use hsr_battle_agent.FixPoint.{is_raw, validate_raw}
use hsr_battle_agent.Property.{
  PropertyEntry, extend_slots, require_source_index, reserve_source_zero,
}
use hsr_battle_agent.Property.Arrays.{
  Stamped-clear, Stamped-extend, Stamped-write, all_raw-extend, all_raw-set, count_active-extend,
}
use hsr_battle_agent.Property.Rebuild.{rebuild-IsValid}
use hsr_battle_agent.Property.Slots.{
  allocate_source_slot, choose_slot, clear_slot, first_inactive, rebuild_materialized,
  remove_source_slot, update_source_slot, write_slot,
}
use hsr_battle_agent.Property.Valid.{IsValid}

pub write_slot-IsValid :
    (entry : PropertyEntry) (i : ℕ) (v : ℤ)
    → IsValid entry
    → is_raw v ≡ true
    → IsValid (write_slot entry i v)
write_slot-IsValid entry i v h hv = record {
  stamped =
      Stamped-write entry.generation_counter entry.source_generation entry.source_active i
        h.stamped;
  parallel =
      omega (
        arith,
        h.parallel,
        length-set entry.source_active i true,
        length-set entry.source_value i v,
      );
  values = all_raw-set entry.source_value i v h.values hv;
  base = h.base;
  materialized_raw = h.materialized_raw;
  extent = refl;
}

pub clear_slot-IsValid :
    (entry : PropertyEntry) (i : ℕ) → IsValid entry → IsValid (clear_slot entry i)
clear_slot-IsValid entry i h = record {
  stamped =
      Stamped-clear entry.generation_counter entry.source_generation entry.source_active i
        h.stamped;
  parallel = omega (arith, h.parallel, length-set entry.source_active i false);
  values = h.values;
  base = h.base;
  materialized_raw = h.materialized_raw;
  extent = refl;
}

pub extend-IsValid : (entry : PropertyEntry) → IsValid entry → IsValid (extend_slots entry)
extend-IsValid entry h = record {
  stamped =
      Stamped-extend entry.generation_counter entry.source_generation entry.source_active h.stamped;
  parallel = omega (
    arith,
    h.parallel,
    length-append entry.source_active (false ∷ []),
    length-append entry.source_value (pos 0 ∷ []),
  );
  values = all_raw-extend entry.source_value h.values;
  base = h.base;
  materialized_raw = h.materialized_raw;
  extent = h.extent ∙ sym (count_active-extend entry.source_active);
}

pub reserve-IsValid : (entry : PropertyEntry) → IsValid entry → IsValid (reserve_source_zero entry)
unfolding reserve_source_zero
reserve-IsValid entry h = elim (Bool-cases (length entry.source_value == 0)) [
  | inl empty ↦ rw empty (extend-IsValid entry h)
  | inr filled ↦ rw filled h
]

pub choose-IsValid : (entry : PropertyEntry) → IsValid entry → IsValid (choose_slot entry).1
unfolding choose_slot
choose-IsValid entry h = elim (Option-cases (first_inactive 1 (drop 1 entry.source_active))) [
  | inl full ↦ rw (full, choose_slot) (extend-IsValid entry h)
  | inr (i, free) ↦ rw (free, choose_slot) h
]

-- Allocation keeps an entry well-formed, also where it raises halfway.
pub allocate-IsValid :
    (v : ℤ) (entry : PropertyEntry) → IsValid entry → IsValid (allocate_source_slot v entry).1
unfolding allocate_source_slot validate_raw
allocate-IsValid v entry h = elim (Bool-cases (is_raw v)) [
  | inr bad ↦ rw bad h
  | inl good ↦
      let chosen = choose_slot (reserve_source_zero entry) in
      let room = choose-IsValid (reserve_source_zero entry) (reserve-IsValid entry h) in
      let kept = rebuild-IsValid _ (write_slot-IsValid chosen.1 chosen.0 v room good) in
      rw (good, >>-pure-state rebuild_materialized chosen.0) kept
]

-- An update keeps an entry well-formed, also where it raises halfway.
pub update-IsValid :
    (i v : ℤ) (entry : PropertyEntry) → IsValid entry → IsValid (update_source_slot i v entry).1
unfolding update_source_slot validate_raw
update-IsValid i v entry h = elim (Result-cases (require_source_index entry i)) [
  | inr (error, bad) ↦ rw bad h
  | inl (index, found) ↦ elim (Bool-cases (is_raw v)) [
    | inr bad ↦ rw (found, bad) h
    | inl good ↦
        let kept = rebuild-IsValid _ (write_slot-IsValid entry index v h good) in
        rw (found, good, >>-pure-state rebuild_materialized tt) kept
  ]
]

-- A removal keeps an entry well-formed, also where it raises halfway.
pub remove-IsValid :
    (i : ℤ) (entry : PropertyEntry) → IsValid entry → IsValid (remove_source_slot i entry).1
unfolding remove_source_slot
remove-IsValid i entry h = elim (Result-cases (require_source_index entry i)) [
  | inr (error, bad) ↦ rw bad h
  | inl (index, found) ↦ elim (Bool-cases (leb entry.active_source_extent 0)) [
    | inl idle ↦ rw (found, idle) h
    | inr active ↦
        let kept = rebuild-IsValid _ (clear_slot-IsValid entry index h) in
        rw (found, active, >>-pure-state rebuild_materialized tt) kept
  ]
]
