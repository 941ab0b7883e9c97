-- ===== src/Property/Removal.antt =====
-- remove_source_slot of src/hsr_battle_agent/battle_runtime/property.py, alone and after an
-- allocation.
use hsr_battle_agent.Base.{
  List, [], arith, false, inl, inr, leb, length, length-set, ok, refl, set, suc, sym, true, zero, ℕ,
  ◌++◌, ◌<◌, ◌∙◌, ◌∷◌, ◌≡◌, ◌≢◌, ◌≤◌, ◌⊎◌,
}
use hsr_battle_agent.Base.Action.{>>-pure-ok}
use hsr_battle_agent.Base.Int.{pos, ℤ}
use hsr_battle_agent.FixPoint.{is_raw}
use hsr_battle_agent.Property.{
  PropertyEntry, count_active, extend_slots, first_or, materialize_by_kind, require_source_index,
}
use hsr_battle_agent.Property.ActiveValues.{active_values, materialize-reduce, reduce}
use hsr_battle_agent.Property.Choice.{
  IsSupported-clear, active_values-extend, active_values-restore, count_active-set,
}
use hsr_battle_agent.Property.Lifecycle.{Allocated, after_write, allocate-Allocated, ok-injective}
use hsr_battle_agent.Property.Rebuild.{rebuild-ok}
use hsr_battle_agent.Property.SlotLaws.{clear_slot-IsValid}
use hsr_battle_agent.Property.Slots.{
  allocate_source_slot, clear_slot, rebuild_materialized, remove_source_slot,
}
use hsr_battle_agent.Property.Valid.{IsSupported, IsValid}

require_source_index-ok :
    (entry : PropertyEntry) (i : ℕ)
    → i < length entry.source_value
    → require_source_index entry (pos i) ≡ ok i
unfolding require_source_index
require_source_index-ok entry i h = ground arith

-- A successful removal in full.
pub record Removed (i : ℕ) (entry : PropertyEntry) : Type 0 where
  pub value : ℤ
  pub formula : materialize_by_kind (clear_slot entry i) ≡ ok value
  pub result :
      remove_source_slot (pos i) entry
      ≡ (ok tt, record (clear_slot entry i) { materialized = value })

pub remove-Removed :
    (i : ℕ) (entry : PropertyEntry)
    → IsValid entry
    → IsSupported entry
    → i < length entry.source_value
    → 0 < count_active entry.source_active
    → Removed i entry
unfolding remove_source_slot
remove-Removed i entry h s inside some_active =
    let (m, got, raw, rebuilt) =
      rebuild-ok (clear_slot entry i) (clear_slot-IsValid entry i h)
        (IsSupported-clear entry i s) in
    let busy : leb entry.active_source_extent 0 ≡ false = ground (arith, h.extent) in
    record {
      value = m;
      formula = got;
      result =
          rw (require_source_index-ok entry i inside, busy)
            (>>-pure-ok rebuild_materialized tt (clear_slot entry i) rebuilt);
    }

reduce-cong :
    (kind : ℕ) (base : ℤ) (vs ws : List ℤ) (last last' : ℕ) (active : List ℤ)
    → kind ≢ 2
    → first_or base vs ≡ first_or base ws
    → reduce kind base vs last active ≡ reduce kind base ws last' active
unfolding reduce
reduce-cong kind base vs ws last last' active ne first = ground arith

first_or-set :
    (base : ℤ) (vs : List ℤ) (i : ℕ) (v : ℤ) → 1 ≤ i → first_or base (set vs i v) ≡ first_or base vs
first_or-set base [] i v h = refl
first_or-set base (x ∷ vs) zero v h = absurd (omega arith)
first_or-set base (x ∷ vs) (suc i) v h = refl

first_or-extend :
    (base : ℤ) (vs : List ℤ) (v : ℤ)
    → 0 < length vs
    → first_or base (vs ++ v ∷ []) ≡ first_or base vs
first_or-extend base [] v h = elim h [ ]
first_or-extend base (x ∷ vs) v h = refl

-- What allocation adds and removal clears again is invisible to the materializer.
room-same :
    (entry room : PropertyEntry) (i : ℕ)
    → (room ≡ entry) ⊎ ((room ≡ extend_slots entry) × (i ≡ length entry.source_value))
    → length entry.source_active ≡ length entry.source_value
    → 0 < length entry.source_value
    → (active_values room.source_active room.source_value
        ≡ active_values entry.source_active entry.source_value)
      × (first_or entry.base_or_fallback room.source_value
          ≡ first_or entry.base_or_fallback entry.source_value)
      × (room.materialization_kind ≡ entry.materialization_kind)
      × (room.base_or_fallback ≡ entry.base_or_fallback)
room-same entry room i (inl e) p nonempty = (rw e, rw e, rw e, rw e)
room-same entry room i (inr (e, at_end)) p nonempty = (
  rw e (active_values-extend entry.source_active entry.source_value (pos 0) p),
  rw e (first_or-extend entry.base_or_fallback entry.source_value (pos 0) nonempty),
  rw e,
  rw e,
)

restored :
    (v : ℤ) (entry : PropertyEntry) (a : Allocated v entry)
    → IsValid entry
    → 0 < length entry.source_value
    → entry.materialization_kind ≢ 2
    → materialize_by_kind (clear_slot (after_write a.room a.index v a.value) a.index)
      ≡ materialize_by_kind entry
restored v entry a h nonempty ne =
    let (same_values, same_first, same_kind, same_base) =
      room-same entry a.room a.index a.chosen.same h.parallel nonempty in
    let cleared = clear_slot (after_write a.room a.index v a.value) a.index in
    let cleared_valid = clear_slot-IsValid (after_write a.room a.index v a.value) a.index a.valid in
    let unseen =
      active_values-restore a.room.source_active a.room.source_value a.index v a.chosen.free in
    let first =
      first_or-set entry.base_or_fallback a.room.source_value a.index v a.chosen.from_one in
    materialize-reduce cleared cleared_valid.parallel
    ∙ rw (unseen, same_values, same_kind, same_base)
        (reduce-cong entry.materialization_kind entry.base_or_fallback
          (set a.room.source_value a.index v) entry.source_value a.index entry.last_changed_source
          (active_values entry.source_active entry.source_value) ne (first ∙ same_first))
    ∙ sym (materialize-reduce entry h.parallel)

ok-injective_ℤ : (a b : ℤ) → ok a ≡ ok b → a ≡ b
ok-injective_ℤ a b e = cc

-- To remove a slot right after it was allocated succeeds, and materializes the value that the entry's
-- formula gave before, unless the formula reads the last changed source (kind 2).
pub remove-allocate :
    (v : ℤ) (entry : PropertyEntry) (i : ℕ) (m : ℤ)
    → IsValid entry
    → IsSupported entry
    → 0 < length entry.source_value
    → is_raw v ≡ true
    → entry.materialization_kind ≢ 2
    → materialize_by_kind entry ≡ ok m
    → (allocate_source_slot v entry).0 ≡ ok i
    → ((remove_source_slot (pos i) (allocate_source_slot v entry).1).0 ≡ ok tt)
      × ((remove_source_slot (pos i) (allocate_source_slot v entry).1).1.materialized ≡ m)
remove-allocate v entry i m h s nonempty raw ne formula found =
    let a = allocate-Allocated v entry h s nonempty raw in
    let same : a.index ≡ i = ok-injective a.index i (rw a.result at found) in
    let inside : a.index < length (set a.room.source_value a.index v) =
      rw (length-set a.room.source_value a.index v) a.chosen.inside in
    let r =
      remove-Removed a.index (after_write a.room a.index v a.value) a.valid a.supported inside (
        count_active-set a.room.source_active a.index
          (omega (arith, a.chosen.inside, a.room_valid.parallel))) in
    let back : r.value ≡ m =
      ok-injective_ℤ r.value m (sym r.formula ∙ restored v entry a h nonempty ne ∙ formula) in
    rw (a.result, ← same, r.result) (refl, back)
