-- ===== src/Property/Slots.antt =====
-- src/hsr_battle_agent/battle_runtime/property.py, the source-slot helpers, which change an entry in
-- place. Each ends with a rebuild of the materialized value, and may raise there after its writes.
use hsr_battle_agent.Base.{
  Bool, List, Option, [], drop, false, if◌then◌else◌, leb, length, none, set, some, suc, true, ℕ,
  ◌+◌, ◌∷◌,
}
use hsr_battle_agent.Base.Action.{Action, gets, lift, modify, pure, ◌>>=◌, ◌>>◌}
use hsr_battle_agent.Base.Int.{ℤ}
use hsr_battle_agent.FixPoint.{validate_raw}
use hsr_battle_agent.Property.{
  PropertyEntry, extend_slots, materialize_by_kind, refresh_active_extent, require_source_index,
  require_supported_post_stages, reserve_source_zero,
}

unfoldable pub rebuild_materialized : Action PropertyEntry ℤ
rebuild_materialized = do
  entry ← gets (λ entry. entry)
  lift (require_supported_post_stages entry)
  candidate ← lift (materialize_by_kind entry)
  modify (λ entry. record entry { materialized = candidate })
  pure candidate

-- What the three slot writers share: store, activate, stamp a new generation, refresh, rebuild.
abbrev pub write_slot : PropertyEntry → ℕ → ℤ → PropertyEntry
write_slot entry index value =
    let generation = entry.generation_counter + 1 in
    refresh_active_extent (record entry {
      source_generation = set entry.source_generation index generation;
      source_active = set entry.source_active index true;
      source_value = set entry.source_value index value;
      generation_counter = generation;
      last_changed_source = index;
    })

-- The loop of `allocate_source_slot`: the first inactive index from `index` on.
abbrev pub first_inactive : ℕ → List Bool → Option ℕ
first_inactive index [] = none
first_inactive index (true ∷ flags) = first_inactive (suc index) flags
first_inactive index (false ∷ flags) = some index

-- The slot that `allocate_source_slot` takes, and the entry with room for it.
unfoldable pub choose_slot : PropertyEntry → ℕ × PropertyEntry
choose_slot entry = elim (first_inactive 1 (drop 1 entry.source_active)) [
  | some index ↦ (index, entry)
  | none ↦ (length entry.source_value, extend_slots entry)
]

unfoldable pub allocate_source_slot : ℤ → Action PropertyEntry ℕ
allocate_source_slot source_value = do
  lift (validate_raw source_value)
  modify reserve_source_zero
  chosen ← gets choose_slot
  modify (λ _. write_slot chosen.1 chosen.0 source_value)
  rebuild_materialized
  pure chosen.0

unfoldable pub update_source_slot : ℤ → ℤ → Action PropertyEntry (Unit {0})
update_source_slot source_index source_value = do
  entry ← gets (λ entry. entry)
  index ← lift (require_source_index entry source_index)
  lift (validate_raw source_value)
  modify (λ entry. write_slot entry index source_value)
  rebuild_materialized
  pure tt

-- The slot loses its activity and its generation; its value stays.
abbrev pub clear_slot : PropertyEntry → ℕ → PropertyEntry
clear_slot entry index = refresh_active_extent (record entry {
  source_active = set entry.source_active index false;
  source_generation = set entry.source_generation index 0;
})

unfoldable pub remove_source_slot : ℤ → Action PropertyEntry (Unit {0})
remove_source_slot source_index = do
  entry ← gets (λ entry. entry)
  index ← lift (require_source_index entry source_index)
  if leb entry.active_source_extent 0
      then pure tt
      else (do modify (λ entry. clear_slot entry index); rebuild_materialized; pure tt)
