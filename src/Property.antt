-- ===== src/Property.antt =====
-- src/hsr_battle_agent/battle_ir/property.py and battle_runtime/property.py, the property entry: three
-- parallel arrays indexed by a stable source index, and the value materialized from them. The
-- functions change the entry that they are given; an opaque JSON value is its text.
pub mod Slots
pub mod Valid
pub mod Folds
pub mod Materialize
pub mod Arrays
pub mod Rebuild
pub mod SlotLaws
pub mod ActiveValues
pub mod Extrema
pub mod Choice
pub mod Lifecycle
pub mod Removal
pub mod FirstSlot
use hsr_battle_agent.Base.{
  Bool, List, Option, Result, String, [], false, get_or, guard, if◌then◌else◌, index_error, length,
  ltb, none, not, ok, property_source_slot, raise, some, suc, true,
  unsupported_materialization_kind, unsupported_post_stage, value_error, zero, ℕ, ◌&&◌, ◌++◌, ◌==◌,
  ◌>>=◌, ◌>>◌, ◌∷◌,
}
use hsr_battle_agent.Base.Int.{negsuc, pos, ℤ}
use hsr_battle_agent.FixPoint.{fixpoint_greater, fixpoint_less, is_raw}
use hsr_battle_agent.FixPoint.Arith.{fixedpoint_add, fixedpoint_multiply}

pub record PropertyEntry : Type 0 where
  pub source_generation : List ℕ
  pub source_active : List Bool
  pub source_value : List ℤ
  pub post_hook_context : Option String
  pub post_transform_a : Option String
  pub post_transform_b : Option String
  pub materialization_kind : ℕ
  pub generation_counter : ℕ
  pub active_source_extent : ℕ
  pub last_changed_source : ℕ
  pub base_or_fallback : ℤ
  pub materialized : ℤ

abbrev pub all_raw : List ℤ → Bool
all_raw [] = true
all_raw (v ∷ vs) = is_raw v && all_raw vs

-- `PropertyEntry.__post_init__`, run whenever an entry is built or read back: the range checks that
-- the types do not make.
unfoldable pub post_init : PropertyEntry → Result PropertyEntry
post_init entry = do
  guard
      (length entry.source_generation == length entry.source_active
        && length entry.source_active == length entry.source_value)
      value_error
  guard (all_raw entry.source_value) value_error
  guard (is_raw entry.base_or_fallback) value_error
  guard (is_raw entry.materialized) value_error
  ok entry

-- `PropertyEntry.create_empty`
unfoldable pub create_empty : ℕ → ℤ → Result PropertyEntry
unfolding post_init
create_empty materialization_kind base_or_fallback = post_init (record {
  source_generation = 0 ∷ [];
  source_active = false ∷ [];
  source_value = pos 0 ∷ [];
  post_hook_context = none;
  post_transform_a = none;
  post_transform_b = none;
  materialization_kind = materialization_kind;
  generation_counter = 0;
  active_source_extent = 0;
  last_changed_source = 0;
  base_or_fallback = base_or_fallback;
  materialized = base_or_fallback;
})

-- `_require_source_index`
unfoldable pub require_source_index : PropertyEntry → ℤ → Result ℕ
require_source_index entry (pos index) = do
  guard (ltb index (length entry.source_value)) property_source_slot
  ok index
require_source_index entry (negsuc _) = raise value_error

-- `_active_indices`, from an index on
abbrev pub active_from : ℕ → List Bool → List ℕ
active_from index [] = []
active_from index (true ∷ flags) = index ∷ active_from (suc index) flags
active_from index (false ∷ flags) = active_from (suc index) flags

unfoldable pub active_indices : PropertyEntry → List ℕ
active_indices entry = active_from 0 entry.source_active

-- `sum(1 for active in entry.source_active if active)`
abbrev pub count_active : List Bool → ℕ
count_active [] = 0
count_active (true ∷ flags) = suc (count_active flags)
count_active (false ∷ flags) = count_active flags

-- The three `append` calls that make room for one inactive slot.
abbrev pub extend_slots : PropertyEntry → PropertyEntry
extend_slots entry = record entry {
  source_generation = entry.source_generation ++ 0 ∷ [];
  source_active = entry.source_active ++ false ∷ [];
  source_value = entry.source_value ++ pos 0 ∷ [];
}

-- `_reserve_source_zero`
unfoldable pub reserve_source_zero : PropertyEntry → PropertyEntry
reserve_source_zero entry = if length entry.source_value == 0 then extend_slots entry else entry

-- `_refresh_active_extent`
abbrev pub refresh_active_extent : PropertyEntry → PropertyEntry
refresh_active_extent entry = record entry {
  active_source_extent = count_active entry.source_active;
}

-- `_require_supported_post_stages`
abbrev pub is_some : Option String → Bool
is_some none = false
is_some (some _) = true

unfoldable pub require_supported_post_stages : PropertyEntry → Result (Unit {0})
require_supported_post_stages entry = do
  guard (not (is_some entry.post_hook_context)) unsupported_post_stage
  guard (not (is_some entry.post_transform_a)) unsupported_post_stage
  guard (not (is_some entry.post_transform_b)) unsupported_post_stage

-- `entry.source_value[index]`
abbrev pub value_at : List ℤ → ℕ → Result ℤ
value_at [] index = raise index_error
value_at (v ∷ vs) zero = ok v
value_at (v ∷ vs) (suc index) = value_at vs index

-- The loop of the kinds 3, 4, 6 and 7 over the active indices.
abbrev pub fold_active : (ℤ → ℤ → Result ℤ) → List ℤ → ℤ → List ℕ → Result ℤ
fold_active step values accumulator [] = ok accumulator
fold_active step values accumulator (index ∷ indices) = do
  value ← value_at values index
  next ← step accumulator value
  fold_active step values next indices

-- The candidate replaces what was selected only if it is strictly less, or strictly greater.
unfoldable pub keep_less : ℤ → ℤ → Result ℤ
keep_less selected candidate = do
  less ← fixpoint_less candidate selected
  ok (if less then candidate else selected)

unfoldable pub keep_greater : ℤ → ℤ → Result ℤ
keep_greater selected candidate = do
  greater ← fixpoint_greater candidate selected
  ok (if greater then candidate else selected)

-- The kinds 6 and 7 start from the first active value.
abbrev pub extremum : (ℤ → ℤ → Result ℤ) → ℤ → List ℤ → List ℕ → Result ℤ
extremum keep base values [] = ok base
extremum keep base values (index ∷ indices) = do
  selected ← value_at values index
  fold_active keep values selected indices

abbrev pub first_or : ℤ → List ℤ → ℤ
first_or base [] = base
first_or base (v ∷ vs) = v

-- `_materialize_by_kind`
unfoldable pub materialize_by_kind : PropertyEntry → Result ℤ
unfolding active_indices
materialize_by_kind entry =
    let kind = entry.materialization_kind in
    let values = entry.source_value in
    let active = active_indices entry in
    let base = entry.base_or_fallback in
    if kind == 1
    then ok (first_or base values)
    else if kind == 2
    then ok (get_or values entry.last_changed_source base)
    else if kind == 3
    then fold_active fixedpoint_add values base active
    else if kind == 4
    then fold_active fixedpoint_multiply values base active
    else if kind == 5
    then raise unsupported_materialization_kind
    else if kind == 6
    then extremum keep_less base values active
    else if kind == 7
    then extremum keep_greater base values active
    else raise unsupported_materialization_kind
