-- ===== src/Property/Valid.antt =====
-- The well-formed entries, and the entries whose materialized value is known, for
-- src/hsr_battle_agent/battle_ir/property.py.
use hsr_battle_agent.Base.{
  Bool, List, [], false, length, none, true, ℕ, ◌<◌, ◌==◌, ◌||◌, ◌∷◌, ◌≡◌, ◌≤◌,
}
use hsr_battle_agent.FixPoint.{is_raw}
use hsr_battle_agent.Property.{PropertyEntry, all_raw, count_active}

-- An active slot carries a generation that the counter has given out, an inactive one carries 0.
abbrev pub Stamped : ℕ → List ℕ → List Bool → Type 0
Stamped counter [] [] = Unit
Stamped counter (g ∷ gs) (true ∷ flags) = (0 < g) × (g ≤ counter) × Stamped counter gs flags
Stamped counter (g ∷ gs) (false ∷ flags) = (g ≡ 0) × Stamped counter gs flags
Stamped counter _ _ = ⊥

pub record IsValid (entry : PropertyEntry) : Type 0 where
  pub stamped : Stamped entry.generation_counter entry.source_generation entry.source_active
  pub parallel : length entry.source_active ≡ length entry.source_value
  pub values : all_raw entry.source_value ≡ true
  pub base : is_raw entry.base_or_fallback ≡ true
  pub materialized_raw : is_raw entry.materialized ≡ true
  pub extent : entry.active_source_extent ≡ count_active entry.source_active

-- No post stage is set, and the kind is one of the six whose formula is known.
abbrev pub supported_kind : ℕ → Bool
supported_kind kind =
    (kind == 1) || (kind == 2) || (kind == 3) || (kind == 4) || (kind == 6) || (kind == 7)

pub record IsSupported (entry : PropertyEntry) : Type 0 where
  pub hook : entry.post_hook_context ≡ none
  pub transform_a : entry.post_transform_a ≡ none
  pub transform_b : entry.post_transform_b ≡ none
  pub kind : supported_kind entry.materialization_kind ≡ true
