-- ===== src/Modifier/Match.antt =====
-- src/hsr_battle_agent/battle_runtime/modifiers.py: the duplicate-match predicate, the forward scan,
-- and the life and count core of the refresh of an existing instance.
use hsr_battle_agent.Base.{
  Bool, Option, Result, [], false, if◌then◌else◌, none, not, ok, raise, some, true, value_error, ℕ,
  ◌&&◌, ◌==◌, ◌∷◌,
}
use hsr_battle_agent.Base.Dict.{string_eq}
use hsr_battle_agent.Base.Int.{eqb_ℤ, leb_ℤ, ltb_ℤ, negsuc, pos, ℤ, ◌+ℤ◌}
use hsr_battle_agent.Modifier.{
  ModifierContainer, ModifierMatchKey, ModifierStacking, ModifierState, alive, merge, prolong,
  refresh, replace, replace_but_keep_lifetime, replace_by_caster, replace_by_caster_ability,
  replace_by_caster_or_unstack,
}
use hsr_battle_agent.Targets.{EntityRef, count}
use hsr_battle_agent.Values.{ObjectRef}

-- Filter 0 admits the states up to ALIVE, filter 1 only ALIVE, and any other filter every state.
abbrev passes_filter : ℤ → ℤ → Bool
passes_filter state_filter state =
    if eqb_ℤ state_filter (pos 0)
    then leb_ℤ state alive
    else if eqb_ℤ state_filter (pos 1)
    then eqb_ℤ state alive
    else true

-- 100 is the wildcard of the stacking flag.
abbrev passes_flag : ℤ → ℤ → Bool
passes_flag wanted flag = if eqb_ℤ wanted (pos 100) then true else eqb_ℤ flag wanted

abbrev pub passes_caster : Option EntityRef → Option EntityRef → Bool
passes_caster none caster = true
passes_caster (some wanted) none = false
passes_caster (some wanted) (some caster) = eqb_ℤ caster.runtime_id wanted.runtime_id

abbrev passes_source : Option ObjectRef → Option ObjectRef → Bool
passes_source none source = true
passes_source (some wanted) none = false
passes_source (some wanted) (some source) = source.ref_id == wanted.ref_id

unfoldable pub modifier_match_search : ModifierState → ModifierMatchKey → ℤ → Bool
modifier_match_search modifier match_key state_filter =
    string_eq.beq modifier.name match_key.name
    && passes_filter state_filter modifier.state_raw
    && passes_flag match_key.stacking_flag modifier.stacking_flag_raw
    && passes_caster match_key.caster_entity modifier.caster_entity
    && passes_source match_key.source_provider_ref modifier.source_provider_ref

unfoldable pub modifier_container_find :
    ModifierContainer → ModifierMatchKey → ℤ → Option ModifierState
modifier_container_find [] match_key state_filter = none
modifier_container_find (m ∷ items) match_key state_filter =
    if modifier_match_search m match_key state_filter
    then some m
    else modifier_container_find items match_key state_filter

-- The life that a prolonged or merged instance gets: -1 is endless and absorbs.
abbrev joined_life : (ℤ → ℤ → ℤ) → ModifierState → ℤ → ℤ
joined_life join existing new_life =
    if not (eqb_ℤ new_life (negsuc 0)) && not (eqb_ℤ existing.previous_life (negsuc 0))
    then join existing.current_life new_life
    else negsuc 0

abbrev pub max_ℤ : ℤ → ℤ → ℤ
max_ℤ a b = if ltb_ℤ a b then b else a

-- The count, the current life and the previous life, for each branch of `_apply_redd_life_core`.
unfoldable pub redd_life : ModifierStacking → ModifierState → ℕ → ℤ → ℕ × ℤ × ℤ
redd_life refresh existing new_count new_life = (new_count, new_life, new_life)
redd_life replace existing new_count new_life = (new_count, new_life, new_life)
redd_life replace_by_caster existing new_count new_life = (new_count, new_life, new_life)
redd_life replace_by_caster_or_unstack existing new_count new_life = (new_count, new_life, new_life)
redd_life replace_by_caster_ability existing new_count new_life = (new_count, new_life, new_life)
redd_life prolong existing new_count new_life =
    let life = joined_life ◌+ℤ◌ existing new_life in (existing.count, life, life)
redd_life merge existing new_count new_life =
    let life = joined_life max_ℤ existing new_life in (existing.count, life, life)
redd_life replace_but_keep_lifetime existing new_count new_life =
    (new_count, existing.current_life, existing.previous_life)
redd_life _ existing new_count new_life =
    (existing.count, existing.current_life, existing.previous_life)

-- `_apply_redd_life_core`
unfoldable pub apply_redd_life_core :
    ModifierState → ModifierStacking → ℤ → ℤ → Result ModifierState
apply_redd_life_core existing stacking (negsuc new_count) new_life = raise value_error
apply_redd_life_core existing stacking (pos new_count) new_life =
    let (count, current_life, previous_life) = redd_life stacking existing new_count new_life in
    ok (record existing {
      count = count;
      current_life = current_life;
      previous_life = previous_life;
      is_max_layer = leb_ℤ (max_ℤ (pos 1) existing.max_layer) existing.layer;
    })
