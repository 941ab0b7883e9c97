-- ===== src/Modifier/Search.antt =====
-- The forward scan for a duplicate of src/hsr_battle_agent/battle_runtime/modifiers.py.
use hsr_battle_agent.Base.{
  All, Bool-cases, Option, [], ap, arith, false, inl, inr, none, refl, some, true, ◌++◌, ◌∷◌, ◌≡◌,
  ◌≢◌,
}
use hsr_battle_agent.Base.Dict.{int_eq, string_eq}
use hsr_battle_agent.Base.Int.{negsuc, pos, ℤ}
use hsr_battle_agent.Modifier.{ModifierContainer, ModifierMatchKey, ModifierState, ref_eq}
use hsr_battle_agent.Modifier.Match.{modifier_container_find, modifier_match_search, passes_caster}
use hsr_battle_agent.State.{key_eq}
use hsr_battle_agent.Targets.{EntityRef}

match-name :
    (m : ModifierState) (match_key : ModifierMatchKey) (state_filter : ℤ)
    → modifier_match_search m match_key state_filter ≡ true
    → m.name ≡ match_key.name
unfolding modifier_match_search
match-name m match_key state_filter h = (string_eq.beq_iff m.name match_key.name).0 (ground arith)

passes_caster-same :
    (wanted : EntityRef) (caster : Option EntityRef)
    → passes_caster (some wanted) caster ≡ true
    → caster ≡ some wanted
passes_caster-same wanted none h = cc
passes_caster-same wanted (some caster) h =
    ground (arith, int_eq.beq_iff caster.runtime_id wanted.runtime_id)

match-caster :
    (m : ModifierState) (match_key : ModifierMatchKey) (state_filter : ℤ) (wanted : EntityRef)
    → modifier_match_search m match_key state_filter ≡ true
    → match_key.caster_entity ≡ some wanted
    → m.caster_entity ≡ some wanted
unfolding modifier_match_search
match-caster m match_key state_filter wanted h named =
    let passed : passes_caster match_key.caster_entity m.caster_entity ≡ true = ground arith in
    passes_caster-same wanted m.caster_entity (rw named at passed)

-- The scan has passed over these.
abbrev pub Passed : ModifierMatchKey → ℤ → ModifierContainer → Type 0
Passed match_key state_filter = All (λ m. modifier_match_search m match_key state_filter ≡ false)

found-first :
    (items : ModifierContainer) (match_key : ModifierMatchKey) (state_filter : ℤ)
    (m : ModifierState)
    → modifier_container_find items match_key state_filter ≡ some m
    → (modifier_match_search m match_key state_filter ≡ true)
      × ((before : ModifierContainer) × (after : ModifierContainer) × (items ≡ before ++ m ∷ after)
          × Passed match_key state_filter before)
unfolding modifier_container_find
found-first [] match_key state_filter m found = cc
found-first (n ∷ items) match_key state_filter m found =
    elim (Bool-cases (modifier_match_search n match_key state_filter)) [
      | inl matches ↦
          let same : some n ≡ some m = (rw (matches, modifier_container_find) at found) in
          let e : n ≡ m = cc in (rw (← e) matches, ([], items, rw (← e) refl, tt))
      | inr skipped ↦
          let (good, (before, after, split, passed)) =
            found-first items match_key state_filter m
              (rw (skipped, modifier_container_find) at found) in
          (good, (n ∷ before, after, ap (λ l. n ∷ l) split, (skipped, passed)))
    ]

-- For a key that names a caster whose runtime id is neither 0 nor -1, an instance that the forward scan finds
-- carries the key's name and exactly that caster, and it is the first in the container that the key
-- matches.
pub modifier_container_find-matches :
    (items : ModifierContainer) (match_key : ModifierMatchKey) (state_filter : ℤ)
    (m : ModifierState) (caster : EntityRef)
    → caster.runtime_id ≢ pos 0
    → caster.runtime_id ≢ negsuc 0
    → modifier_container_find items match_key state_filter ≡ some m
    → match_key.caster_entity ≡ some caster
    → (m.name ≡ match_key.name)
      × (m.caster_entity ≡ some caster)
      × ((before : ModifierContainer) × (after : ModifierContainer) × (items ≡ before ++ m ∷ after)
          × Passed match_key state_filter before)
modifier_container_find-matches items match_key state_filter m caster not_zero not_minus found
      named =
    let (matches, first) = found-first items match_key state_filter m found in
    (
      match-name m match_key state_filter matches,
      match-caster m match_key state_filter caster matches named,
      first,
    )
