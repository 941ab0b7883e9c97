-- ===== src/Modifier.antt =====
-- src/hsr_battle_agent/battle_ir/modifiers.py: modifier instances, their logical references, and the
-- ordered container of an entity, with the matching of battle_runtime/modifiers.py.
pub mod Match
pub mod Search
pub mod Lifecycle
use hsr_battle_agent.Base.{
  Bool, List, Option, Result, String, [], arith, false, get_elem?, guard, if◌then◌else◌,
  index_error, length, ltb, none, ok, raise, set, some, suc, true, zero, ℕ, ◌&&◌, ◌++◌, ◌==◌, ◌>>=◌,
  ◌>>◌, ◌||◌, ◌↔◌, ◌∷◌, ◌≡◌,
}
use hsr_battle_agent.Base.Dict.{Eq, int_eq, string_eq}
use hsr_battle_agent.Base.Int.{eqb_ℤ, negsuc, pos, ℤ}
use hsr_battle_agent.Targets.{EntityRef}
use hsr_battle_agent.Values.{ObjectRef}

pub record ModifierRef : Type 0 where
  pub name : String
  pub owner_entity : EntityRef
  pub instance_ordinal : ℕ

pub record ModifierState : Type 0 where
  pub name : String
  pub owner_entity : EntityRef
  pub instance_ordinal : ℕ
  pub state_raw : ℤ
  pub stacking_flag_raw : ℤ
  pub count : ℕ
  pub layer : ℤ
  pub max_layer : ℤ
  pub current_life : ℤ
  pub source_entity : Option EntityRef
  pub caster_entity : Option EntityRef
  pub previous_life : ℤ
  pub is_max_layer : Bool
  pub destroy_guard : ℕ
  pub source_provider_ref : Option ObjectRef

-- `ModifierStacking`, by its ordinals 0 to 13
pub data ModifierStacking : Type 0 where
  unknow unique refresh prolong multiple replace merge : ModifierStacking
  replace_by_caster replace_by_caster_or_unstack entity_unique : ModifierStacking
  replace_but_keep_lifetime retain_global_latest replace_by_caster_ability : ModifierStacking
  retain_global_latest_unique : ModifierStacking

abbrev stackings : List ModifierStacking
stackings =
    unknow ∷ unique ∷ refresh ∷ prolong ∷ multiple ∷ replace ∷ merge ∷ replace_by_caster
    ∷ replace_by_caster_or_unstack ∷ entity_unique ∷ replace_but_keep_lifetime
    ∷ retain_global_latest ∷ replace_by_caster_ability ∷ retain_global_latest_unique ∷ []

-- `ModifierStacking(value)`, which the callers refuse for an unknown ordinal
unfoldable pub stacking_of : ℤ → Option ModifierStacking
stacking_of (pos n) = get_elem? stackings n
stacking_of (negsuc n) = none

-- `ModifierStateValue`
abbrev pub to_be_added : ℤ
to_be_added = pos 0

abbrev pub alive : ℤ
alive = pos 1

abbrev pub to_be_removed : ℤ
to_be_removed = pos 2

-- `ModifierState.ref`
abbrev pub ref : ModifierState → ModifierRef
ref modifier = record {
  name = modifier.name;
  owner_entity = modifier.owner_entity;
  instance_ordinal = modifier.instance_ordinal;
}

abbrev pub eqb_ref : ModifierRef → ModifierRef → Bool
eqb_ref a b =
    string_eq.beq a.name b.name
    && eqb_ℤ a.owner_entity.runtime_id b.owner_entity.runtime_id
    && (a.instance_ordinal == b.instance_ordinal)

pub eqb_ref_iff : (a b : ModifierRef) → (eqb_ref a b ≡ true) ↔ (a ≡ b)
eqb_ref_iff a b = ground (
  arith,
  string_eq.beq_iff a.name b.name,
  int_eq.beq_iff a.owner_entity.runtime_id b.owner_entity.runtime_id,
)

instance abbrev pub ref_eq : Eq ModifierRef
ref_eq = record { beq = eqb_ref; beq_iff = eqb_ref_iff }

-- `ModifierContainer`, its items in append order
abbrev pub ModifierContainer : Type 0
ModifierContainer = List ModifierState

unfoldable pub append : ModifierContainer → ModifierState → ModifierContainer
append items modifier = items ++ modifier ∷ []

-- An index is refused below 0 and from the length on.
unfoldable pub replace_at : ModifierContainer → ℤ → ModifierState → Result ModifierContainer
replace_at items (pos index) modifier = do
  guard (ltb index (length items)) index_error
  ok (set items index modifier)
replace_at items (negsuc index) modifier = raise index_error

-- `del items[index]`
abbrev pub delete_at : ModifierContainer → ℕ → ModifierContainer
delete_at [] index = []
delete_at (m ∷ items) zero = items
delete_at (m ∷ items) (suc index) = m ∷ delete_at items index

unfoldable pub remove_at : ModifierContainer → ℤ → Result ModifierContainer
remove_at items (pos index) = do
  guard (ltb index (length items)) index_error
  ok (delete_at items index)
remove_at items (negsuc index) = raise index_error

unfoldable pub get_by_index : ModifierContainer → ℤ → Option ModifierState
get_by_index items (pos index) = get_elem? items index
get_by_index items (negsuc index) = none

-- The scan of `index_of`; -1 is `none`.
unfoldable pub index_of_ref : ModifierRef → ModifierContainer → Option ℕ
index_of_ref wanted [] = none
index_of_ref wanted (m ∷ items) =
    let rest = index_of_ref wanted items in
    if eqb_ref (ref m) wanted
    then some 0
    else elim rest [ none ↦ none | some index ↦ some (suc index) ]

abbrev pub index_of : ModifierContainer → ModifierState → Option ℕ
index_of items modifier = index_of_ref (ref modifier) items

abbrev same_name : String → Option String → Bool
same_name name none = false
same_name name (some wanted) = string_eq.beq name wanted

unfoldable pub has_modifier_by_name : ModifierContainer → Option String → Bool
has_modifier_by_name [] name = false
has_modifier_by_name (m ∷ items) name =
    (eqb_ℤ m.state_raw alive && same_name m.name name) || has_modifier_by_name items name

pub record ModifierMatchKey : Type 0 where
  pub name : String
  pub stacking_flag : ℤ
  pub caster_entity : Option EntityRef
  pub source_provider_ref : Option ObjectRef
