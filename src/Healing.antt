-- ===== src/Healing.antt =====
-- src/hsr_battle_agent/battle_ir/healing.py: the values at the boundary of the real-skill heal, with the
-- checks of their constructors. A string is its code points.
pub mod Skill
use hsr_battle_agent.Base.{
  Bool, List, Option, Result, [], false, guard, if◌then◌else◌, key_error, length, not, ok, raise,
  true, value_error, ◌&&◌, ◌-◌, ◌==◌, ◌>>=◌, ◌>>◌, ◌^◌, ◌||◌, ◌∷◌,
}
use hsr_battle_agent.Base.Int.{eqb_ℤ, leb_ℤ, negsuc, pos, ℤ}
use hsr_battle_agent.Base.Text.{Text, is_text}
use hsr_battle_agent.Targets.{EntityRef}

abbrev pub qword_min : ℤ
qword_min = negsuc (2 ^ 63 - 1)

abbrev pub qword_max : ℤ
qword_max = pos (2 ^ 64 - 1)

-- `_require_raw`
unfoldable pub require_raw : ℤ → Result (Unit {0})
require_raw value = guard (leb_ℤ qword_min value && leb_ℤ value qword_max) value_error

-- `_require_text`
unfoldable pub require_text : Text → Result (Unit {0})
unfolding is_text
require_text value = guard (is_text value) value_error

pub record SerializedDynamicFloatFormula : Type 0 where
  pub opcodes : List ℤ
  pub qword_operands : List ℤ
  pub int32_operands : List ℤ
  pub source_start : Text
  pub source_end_exclusive : Text

-- A check of each item of a tuple, in order.
unfoldable pub require_each : (ℤ → Result (Unit {0})) → List ℤ → Result (Unit {0})
require_each require [] = ok tt
require_each require (item ∷ items) = require item >> require_each require items

unfoldable pub require_byte : ℤ → Result (Unit {0})
require_byte item = guard (leb_ℤ (pos 0) item && leb_ℤ item (pos 255)) value_error

unfoldable pub require_int32 : ℤ → Result (Unit {0})
require_int32 item =
    guard (leb_ℤ (negsuc (2 ^ 31 - 1)) item && leb_ℤ item (pos (2 ^ 31 - 1))) value_error

unfoldable pub check_formula : SerializedDynamicFloatFormula → Result SerializedDynamicFloatFormula
unfolding require_raw require_text require_each require_byte require_int32
check_formula formula = do
  guard (not (length formula.opcodes == 0)) value_error
  require_each require_byte formula.opcodes
  require_each require_raw formula.qword_operands
  require_each require_int32 formula.int32_operands
  require_text formula.source_start
  require_text formula.source_end_exclusive
  ok formula

abbrev sole : List ℤ → List ℤ → Result ℤ
sole [] (operand ∷ []) = ok operand
sole [] [] = raise value_error
sole [] (operand ∷ other ∷ operands) = raise value_error
sole (qword ∷ qwords) operands = raise value_error

unfoldable pub sole_int32_operand : SerializedDynamicFloatFormula → Result ℤ
sole_int32_operand formula = sole formula.qword_operands formula.int32_operands

pub record NatashaSkill02HealConfig : Type 0 where
  pub ability_name : Text
  pub content_artifact_ref : Text
  pub content_artifact_sha256 : Text
  pub archive_sha256 : Text
  pub parent_discriminator : ℤ
  pub predicate_discriminator : ℤ
  pub predicate_trigger_key : ℤ
  pub target_discriminator : ℤ
  pub target_name : Text
  pub dispel_discriminator : ℤ
  pub dispel_order : ℤ
  pub dispel_numbers : SerializedDynamicFloatFormula
  pub heal_discriminator : ℤ
  pub heal_formula_type : ℤ
  pub heal_percentage : SerializedDynamicFloatFormula
  pub modify_value : SerializedDynamicFloatFormula

unfoldable pub check_config : NatashaSkill02HealConfig → Result NatashaSkill02HealConfig
unfolding require_text
check_config config = do
  require_text config.ability_name
  require_text config.content_artifact_ref
  require_text config.content_artifact_sha256
  require_text config.archive_sha256
  require_text config.target_name
  ok config

pub record ResolvedDynamicFloat : Type 0 where
  pub formula_operand : ℤ
  pub value_raw : ℤ
  pub provenance : Text

unfoldable pub check_resolved : ResolvedDynamicFloat → Result ResolvedDynamicFloat
unfolding require_raw require_text
check_resolved resolved = do
  require_raw resolved.value_raw
  require_text resolved.provenance
  ok resolved

pub record RealSkillExternalBindings : Type 0 where
  pub predicate_satisfied : Bool
  pub predicate_provenance : Text
  pub ability_target : EntityRef
  pub target_provenance : Text
  pub dynamic_values : List ResolvedDynamicFloat
  pub ordinary_healer_branch : Bool
  pub healer_branch_provenance : Text

unfoldable pub has_operand : ℤ → List ResolvedDynamicFloat → Bool
has_operand key [] = false
has_operand key (item ∷ items) = eqb_ℤ item.formula_operand key || has_operand key items

-- `len(keys) == len(set(keys))`
unfoldable pub unique_operands : List ResolvedDynamicFloat → Bool
unfolding has_operand
unique_operands [] = true
unique_operands (item ∷ items) =
    not (has_operand item.formula_operand items) && unique_operands items

unfoldable pub check_bindings : RealSkillExternalBindings → Result RealSkillExternalBindings
unfolding require_text unique_operands
check_bindings bindings = do
  require_text bindings.predicate_provenance
  require_text bindings.target_provenance
  guard (unique_operands bindings.dynamic_values) value_error
  require_text bindings.healer_branch_provenance
  ok bindings

-- `[item for item in dynamic_values if item.formula_operand == key]`
unfoldable pub matching : ℤ → List ResolvedDynamicFloat → List ResolvedDynamicFloat
matching key [] = []
matching key (item ∷ items) =
    if eqb_ℤ item.formula_operand key then item ∷ matching key items else matching key items

abbrev only : List ResolvedDynamicFloat → Result ResolvedDynamicFloat
only [] = raise key_error
only (item ∷ []) = ok item
only (item ∷ other ∷ items) = raise key_error

unfoldable pub resolve :
    RealSkillExternalBindings → SerializedDynamicFloatFormula → Result ResolvedDynamicFloat
unfolding sole_int32_operand matching
resolve bindings formula = do
  key ← sole_int32_operand formula
  only (matching key bindings.dynamic_values)

pub record DispelStatusRequestBoundary : Type 0 where
  pub caster : EntityRef
  pub target : EntityRef
  pub numbers_raw : ℤ
  pub order : ℤ
  pub config_ref : Text
  pub resolution_provenance : Text

unfoldable pub check_dispel_request :
    DispelStatusRequestBoundary → Result DispelStatusRequestBoundary
unfolding require_raw require_text
check_dispel_request request = do
  require_raw request.numbers_raw
  require_text request.config_ref
  require_text request.resolution_provenance
  ok request

pub record HealRequestBoundary : Type 0 where
  pub healer : EntityRef
  pub target : EntityRef
  pub amount_raw : ℤ
  pub observed_current_hp_raw : ℤ
  pub formula_type : ℤ
  pub config_ref : Text
  pub dynamic_resolution_provenance : List Text
  pub consumer_status : Text

-- `all(item.strip() for item in items)`
unfoldable pub all_text : List Text → Bool
unfolding is_text
all_text [] = true
all_text (item ∷ items) = is_text item && all_text items

unfoldable pub check_heal_request : HealRequestBoundary → Result HealRequestBoundary
unfolding require_raw require_text all_text
check_heal_request request = do
  require_raw request.amount_raw
  require_raw request.observed_current_hp_raw
  require_text request.config_ref
  guard (all_text request.dynamic_resolution_provenance) value_error
  require_text request.consumer_status
  ok request

pub record RealSkillExecutionBoundaryResult : Type 0 where
  pub ability_name : Text
  pub caster : EntityRef
  pub target : EntityRef
  pub predicate_satisfied : Bool
  pub predicate_provenance : Text
  pub dispel_request : Option DispelStatusRequestBoundary
  pub heal_request : Option HealRequestBoundary
  pub status : Text
  pub blockers : List Text

unfoldable pub check_result :
    RealSkillExecutionBoundaryResult → Result RealSkillExecutionBoundaryResult
unfolding require_text all_text
check_result result = do
  require_text result.ability_name
  require_text result.predicate_provenance
  require_text result.status
  guard (all_text result.blockers) value_error
  ok result
