-- ===== src/Turn/Participants.antt =====
-- Participants of the timeline of src/hsr_battle_agent/battle_runtime/turns.py whose remaining
-- delay the code accepts.
use hsr_battle_agent.Base.{
  Bool-cases, false, if◌then◌else◌, inl, inr, length, ok, refl, some, true, ◌/◌, ◌==◌, ◌^◌, ◌≡◌,
  ◌≤◌,
}
use hsr_battle_agent.Base.Dict.{int_eq, lookup}
use hsr_battle_agent.Base.Int.{pos, ℤ, ◌-ℤ◌}
use hsr_battle_agent.Component.Laws.{post_init-ok}
use hsr_battle_agent.FixPoint.{fixpoint_is_negative, is_raw, mask64, validate_raw}
use hsr_battle_agent.FixPoint.Arith.{
  decode_fixpoint_common, encode_fixpoint_common, fixedpoint_subtract,
}
use hsr_battle_agent.FixPoint.ArithLaws.{encode-is_raw}
use hsr_battle_agent.Modifier.{ref_eq}
use hsr_battle_agent.Property.{PropertyEntry}
use hsr_battle_agent.Property.Valid.{IsSupported, IsValid}
use hsr_battle_agent.State.{
  BattleState, TurnTimeline, World, get_property_entry, key_eq, property_entry_key,
}
use hsr_battle_agent.Targets.{EntityRef}
use hsr_battle_agent.Turn.{delay_entry, delay_id, require_nonnegative_raw}
use hsr_battle_agent.Turn.Steps.{entity_of, reduced_delay, with_timeline}

pub record Participant (state : BattleState) (id delay : ℤ) : Type 0 where
  pub entry : PropertyEntry
  pub stored :
      lookup (property_entry_key (entity_of id) delay_id) state.entity_property_entries ≡ some entry
  pub valid : IsValid entry
  pub supported : IsSupported entry
  pub kind : entry.materialization_kind ≡ 1
  pub room : 1 ≤ length entry.source_value
  pub value : entry.materialized ≡ delay
  pub nonnegative : fixpoint_is_negative delay ≡ ok false

get_property_entry-stored :
    (state : BattleState) (entity : EntityRef) (property_id : ℤ) (entry : PropertyEntry)
    → lookup (property_entry_key entity property_id) state.entity_property_entries ≡ some entry
    → IsValid entry
    → get_property_entry state entity property_id ≡ ok (some entry)
unfolding get_property_entry
get_property_entry-stored state entity property_id entry stored valid =
    rw (stored, post_init-ok entry valid, get_property_entry) refl

pub require_nonnegative-ok :
    (value : ℤ)
    → is_raw value ≡ true
    → fixpoint_is_negative value ≡ ok false
    → require_nonnegative_raw value ≡ ok tt
unfolding require_nonnegative_raw validate_raw
require_nonnegative-ok value raw nonneg = rw (raw, nonneg)

pub delay_entry-ok :
    (state : BattleState) (id delay : ℤ) (p : Participant state id delay)
    → delay_entry state (entity_of id) ≡ ok p.entry
unfolding delay_entry
delay_entry-ok state id delay p = rw (
  get_property_entry-stored state (entity_of id) delay_id p.entry p.stored p.valid,
  require_nonnegative-ok p.entry.materialized p.valid.materialized_raw (rw p.value p.nonnegative),
  p.supported.hook,
  p.supported.transform_a,
  p.supported.transform_b,
)

-- What is left of a delay when `selected` has elapsed.
abbrev pub elapsed_value : ℤ → ℤ → ℤ
elapsed_value selected old =
    encode_fixpoint_common (decode_fixpoint_common old -ℤ decode_fixpoint_common selected)

unfoldable pub remaining : ℤ → ℤ → ℤ
remaining selected old =
    if mask64 (elapsed_value selected old) / 2 ^ 63 == 1 then pos 0 else elapsed_value selected old

pub reduced_delay-remaining :
    (selected old : ℤ)
    → is_raw selected ≡ true
    → is_raw old ≡ true
    → (reduced_delay old selected ≡ ok (remaining selected old))
      × (is_raw (remaining selected old) ≡ true)
      × (fixpoint_is_negative (remaining selected old) ≡ ok false)
unfolding reduced_delay remaining fixedpoint_subtract fixpoint_is_negative validate_raw
reduced_delay-remaining selected old hs ho =
    elim (Bool-cases (mask64 (elapsed_value selected old) / 2 ^ 63 == 1)) [
      | inl negative ↦ (
        rw
            (
              hs,
              ho,
              encode-is_raw (decode_fixpoint_common old -ℤ decode_fixpoint_common selected),
              negative,
              reduced_delay,
            )
            refl,
        rw negative refl,
        rw negative refl,
      )
      | inr other ↦ (
        rw
            (
              hs,
              ho,
              encode-is_raw (decode_fixpoint_common old -ℤ decode_fixpoint_common selected),
              other,
              reduced_delay,
            )
            refl,
        rw other (encode-is_raw _),
        rw
            (
              other,
              encode-is_raw (decode_fixpoint_common old -ℤ decode_fixpoint_common selected),
              other,
            )
            refl,
      )
    ]

pub Participant-timeline :
    (w : World) (u : TurnTimeline) (id d : ℤ)
    → Participant w.state id d
    → Participant (with_timeline w u).state id d
Participant-timeline w u id d p = record {
  entry = p.entry;
  stored = p.stored;
  valid = p.valid;
  supported = p.supported;
  kind = p.kind;
  room = p.room;
  value = p.value;
  nonnegative = p.nonnegative;
}
