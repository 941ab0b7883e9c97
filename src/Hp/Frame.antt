-- ===== src/Hp/Frame.antt =====
-- The entries of a state around the writes of src/hsr_battle_agent/battle_runtime/hp.py.
use hsr_battle_agent.Base.{
  Error, Option-cases, Result-cases, ap, inl, inr, ok, property_entry_not_found, raise, refl, some,
  sym, ◌∙◌, ◌≡◌, ◌≢◌, ◌⊎◌,
}
use hsr_battle_agent.Base.Dict.{int_eq, lookup, lookup-insert_ne}
use hsr_battle_agent.Base.Int.{pos, ℤ}
use hsr_battle_agent.Component.Laws.{AllValid, insert-AllValid, post_init-ok}
use hsr_battle_agent.Component.Outcomes.{post_init-same}
use hsr_battle_agent.Hp.{current_hp_id, entry_materialized, negative_hp_id}
use hsr_battle_agent.Hp.Transition.{write_source_zero_to}
use hsr_battle_agent.Modifier.{ref_eq}
use hsr_battle_agent.Property.{PropertyEntry, post_init}
use hsr_battle_agent.Property.SlotLaws.{update-IsValid}
use hsr_battle_agent.Property.Slots.{update_source_slot}
use hsr_battle_agent.Property.Valid.{IsValid}
use hsr_battle_agent.State.{
  emit_boundary_to, recording, BattleState, PropertyKey, World, emit_boundary, get_property_entry,
  key_eq, property_entry_key, set_property_entry, store_entry, with_entry,
}
use hsr_battle_agent.Targets.{EntityRef}
use hsr_battle_agent.Tests.Numbers.{one}
use mathlib.Core.Path.{subst}

-- The two entries that a transition of the component may write.
abbrev pub IsUntouched : EntityRef → PropertyKey → Type 0
IsUntouched component key =
    (key ≢ property_entry_key component current_hp_id)
    × (key ≢ property_entry_key component negative_hp_id)

-- Every stored entry stays well-formed, and only the two are written.
pub record Framed (component : EntityRef) (w w' : World) : Type 0 where
  pub valid : AllValid w'.state
  pub others :
      (key : PropertyKey)
      → IsUntouched component key
      → lookup key w'.state.entity_property_entries ≡ lookup key w.state.entity_property_entries

pub Framed-same :
    (component : EntityRef) (w w' : World)
    → AllValid w.state
    → w'.state ≡ w.state
    → Framed component w w'
Framed-same component w w' valid same = record {
  valid = subst AllValid (sym same) valid;
  others = λ key h. ap (λ s. lookup key s.entity_property_entries) same;
}

pub Framed-trans :
    (component : EntityRef) (a b c : World)
    → Framed component a b
    → Framed component b c
    → Framed component a c
Framed-trans component a b c ab bc = record {
  valid = bc.valid;
  others = λ key h. bc.others key h ∙ ab.others key h;
}

pub entry_materialized-stored :
    (state : BattleState) (component : EntityRef) (property_id : ℤ) (entry : PropertyEntry)
    → entry_materialized state component property_id ≡ ok entry
    → lookup (property_entry_key component property_id) state.entity_property_entries ≡ some entry
unfolding entry_materialized get_property_entry
entry_materialized-stored state component property_id entry h =
    elim (Option-cases
      (lookup (property_entry_key component property_id) state.entity_property_entries)) [
        | inl missing ↦
            let bad : raise property_entry_not_found ≡ ok entry =
              (rw (missing, entry_materialized, get_property_entry) at h) in
            absurd (raise-ne-ok bad)
        | inr (raw, found) ↦ elim (Result-cases (post_init raw)) [
          | inr (e, refused) ↦
              let bad : raise e ≡ ok entry =
                (rw (found, refused, entry_materialized, get_property_entry) at h) in
              absurd (raise-ne-ok bad)
          | inl (made, same) ↦
              let e : ok made ≡ ok entry =
                (rw (found, same, entry_materialized, get_property_entry) at h) in
              found ∙ ap some (post_init-same raw made same ∙ ok-entry e)
        ]
      ]
  where
    raise-ne-ok : {e : Error} → raise e ≡ ok entry → ⊥
    raise-ne-ok bad = cc

    ok-entry : {made : PropertyEntry} → ok made ≡ ok entry → made ≡ entry
    ok-entry e = cc

-- A write of a well-formed entry at one of the two keys.
with_entry-Framed :
    (w : World) (component : EntityRef) (property_id : ℤ) (entry : PropertyEntry)
    → AllValid w.state
    → IsValid entry
    → (property_id ≡ current_hp_id) ⊎ (property_id ≡ negative_hp_id)
    → Framed component w (with_entry w component property_id entry)
with_entry-Framed w component property_id entry valid h one = record {
  valid = insert-AllValid w component property_id entry valid h;
  others = λ key free.
      lookup-insert_ne key (property_entry_key component property_id) entry
        w.state.entity_property_entries (distinct key free one);
}
  where
    distinct :
        (key : PropertyKey)
        → IsUntouched component key
        → (property_id ≡ current_hp_id) ⊎ (property_id ≡ negative_hp_id)
        → key ≢ property_entry_key component property_id
    distinct key free (inl e) = rw e free.0
    distinct key free (inr e) = rw e free.1

abbrev pub Source : ℤ → Type 0
Source property_id = (property_id ≡ current_hp_id) ⊎ (property_id ≡ negative_hp_id)

pub write_source_zero_to-Framed :
    (told : PropertyEntry → ℤ) (component : EntityRef) (property_id : ℤ) (entry : PropertyEntry)
    (value : ℤ) (w : World)
    → AllValid w.state
    → IsValid entry
    → Source property_id
    → Framed component w (write_source_zero_to recording told component property_id entry value w).1
unfolding write_source_zero_to set_property_entry store_entry emit_boundary_to emit_boundary
write_source_zero_to-Framed told component property_id entry value w valid h one =
    elim (Result-cases (update_source_slot (pos 0) value entry).0) [
      | inr (e, failed) ↦ rw failed (Framed-same component w w valid refl)
      | inl (u, done) ↦
          let new = update-IsValid (pos 0) value entry h in
          let framed = with_entry-Framed w component property_id _ valid new one in
          rw (done, post_init-ok (update_source_slot (pos 0) value entry).1 new)
            (record { valid = framed.valid; others = framed.others })
    ]
