-- ===== src/Property/FirstSlot.antt =====
-- The write of slot 0 at kind 1 of the materializer of
-- src/hsr_battle_agent/battle_runtime/property.py.
use hsr_battle_agent.Base.{List, [], ap, length, lt→ltb, ok, refl, set, true, ◌∙◌, ◌∷◌, ◌≡◌, ◌≤◌}
use hsr_battle_agent.Base.Action.{>>-pure-ok}
use hsr_battle_agent.Base.Int.{pos, ℤ}
use hsr_battle_agent.FixPoint.{is_raw, validate_raw}
use hsr_battle_agent.Property.{PropertyEntry, first_or, materialize_by_kind, require_source_index}
use hsr_battle_agent.Property.Choice.{IsSupported-write}
use hsr_battle_agent.Property.Rebuild.{post_stages-ok}
use hsr_battle_agent.Property.Slots.{rebuild_materialized, update_source_slot, write_slot}
use hsr_battle_agent.Property.Valid.{IsSupported}

first_or-set :
    (base v : ℤ) (values : List ℤ) → 1 ≤ length values → first_or base (set values 0 v) ≡ v
first_or-set base v [] h = elim h [ ]
first_or-set base v (x ∷ values) h = refl

materialize-first :
    (entry : PropertyEntry)
    → entry.materialization_kind ≡ 1
    → materialize_by_kind entry ≡ ok (first_or entry.base_or_fallback entry.source_value)
unfolding materialize_by_kind
materialize-first entry kind = rw kind

rebuild-first :
    (entry : PropertyEntry)
    → IsSupported entry
    → entry.materialization_kind ≡ 1
    → rebuild_materialized entry ≡ (
      ok (first_or entry.base_or_fallback entry.source_value),
      record entry { materialized = first_or entry.base_or_fallback entry.source_value },
    )
unfolding rebuild_materialized
rebuild-first entry s kind = rw (post_stages-ok entry s, materialize-first entry kind)

abbrev pub rewritten : PropertyEntry → ℤ → PropertyEntry
rewritten entry value = record (write_slot entry 0 value) { materialized = value }

-- At kind 1 an update of slot 0 materializes the value that it writes.
pub update-first :
    (entry : PropertyEntry) (value : ℤ)
    → IsSupported entry
    → entry.materialization_kind ≡ 1
    → 1 ≤ length entry.source_value
    → is_raw value ≡ true
    → update_source_slot (pos 0) value entry ≡ (ok tt, rewritten entry value)
unfolding update_source_slot require_source_index validate_raw
update-first entry value s kind room raw =
    let rebuilt : rebuild_materialized (write_slot entry 0 value)
        ≡ (ok value, rewritten entry value) =
      (rebuild-first (write_slot entry 0 value) (IsSupported-write entry 0 value s) kind
        ∙ ap (λ v. (ok v, record (write_slot entry 0 value) { materialized = v }))
            (first_or-set entry.base_or_fallback value entry.source_value room)) in
    rw (lt→ltb 0 (length entry.source_value) room, raw)
      (>>-pure-ok {B = Unit {0}} rebuild_materialized tt (write_slot entry 0 value) rebuilt)
