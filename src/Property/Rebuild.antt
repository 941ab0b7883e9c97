-- ===== src/Property/Rebuild.antt =====
-- rebuild_materialized of src/hsr_battle_agent/battle_runtime/property.py, the end of every slot
-- writer.
use hsr_battle_agent.Base.{Bool-cases, Result-cases, arith, false, inl, inr, ok, true, ◌≡◌}
use hsr_battle_agent.Base.Int.{ℤ}
use hsr_battle_agent.FixPoint.{is_raw}
use hsr_battle_agent.Property.{PropertyEntry, materialize_by_kind, require_supported_post_stages}
use hsr_battle_agent.Property.Materialize.{materialize_by_kind-total}
use hsr_battle_agent.Property.Slots.{rebuild_materialized}
use hsr_battle_agent.Property.Valid.{IsSupported, IsValid, supported_kind}

materialize-unsupported :
    (entry : PropertyEntry) (v : ℤ)
    → supported_kind entry.materialization_kind ≡ false
    → materialize_by_kind entry ≡ ok v
    → ⊥
unfolding materialize_by_kind
materialize-unsupported entry v k h = ground arith

pub materialize-is_raw :
    (entry : PropertyEntry) (v : ℤ)
    → IsValid entry
    → materialize_by_kind entry ≡ ok v
    → is_raw v ≡ true
materialize-is_raw entry v h e = elim (Bool-cases (supported_kind entry.materialization_kind)) [
  | inl k ↦ let (x, got, raw) = materialize_by_kind-total entry h k in ground arith
  | inr k ↦ absurd (materialize-unsupported entry v k e)
]

-- Whether it returns or raises, the rebuild leaves every field but the materialized value.
pub rebuild-keeps :
    (entry : PropertyEntry)
    → (m : ℤ) × ((rebuild_materialized entry).1 ≡ record entry { materialized = m })
unfolding rebuild_materialized
rebuild-keeps entry = elim (Result-cases (require_supported_post_stages entry)) [
  | inr (e, stopped) ↦ (entry.materialized, rw stopped)
  | inl (u, passed) ↦ elim (Result-cases (materialize_by_kind entry)) [
    | inr (e, stopped) ↦ (entry.materialized, rw (passed, stopped))
    | inl (v, got) ↦ (v, rw (passed, got))
  ]
]

pub rebuild-IsValid :
    (entry : PropertyEntry) → IsValid entry → IsValid (rebuild_materialized entry).1
unfolding rebuild_materialized
rebuild-IsValid entry h = elim (Result-cases (require_supported_post_stages entry)) [
  | inr (e, stopped) ↦ rw stopped h
  | inl (u, passed) ↦ elim (Result-cases (materialize_by_kind entry)) [
    | inr (e, stopped) ↦ rw (passed, stopped) h
    | inl (v, got) ↦
        rw (passed, got)
          (record {
            stamped = h.stamped;
            parallel = h.parallel;
            values = h.values;
            base = h.base;
            materialized_raw = materialize-is_raw entry v h got;
            extent = h.extent;
          })
  ]
]

pub post_stages-ok :
    (entry : PropertyEntry) → IsSupported entry → require_supported_post_stages entry ≡ ok tt
unfolding require_supported_post_stages
post_stages-ok entry s = rw (s.hook, s.transform_a, s.transform_b)

-- On a supported entry it succeeds, with the value of the kind's formula.
pub rebuild-ok :
    (entry : PropertyEntry)
    → IsValid entry
    → IsSupported entry
    → (m : ℤ) × (materialize_by_kind entry ≡ ok m)
      × (is_raw m ≡ true)
      × (rebuild_materialized entry ≡ (ok m, record entry { materialized = m }))
unfolding rebuild_materialized
rebuild-ok entry h s =
    let (m, e, raw) = materialize_by_kind-total entry h s.kind in
    (m, e, raw, rw (post_stages-ok entry s, e))
