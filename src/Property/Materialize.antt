-- ===== src/Property/Materialize.antt =====
-- The kinds of the materializer of src/hsr_battle_agent/battle_runtime/property.py.
use hsr_battle_agent.Base.{Bool-cases, arith, get_or, inl, inr, length, ok, true, ◌==◌, ◌≡◌}
use hsr_battle_agent.Base.Int.{ℤ}
use hsr_battle_agent.FixPoint.{is_raw}
use hsr_battle_agent.Property.{
  PropertyEntry, active_from, active_indices, first_or, materialize_by_kind,
}
use hsr_battle_agent.Property.Folds.{
  active_from-AllBelow, extremum-total, first_or-raw, fixedpoint_add-IsTotal,
  fixedpoint_multiply-IsTotal, fold_active-total, get_or-raw, keep_greater-IsTotal,
  keep_less-IsTotal,
}
use hsr_battle_agent.Property.Valid.{IsValid, supported_kind}

-- On a well-formed entry of a supported kind the materializer returns a qword.
pub materialize_by_kind-total :
    (entry : PropertyEntry)
    → IsValid entry
    → supported_kind entry.materialization_kind ≡ true
    → (v : ℤ) × (materialize_by_kind entry ≡ ok v) × (is_raw v ≡ true)
unfolding materialize_by_kind active_indices
materialize_by_kind-total entry h k =
    let values = entry.source_value in
    let base = entry.base_or_fallback in
    let active = active_from 0 entry.source_active in
    let below =
      active_from-AllBelow 0 entry.source_active (length values) (omega (arith, h.parallel)) in
    let added = fold_active-total fixedpoint_add-IsTotal values base active h.values h.base below in
    let multiplied =
      fold_active-total fixedpoint_multiply-IsTotal values base active h.values h.base below in
    let least = extremum-total keep_less-IsTotal base values active h.values h.base below in
    let greatest = extremum-total keep_greater-IsTotal base values active h.values h.base below in
    elim (Bool-cases (entry.materialization_kind == 1)) [
      | inl e ↦ (first_or base values, rw e, first_or-raw values base h.values h.base)
      | inr n1 ↦ elim (Bool-cases (entry.materialization_kind == 2)) [
        | inl e ↦ (
          get_or values entry.last_changed_source base,
          rw (n1, e),
          get_or-raw values entry.last_changed_source base h.values h.base,
        )
        | inr n2 ↦ elim (Bool-cases (entry.materialization_kind == 3)) [
          | inl e ↦ rw (n1, n2, e) added
          | inr n3 ↦ elim (Bool-cases (entry.materialization_kind == 4)) [
            | inl e ↦ rw (n1, n2, n3, e) multiplied
            | inr n4 ↦ elim (Bool-cases (entry.materialization_kind == 5)) [
              | inl e ↦ absurd (ground arith)
              | inr n5 ↦ elim (Bool-cases (entry.materialization_kind == 6)) [
                | inl e ↦ rw (n1, n2, n3, n4, n5, e) least
                | inr n6 ↦ elim (Bool-cases (entry.materialization_kind == 7)) [
                  | inl e ↦ rw (n1, n2, n3, n4, n5, n6, e) greatest
                  | inr n7 ↦ absurd (ground arith)
                ]
              ]
            ]
          ]
        ]
      ]
    ]
