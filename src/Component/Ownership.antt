-- ===== src/Component/Ownership.antt =====
-- The owner records of the contributions of src/hsr_battle_agent/battle_runtime/property.py.
-- Every stored entry is well-formed, and every record that is kept for a modifier names it.
use hsr_battle_agent.Base.{
  All, Bool-cases, Result, Result-cases, [], arith, if◌then◌else◌, inl, inr, sym, ◌++◌, ◌∷◌, ◌≡◌,
}
use hsr_battle_agent.Base.Action.{Action, ◌>>=◌}
use hsr_battle_agent.Base.Dict.{int_eq, lookup-insert}
use hsr_battle_agent.Base.Int.{ℤ}
use hsr_battle_agent.Component.{
  component_stack_source, remove_contribution_source, update_contribution_source,
}
use hsr_battle_agent.Component.Contributions.{Records, put_records, records_of}
use hsr_battle_agent.Component.Laws.{AllValid, insert-AllValid}
use hsr_battle_agent.Component.Outcomes.{
  SourceOutcome, component_stack_source-outcome, remove_contribution_source-outcome,
  update_contribution_source-outcome,
}
use hsr_battle_agent.Modifier.{ModifierRef, eqb_ref, eqb_ref_iff, ref_eq}
use hsr_battle_agent.State.{ModifierPropertyContribution, World, key_eq}
use hsr_battle_agent.Targets.{EntityRef}
use mathlib.Core.Path.{subst}

pub record Sound (w : World) : Type 0 where
  pub valid : AllValid w.state
  pub owned : (owner : ModifierRef) → All (λ r. r.modifier ≡ owner) (records_of w owner)

abbrev pub KeepsSound : {A : Type 0} → Action World A → Type 0
KeepsSound m = (w : World) → Sound w → Sound (m w).1

pub bind-KeepsSound :
    {A B : Type 0} (m : Action World A) (f : A → Action World B)
    → KeepsSound m
    → ((a : A) → KeepsSound (f a))
    → KeepsSound (m >>= f)
bind-KeepsSound m f keeps rest w h = elim (Result-cases (m w).0) [
  | inl (a, e) ↦ rw (e, ◌>>=◌) (rest a (m w).1 (keeps w h))
  | inr (error, e) ↦ rw (e, ◌>>=◌) (keeps w h)
]

outcome-Sound :
    {A : Type 0} (entity : EntityRef) (property_id : ℤ) (w : World) (r : Result A × World)
    → SourceOutcome entity property_id w r
    → Sound w
    → Sound r.1
outcome-Sound entity property_id w r (inl (e, raised)) h = rw raised h
outcome-Sound entity property_id w r (inr (op, i, entry, new, a, found, keeps, done)) h =
    let inserted =
      insert-AllValid w entity property_id new h.valid (keeps (h.valid _ entry found)) in
    rw done (record { valid = inserted; owned = h.owned })

pub component_stack_source-KeepsSound :
    (entity : EntityRef) (property_id value : ℤ)
    → KeepsSound (component_stack_source entity property_id value)
component_stack_source-KeepsSound entity property_id value w h =
    outcome-Sound entity property_id w _ (component_stack_source-outcome entity property_id value w)
      h

pub update_contribution_source-KeepsSound :
    (entity : EntityRef) (property_id source_index value : ℤ)
    → KeepsSound (update_contribution_source entity property_id source_index value)
update_contribution_source-KeepsSound entity property_id source_index value w h =
    outcome-Sound entity property_id w _
      (update_contribution_source-outcome entity property_id source_index value w) h

pub remove_contribution_source-KeepsSound :
    (entity : EntityRef) (property_id source_index : ℤ)
    → KeepsSound (remove_contribution_source entity property_id source_index)
remove_contribution_source-KeepsSound entity property_id source_index w h =
    outcome-Sound entity property_id w _
      (remove_contribution_source-outcome entity property_id source_index w) h

records_of-put :
    (owner other : ModifierRef) (records : Records) (w : World)
    → records_of (put_records owner records w).1 other
      ≡ (if eqb_ref other owner then records else records_of w other)
records_of-put owner other records w =
    ground (arith, lookup-insert other owner records w.state.modifier_property_contributions)

pub put_records-KeepsSound :
    (owner : ModifierRef) (records : Records)
    → All (λ r. r.modifier ≡ owner) records
    → KeepsSound (put_records owner records)
put_records-KeepsSound owner records named w h = record {
  valid = h.valid;
  owned = λ other. elim (Bool-cases (eqb_ref other owner)) [
    | inl same ↦
        let e : owner ≡ other = sym ((eqb_ref_iff other owner).0 same) in
        rw (records_of-put owner other records w, same)
          (subst (λ o. All (λ r. r.modifier ≡ o) records) e named)
    | inr apart ↦ rw (records_of-put owner other records w, apart) (h.owned other)
  ];
}

pub All-append :
    (owner : ModifierRef) (records : Records) (r : ModifierPropertyContribution)
    → All (λ s. s.modifier ≡ owner) records
    → r.modifier ≡ owner
    → All (λ s. s.modifier ≡ owner) (records ++ r ∷ [])
All-append owner [] r all e = (e, tt)
All-append owner (s ∷ records) r all e = (all.0, All-append owner records r all.1 e)
