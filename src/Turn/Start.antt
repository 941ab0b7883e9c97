-- ===== src/Turn/Start.antt =====
-- initialize_turn_timeline of src/hsr_battle_agent/battle_runtime/turns.py.
use mathlib.Core.List.Perm
use hsr_battle_agent.Base.{
  All, Bool-cases, Error, List, Option, Result-cases, [], ap, arith, false, inl, inr, length, map,
  none, ok, raise, refl, some, sym, true, value_error, ◌==◌, ◌∷◌, ◌≡◌, ◌≢◌, ◌⊎◌,
}
use hsr_battle_agent.Base.Int.{pos}
use hsr_battle_agent.FixPoint.{fixpoint_is_negative, validate_raw}
use hsr_battle_agent.Property.{PropertyEntry}
use hsr_battle_agent.State.{TurnPhase, TurnTimeline, World}
use hsr_battle_agent.Targets.{EntityRef, TargetSet}
use hsr_battle_agent.Turn.{all_distinct, delay_entry, is_empty, require_nonnegative_raw, timeline}
use hsr_battle_agent.Turn.Distinct.{order-Distinct}
use hsr_battle_agent.Turn.Reduction.{Distinct}
use hsr_battle_agent.Turn.Runs.{entities-ids_of}
use hsr_battle_agent.Turn.Steps.{
  check_delays, ids_of, initialize_turn_timeline, present, with_timeline,
}
use hsr_battle_agent.Turn.Stored.{Distinct-all_distinct}
use mathlib.Core.List.{Mem, Perm, mem-cons_of_mem, mem-cons_self}
use mathlib.Core.Path.{subst}

-- The timeline of these participants before the first turn.
abbrev pub first_timeline : List EntityRef → TurnTimeline
first_timeline entities = record {
  action_entity_runtime_ids = ids_of entities;
  current_actor_runtime_id = none;
  elapsed_action_delay_raw = pos 0;
  turn_index = 0;
  phase = TurnPhase.ready;
  last_completion_provenance = none;
}

first_timeline-checked :
    (w : World) (entities : List EntityRef)
    → is_empty (ids_of entities) ≡ false
    → all_distinct (ids_of entities) ≡ true
    → timeline (with_timeline w (first_timeline entities)).state ≡ ok (first_timeline entities)
unfolding timeline require_nonnegative_raw validate_raw fixpoint_is_negative
first_timeline-checked w entities filled distinct = rw (filled, distinct)

present-map :
    (items : List (Option EntityRef)) (entities : List EntityRef)
    → present items ≡ ok entities
    → items ≡ map some entities
present-map [] entities h = let e : [] ≡ entities = cc in rw (← e) refl
present-map (none ∷ items) entities h = cc
present-map (some e ∷ items) entities h = elim (Result-cases (present items)) [
  | inr (error, failed) ↦ let bad : raise error ≡ ok entities = (rw (failed, present) at h) in cc
  | inl (rest, done) ↦
      let same : ok (e ∷ rest) ≡ ok entities = (rw (done, present) at h) in
      let listed : e ∷ rest ≡ entities = cc in
      rw (← listed) (ap (λ l. some e ∷ l) (present-map items rest done))
]

present-none :
    (items : List (Option EntityRef)) (error : Error) → present items ≡ raise error → Mem none items
present-none [] error h = cc
present-none (none ∷ items) error h = mem-cons_self
present-none (some e ∷ items) error h = elim (Result-cases (present items)) [
  | inl (rest, done) ↦ let bad : ok (e ∷ rest) ≡ raise error = (rw (done, present) at h) in cc
  | inr (inner, failed) ↦ mem-cons_of_mem (some e) (present-none items inner failed)
]

-- The delay of an entity is found and accepted.
abbrev pub HasDelay : World → EntityRef → Type 0
HasDelay w e = (entry : PropertyEntry) × (delay_entry w.state e ≡ ok entry)

abbrev pub LacksDelay : World → EntityRef → Type 0
LacksDelay w e = (error : Error) × (delay_entry w.state e ≡ raise error)

delays-found :
    (w : World) (entities : List EntityRef) (u : Unit {0})
    → check_delays w.state entities ≡ ok u
    → All (HasDelay w) entities
delays-found w [] u h = tt
delays-found w (e ∷ entities) u h = elim (Result-cases (delay_entry w.state e)) [
  | inl (entry, found) ↦ ((entry, found), delays-found w entities u (rw (found, check_delays) at h))
  | inr (error, failed) ↦ let bad : raise error ≡ ok u = (rw (failed, check_delays) at h) in cc
]

delay-lacking :
    (w : World) (entities : List EntityRef) (error : Error)
    → check_delays w.state entities ≡ raise error
    → (e : EntityRef) × Mem e entities × LacksDelay w e
delay-lacking w [] error h = cc
delay-lacking w (e ∷ entities) error h = elim (Result-cases (delay_entry w.state e)) [
  | inr (own, failed) ↦ (e, mem-cons_self, (own, failed))
  | inl (entry, found) ↦
      let (other, place, lacks) = delay-lacking w entities error (rw (found, check_delays) at h) in
      (other, mem-cons_of_mem e place, lacks)
]

Distinct-ids :
    (entities : List EntityRef) → all_distinct (ids_of entities) ≡ true → Distinct entities
Distinct-ids entities h =
    order-Distinct (ids_of entities) entities h
      (subst (Perm entities) (sym (entities-ids_of entities)) (Perm.refl entities))

filled-ids :
    (items : List (Option EntityRef)) (entities : List EntityRef)
    → (length items == 0) ≡ false
    → items ≡ map some entities
    → is_empty (ids_of entities) ≡ false
filled-ids items [] filled e = let bad : (length items == 0) ≡ true = rw e refl in cc
filled-ids items (e ∷ entities) filled h = refl

empty-items : (items : List (Option EntityRef)) → (length items == 0) ≡ true → items ≡ []
empty-items [] h = refl
empty-items (item ∷ items) h = ground (arith, h)

not-Distinct :
    (entities : List EntityRef) → all_distinct (ids_of entities) ≡ false → Distinct entities → ⊥
not-Distinct entities twice distinct = let once = Distinct-all_distinct entities distinct in cc

-- What a participants argument has to be.
abbrev pub Fit : TargetSet → World → List EntityRef → Type 0
Fit participants w entities =
    (participants.items ≡ map some entities)
    × (entities ≢ [])
    × Distinct entities
    × All (HasDelay w) entities

-- What is wrong with one that is refused: no items, a null item, two of one id, or a delay that is missing or
-- not accepted.
abbrev pub Unfit : TargetSet → World → Type 0
Unfit participants w =
    (participants.items ≡ [])
    ⊎ (Mem none participants.items
        ⊎ ((entities : List EntityRef) × (participants.items ≡ map some entities)
            × ((Distinct entities → ⊥) ⊎ ((e : EntityRef) × Mem e entities × LacksDelay w e))))

filled-entities : (entities : List EntityRef) → is_empty (ids_of entities) ≡ false → entities ≢ []
filled-entities [] h e = cc
filled-entities (x ∷ entities) h e = cc

-- initialize_turn_timeline succeeds for participants that are there, are present, have different ids and
-- accepted delays: it stores the ready timeline of exactly these, in their order, with index 0 and no
-- elapsed delay, which passes every check of the later operations. For any others it raises and changes nothing.
pub initialize-checked :
    (participants : TargetSet) (w : World)
    → (Unfit participants w
        × ((e : Error) × (initialize_turn_timeline participants w ≡ (raise e, w))))
      ⊎ ((entities : List EntityRef) × Fit participants w entities
          × (initialize_turn_timeline participants w
              ≡ (ok tt, with_timeline w (first_timeline entities)))
          × (timeline (with_timeline w (first_timeline entities)).state
              ≡ ok (first_timeline entities)))
unfolding initialize_turn_timeline
initialize-checked participants w = elim (Bool-cases (length participants.items == 0)) [
  | inl empty ↦ inl (inl (empty-items participants.items empty), (value_error, rw empty refl))
  | inr some_items ↦ elim (Result-cases (present participants.items)) [
    | inr (e, absent) ↦
        inl
          (inr (inl (present-none participants.items e absent)), (e, rw (some_items, absent) refl))
    | inl (entities, listed) ↦
        let items = present-map participants.items entities listed in
        let filled = filled-ids participants.items entities some_items items in
        elim (Bool-cases (all_distinct (ids_of entities))) [
          | inr twice ↦ inl (
            inr (inr (entities, items, inl (not-Distinct entities twice))),
            (value_error, rw (some_items, listed, twice) refl),
          )
          | inl distinct ↦ elim (Result-cases (check_delays w.state entities)) [
            | inr (e, refused) ↦ inl (
              inr (inr (entities, items, inr (delay-lacking w entities e refused))),
              (e, rw (some_items, listed, distinct, refused) refl),
            )
            | inl (u, checked) ↦ inr (
              entities,
              (
                items,
                filled-entities entities filled,
                Distinct-ids entities distinct,
                delays-found w entities u checked,
              ),
              rw (some_items, listed, distinct, checked) refl,
              first_timeline-checked w entities filled distinct,
            )
          ]
        ]
  ]
]
