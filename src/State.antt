-- ===== src/State.antt =====
-- src/hsr_battle_agent/battle_sandbox/state.py: the logical battle state, with the records that it
-- stores (battle_ir/property.py, battle_ir/hp.py, battle_ir/turns.py). A stored dict is the record
-- that its `to_dict` wrote; a composed key string is the record of its parts. The boundary sinks are
-- lists, `none` where the caller gives no sink.
use hsr_battle_agent.Base.{
  Bool, List, Option, Result, String, [], arith, none, ok, property_entry_not_found, raise, some,
  true, type_error, ℕ, ◌&&◌, ◌++◌, ◌↔◌, ◌∷◌, ◌≡◌,
}
use hsr_battle_agent.Base.Action.{Action, gets, lift, modify, pure, throw, ◌>>=◌, ◌>>◌}
use hsr_battle_agent.Base.Dict.{Dict, Eq, insert, int_eq, lookup}
use hsr_battle_agent.Base.Int.{eqb_ℤ, ℤ}
use hsr_battle_agent.Modifier.{ModifierContainer, ModifierRef}
use hsr_battle_agent.Property.{PropertyEntry, create_empty, post_init}
use hsr_battle_agent.Targets.{EntityRef}

-- `property_entry_key`, the parts of its string
pub record PropertyKey : Type 0 where
  pub entity_runtime_id : ℤ
  pub property_id : ℤ

abbrev eqb_key : PropertyKey → PropertyKey → Bool
eqb_key a b = eqb_ℤ a.entity_runtime_id b.entity_runtime_id && eqb_ℤ a.property_id b.property_id

pub eqb_key_iff : (a b : PropertyKey) → (eqb_key a b ≡ true) ↔ (a ≡ b)
eqb_key_iff a b = ground (
  arith,
  int_eq.beq_iff a.entity_runtime_id b.entity_runtime_id,
  int_eq.beq_iff a.property_id b.property_id,
)

instance abbrev pub key_eq : Eq PropertyKey
key_eq = record { beq = eqb_key; beq_iff = eqb_key_iff }

abbrev pub property_entry_key : EntityRef → ℤ → PropertyKey
property_entry_key entity property_id = record {
  entity_runtime_id = entity.runtime_id;
  property_id = property_id;
}

pub record ModifierPropertyContribution : Type 0 where
  pub modifier : ModifierRef
  pub target : EntityRef
  pub property_id : ℤ
  pub source_index : ℕ

pub record LockHpRecord : Type 0 where
  pub action_ref : String
  pub kind : ℤ
  pub value : ℤ

pub data TurnPhase : Type 0 where
  ready active settled : TurnPhase

-- The dict `turn_timeline`; `none` in the state is the empty dict.
pub record TurnTimeline : Type 0 where
  pub action_entity_runtime_ids : List ℤ
  pub current_actor_runtime_id : Option ℤ
  pub elapsed_action_delay_raw : ℤ
  pub turn_index : ℕ
  pub phase : TurnPhase
  pub last_completion_provenance : Option String

pub record BattleState : Type 0 where
  pub extensions : Dict String String
  pub modifier_state_by_entity : Dict ℤ ModifierContainer
  pub entity_property_entries : Dict PropertyKey PropertyEntry
  pub modifier_property_contributions : Dict ModifierRef (List ModifierPropertyContribution)
  pub component_lock_hp_records : Dict ℤ (List LockHpRecord)
  pub turn_timeline : Option TurnTimeline

pub data BoundaryOperation : Type 0 where
  source_allocated source_updated source_removed after_property_changed : BoundaryOperation

pub record PropertyChangeBoundary : Type 0 where
  pub operation : BoundaryOperation
  pub entity : EntityRef
  pub property_id : ℤ
  pub source_index : ℕ
  pub old_materialized : ℤ
  pub new_materialized : ℤ

-- The two calls that `direct_damage_hp_transition` makes on its HP sink.
pub data HpBoundary : Type 0 where
  negative_hp_record : ℤ → HpBoundary
  lock_action : List String → HpBoundary

-- A state with what the sinks have received.
pub record World : Type 0 where
  pub state : BattleState
  pub boundaries : Option (List PropertyChangeBoundary)
  pub hp_boundaries : Option (List HpBoundary)

-- What a sink that keeps every boundary and returns does with one.
unfoldable pub emit_boundary : PropertyChangeBoundary → Action World (Unit {0})
emit_boundary boundary = modify (λ w. record w {
  boundaries = elim w.boundaries [ none ↦ none | some log ↦ some (log ++ boundary ∷ []) ];
})

-- A `boundary_sink` argument. A sink is any callable: it may raise, and it may reach the world.
pub data BoundarySink : Type 0 where
  no_sink : BoundarySink
  not_callable : BoundarySink
  callable : (PropertyChangeBoundary → Action World (Unit {0})) → BoundarySink

-- The sink that the operations have where no other is named.
abbrev pub recording : BoundarySink
recording = callable emit_boundary

-- `_emit_boundary`
unfoldable pub emit_boundary_to : BoundarySink → PropertyChangeBoundary → Action World (Unit {0})
emit_boundary_to no_sink boundary = pure tt
emit_boundary_to not_callable boundary = throw type_error
emit_boundary_to (callable sink) boundary = sink boundary

-- An HP sink that keeps what it receives and returns.
unfoldable pub emit_hp_boundary : HpBoundary → Action World (Unit {0})
emit_hp_boundary boundary = modify (λ w. record w {
  hp_boundaries = elim w.hp_boundaries [ none ↦ none | some log ↦ some (log ++ boundary ∷ []) ];
})

-- An `hp_boundary_sink` argument, which may be any callable too.
pub data HpSink : Type 0 where
  no_hp_sink : HpSink
  hp_not_callable : HpSink
  hp_callable : (HpBoundary → Action World (Unit {0})) → HpSink

abbrev pub recording_hp : HpSink
recording_hp = hp_callable emit_hp_boundary

-- `_emit_hp_boundary`
unfoldable pub emit_hp_boundary_to : HpSink → HpBoundary → Action World (Unit {0})
emit_hp_boundary_to no_hp_sink boundary = pure tt
emit_hp_boundary_to hp_not_callable boundary = throw type_error
emit_hp_boundary_to (hp_callable sink) boundary = sink boundary

-- `_entry_from_state`: a missing key raises, and a stored entry is checked as it is read back.
unfoldable pub entry_from_state : BattleState → EntityRef → ℤ → Result PropertyEntry
entry_from_state state entity property_id =
    elim (lookup (property_entry_key entity property_id) state.entity_property_entries) [
      | none ↦ raise property_entry_not_found
      | some raw ↦ post_init raw
    ]

-- `get_property_entry`
unfoldable pub get_property_entry : BattleState → EntityRef → ℤ → Result (Option PropertyEntry)
get_property_entry state entity property_id =
    elim (lookup (property_entry_key entity property_id) state.entity_property_entries) [
      | none ↦ ok none
      | some raw ↦ elim (post_init raw) [ ok entry ↦ ok (some entry) | raise e ↦ raise e ]
    ]

abbrev pub with_entry : World → EntityRef → ℤ → PropertyEntry → World
with_entry w entity property_id entry = record w {
  state = record w.state {
    entity_property_entries =
        insert (property_entry_key entity property_id) entry w.state.entity_property_entries;
  };
}

-- `_store_entry`
unfoldable pub store_entry : EntityRef → ℤ → PropertyEntry → Action World (Unit {0})
store_entry entity property_id entry = modify (λ w. with_entry w entity property_id entry)

-- `set_property_entry`: the entry that is stored is a clone, checked as it is built.
unfoldable pub set_property_entry : EntityRef → ℤ → PropertyEntry → Action World PropertyEntry
set_property_entry entity property_id entry = do
  stored ← lift (post_init entry)
  store_entry entity property_id stored
  pure stored

-- `ensure_property_entry`
unfoldable pub ensure_property_entry : EntityRef → ℤ → ℕ → ℤ → Action World PropertyEntry
ensure_property_entry entity property_id materialization_kind base_or_fallback = do
  w ← gets (λ w. w)
  existing ← lift (get_property_entry w.state entity property_id)
  elim existing [
    | some entry ↦ pure entry
    | none ↦ do
      created ← lift (create_empty materialization_kind base_or_fallback)
      set_property_entry entity property_id created
  ]
