-- ===== src/Lib.antt =====
-- The battle core of hsr_battle_agent: the deterministic runtime that replays a turn-based battle on a
-- plain logical state. Every operation reads the state, raises on what it does not support, and tells
-- boundary sinks what it changed.
--
-- The parts and their files:
--   FixPoint: src/hsr_battle_agent/battle_runtime/predicates.py, the comparisons of raw fixed-point
--     words (_fixpoint_compare and the operators over it). FixPoint/Arith is the arithmetic of
--     battle_runtime/property.py (fixedpoint_add, fixedpoint_subtract, fixedpoint_multiply,
--     apply_modify_function).
--   Targets: battle_ir/targets.py and battle_runtime/targets.py, entity references and selectors.
--   Property: the PropertyEntry of battle_ir/property.py with the materializer and the slot writers of
--     battle_runtime/property.py (_materialize_by_kind, allocate_source_slot, update_source_slot,
--     remove_source_slot).
--   State: BattleState of battle_sandbox/state.py, with the records it stores, and the readers and
--     writers of one entry (_entry_from_state, _store_entry, ensure_property_entry).
--   Component: the operations of battle_runtime/property.py on stored entries (component_stack_source,
--     update_contribution_source, remove_contribution_source, modify_source_zero_untransformed), and
--     in Component/Contributions those that a modifier owns (stack_property_contribution,
--     pop_property_contributions, stack_property_execute).
--   Modifier: battle_ir/modifiers.py, instances and containers; Modifier/Match and Modifier/Lifecycle
--     are battle_runtime/modifiers.py (modifier_match_search, apply_modifier_instance,
--     destroy_modifier_instance, remove_dirty_modifiers, try_add_modifier_instance).
--   Hp: battle_runtime/hp.py with battle_ir/hp.py (try_get_lock_hp, direct_damage_hp_transition,
--     direct_change_hp_mode1_negative).
--   Turn: battle_runtime/turns.py with battle_ir/turns.py (initialize_turn_timeline,
--     advance_to_next_actor, acknowledge_action_completion); Turn/Runs puts the last two in turns.
--   Values: battle_ir/values.py and battle_runtime/values.py, the DynamicValue cells with their check,
--     their equality (dynamic_value_equals) and their coercions; Values/Float32 is the coercion to a
--     float of 32 bits (_int64_to_float32, _as_float32).
--   Healing: battle_ir/healing.py, the values at the boundary of a real skill; Healing/Skill is
--     battle_runtime/healing.py (heal_formula_type4_ordinary, execute_natasha_skill02_boundary).
--   Task: battle_ir/actions.py and battle_runtime/actions.py, a task executor and its leaves.
--   Json: validate_json_value and deep_copy_json_value of battle_sandbox/state.py.
--   Sandbox: the other files of battle_sandbox. StoredState is BattleState as the JSON dicts that it
--     stores (to_dict, from_dict with the older schema versions, clone, the extensions); Rng is
--     rng.py; Trace is trace.py; Primitive is the spec, the call and the result of
--     battle_ir/model.py; Registry is registry.py; Executor is executor.py; Snapshot is snapshot.py
--     with context.py and the reset of sandbox.py.
--   Base: Python's integers, floats, strings, lists, dicts and exceptions; Tests: concrete runs.
-- Turn and Hp write through Property and Component; all of them, and Healing, which only reads, keep
-- their data in State. The executor runs any operation between two events of the trace; a snapshot
-- holds the stored state, the generator and the trace.
--
-- A Python object that a function changes is the state of an action, Base/Action: the state that comes
-- back after a raise holds what was written before it. A world is a battle state with what the sinks
-- received. A sink is any callable, so it may raise and reach the world: the source operations of
-- Component and the transitions of Hp take it as an argument (the names that end in _to), and the
-- names without it have sinks that keep what they receive and return. Component/Contributions and Turn
-- run with those sinks. Exceptions are values without their messages. Integers are unbounded, and the masks and
-- shifts on qwords are written out. A composed key string is the record of its parts, and a stored
-- dict is the record that its to_dict wrote; the type checks of a constructor are those of the model's
-- types, its range checks are definitions. Python's stable list.sort is an insertion sort.
--
-- A float is a sign and a whole number of units of 2^-1074; a string of the sandbox, of a cell or of a
-- skill is its code points.
--
-- Parameters, for code that is not in the repository or that depends on the class of a value:
-- random.Random (its states and draws, with the law that setstate gives a state back), Python's str and int of
-- other values in the reading of a trace, the table of implementations that a registry binds, and what
-- the trace says of a value.
--
-- Loops are structural recursion on lists or on the index that the loop counts down. The one fuel is
-- that of int.bit_length, which is the number itself: each round halves it.
--
-- Not modelled: the JSON projections of entries, containers and timelines and the trace texts of each
-- class; opaque context tokens, which no operation reads; the hash of the state, which is a digest by
-- hashlib; the methods of the sandbox that raise
-- StubNotImplementedError; the texts that only describe a primitive; and the offline tools of game_data,
-- tools and scripts.
pub mod Base
pub mod FixPoint
pub mod Targets
pub mod Property
pub mod Modifier
pub mod State
pub mod Component
pub mod Hp
pub mod Turn
pub mod Json
pub mod Sandbox
pub mod Values
pub mod Task
pub mod Healing
pub mod Tests
