-- ===== src/Sandbox.antt =====
-- src/hsr_battle_agent/battle_sandbox: the stored form of a battle, its copies and its executor.
pub mod StoredState
pub mod Trace
pub mod Primitive
pub mod Rng
pub mod Registry
pub mod Executor
pub mod Snapshot
