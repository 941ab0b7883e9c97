-- ===== src/Tests.antt =====
-- Concrete runs of the theorems.
pub mod Numbers
pub mod Entries
pub mod Calls
pub mod Turns
pub mod Health
pub mod Modifiers
pub mod Values
pub mod Sandbox
pub mod Tasks
pub mod Healing
