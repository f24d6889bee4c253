-- ===== src/Conflict.antt =====
-- src/core/conflict: the baseline conflict engine.
pub mod Content
pub mod State
pub mod Fs
pub mod Push
pub mod Records
pub mod Invariant
pub mod Run
pub mod Safety
pub mod Decisions
pub mod Races
pub mod Tombstones
pub mod Isolation
mod Tests
