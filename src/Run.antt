-- ===== src/Run.antt =====
-- src/run/state.ts: the state of a spec execution, its transitions, its journal and its next steps.
pub mod State
pub mod Target
pub mod Schema
pub mod Check
pub mod Set
pub mod Pause
pub mod Journal
pub mod Invariant
pub mod Waves
pub mod Create
pub mod Readiness
pub mod Next
mod Tests
