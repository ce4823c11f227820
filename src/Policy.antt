-- ===== src/Policy.antt =====
-- src/policy: the globs, the scope of a task and the lane of a change.
mod Tests
pub mod Glob
pub mod Scope
pub mod Dag
