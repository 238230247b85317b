-- ===== src/Authz.antt =====
-- internal/authz: the evaluator, and what its decisions mean.
pub mod Evaluator
pub mod Decision
pub mod Limits
pub mod Failure
mod Tests
