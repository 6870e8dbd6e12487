-- ===== src/Policy.antt =====
-- policy/: pure checks, the ordered evaluation, and single-use authorisations.
pub mod Verdicts
pub mod Checks
pub mod Evaluate
pub mod Authorisation
mod Examples
