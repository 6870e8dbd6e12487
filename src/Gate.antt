-- ===== src/Gate.antt =====
-- gate/: the operations that mediate policy, persistence and side effects.
pub mod Common
pub mod Effects
pub mod Refund
pub mod Operator
pub mod Verification
pub mod Operations
pub mod Keeps
pub mod Backing
pub mod Payments
mod Examples
pub mod Progress
pub mod Sweep
