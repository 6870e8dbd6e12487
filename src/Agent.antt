-- ===== src/Agent.antt =====
-- agent/: the model boundary and the resumable loop of one case.
mod Examples
pub mod Boundary
pub mod Prompt
pub mod Models
pub mod Gateway
pub mod Serialization
pub mod Loop
