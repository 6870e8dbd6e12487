-- ===== src/Worker.antt =====
-- worker/saferefund_model_worker/: the isolated process that runs the heuristic model.
mod Examples
pub mod Heuristic
pub mod Agreement
pub mod Protocol
pub mod Main
