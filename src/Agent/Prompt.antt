-- ===== src/Agent/Prompt.antt =====
-- agent/prompt.py: what the model is shown of a case, as structured state and as bounded history.
pub mod Untrusted
pub mod State
pub mod Memory
pub mod Build
