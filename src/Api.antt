-- ===== src/Api.antt =====
-- api/routes.py: the routes over the gate and the agent loop.
pub mod Keeps
pub mod Queue
pub mod Routes
pub mod Server
pub mod Log
pub mod Seeded
pub mod Refunds
pub mod Payments
pub mod Closed
mod Examples
