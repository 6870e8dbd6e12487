-- ===== src/Projection.antt =====
-- projections/: pure folds from seed rows and canonical events.
pub mod Types
pub mod Case
pub mod Customer
pub mod Order
mod Examples
