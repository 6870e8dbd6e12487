-- ===== src/Domain.antt =====
-- domain/: enumerations, payloads and the canonical event catalogue.
pub mod Enums
pub mod Decimal
pub mod Texts
pub mod Spelling
pub mod Payload
pub mod Result
pub mod Events
mod Examples
