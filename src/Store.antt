-- ===== src/Store.antt =====
-- domain/tables.py, repositories/ and adapters/: the rows, the state that a session and the mock
-- adapters keep, and the queries and guarded writes on it.
pub mod Names
pub mod Rows
pub mod Session
pub mod Queries
pub mod Append
pub mod Seed
pub mod Transitions
pub mod Intent
pub mod Adapters
pub mod Keeps
pub mod Delivers
pub mod Returns
