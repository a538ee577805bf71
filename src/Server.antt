-- ===== src/Server.antt =====
-- Package pkg/server: the admin HTTP server over its store.
pub mod Meta
pub mod Sql
pub mod Store
pub mod Clauses
pub mod Scope
pub mod Records
pub mod Atomic
pub mod Written
pub mod Request
pub mod Handler
pub mod Guard
pub mod Setup
mod Tests
