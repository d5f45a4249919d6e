-- ===== src/Surreal.antt =====
-- infrastructure/persistence/surrealdb: the client and the repository of memberships.
pub mod Client
pub mod Rows
pub mod Repository
