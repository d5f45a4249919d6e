-- ===== src/Http.antt =====
-- interfaces/http: the error contract, the dependency that issues a security context, and the
-- middleware that assigns correlation ids.
pub mod ErrorHandlers
pub mod Dependency
pub mod Correlation
