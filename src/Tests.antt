-- ===== src/Tests.antt =====
-- The examples: each theorem at an input that meets its hypotheses.
pub mod RedisModel
pub mod Gateway
mod Machines
pub mod Policy
pub mod Resolve
pub mod Inbound
mod Interleaving
mod Http
mod Observability
pub mod Surreal
pub mod Keycloak
mod Service
mod Authenticity
