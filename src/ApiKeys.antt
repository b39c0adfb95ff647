-- ===== src/ApiKeys.antt =====
-- Machine credentials: libs/modules/api-keys and the guard of libs/infra/auth that accepts them.
pub mod Entity
pub mod Handlers
pub mod KeyGuard
pub mod Issue
pub mod Scopes
pub mod Revocation
mod Tests
