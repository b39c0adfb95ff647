-- ===== src/Authorization.antt =====
-- The permission catalogue, the access policy, the adapters that resolve a principal's grant and the
-- guard that asks them: libs/shared/src/lib/permissions.ts and libs/infra/authorization/src/lib.
pub mod Permissions
pub mod Policy
pub mod Adapter
pub mod Guard
pub mod Decisions
pub mod Filters
pub mod Grants
pub mod Statements
pub mod Activation
mod Tests
