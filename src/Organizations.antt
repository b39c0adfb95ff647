-- ===== src/Organizations.antt =====
-- Custom roles and teams of an organization: libs/modules/organizations/src.
pub mod Role
pub mod Roles
pub mod Team
pub mod Teams
pub mod Escalation
pub mod Deletion
mod Tests
