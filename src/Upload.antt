-- ===== src/Upload.antt =====
-- libs/modules/upload: the life of a stored file, from confirmation over verification to deletion.
pub mod StoredFile
pub mod Repository
pub mod Ports
pub mod Publication
pub mod Confirm
pub mod Verify
pub mod Writes
pub mod Access
pub mod Lifecycle
pub mod Transitions
pub mod Jobs
pub mod Outcomes
pub mod Verification
pub mod Deletion
mod Tests
