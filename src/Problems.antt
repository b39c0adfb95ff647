-- ===== src/Problems.antt =====
-- From an exception to the answer: apps/api/src/common/filters.
pub mod Details
pub mod Exceptions
pub mod Normalize
pub mod Hook
pub mod Masking
mod Tests
