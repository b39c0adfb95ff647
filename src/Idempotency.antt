-- ===== src/Idempotency.antt =====
-- apps/api/src/common/idempotency: one execution for all the requests that share an Idempotency-Key.
pub mod Store
pub mod Plugin
pub mod History
pub mod Soundness
pub mod Ownership
pub mod Execution
pub mod Replay
mod Tests
