-- ===== src/Scheduler.antt =====
-- The tasks of apps/scheduler/src/app/tasks that reclaim stored files.
pub mod Files
pub mod Cleanup
pub mod Pointers
pub mod Reclaim
pub mod Tasks
mod Tests
