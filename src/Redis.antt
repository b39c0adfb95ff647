-- ===== src/Redis.antt =====
-- libs/infra/redis: the lease by which one replica leads.
pub mod Lease
pub mod Soundness
pub mod Election
mod Tests
