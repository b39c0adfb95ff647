-- ===== src/Storage.antt =====
-- The local storage driver: libs/infra/storage/src/lib/local-storage.adapter.ts.
pub mod Paths
pub mod Places
pub mod Signing
pub mod Decimals
pub mod Payloads
pub mod Disk
pub mod Local
pub mod Adapter
pub mod Files
pub mod Calls
pub mod Temps
pub mod Rescue
pub mod Finalize
pub mod Writes
pub mod Commits
pub mod Stores
pub mod Forms
pub mod Authority
pub mod Presigned
pub mod Reading
mod Tests
