-- ===== src/Outbox.antt =====
-- libs/infra/messaging: the transactional outbox and its relay.
pub mod Table
pub mod Relay
pub mod Selection
pub mod Claims
pub mod Dispatch
pub mod Ticks
pub mod Grouping
mod Tests
