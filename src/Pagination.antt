-- ===== src/Pagination.antt =====
-- Cursor pagination: libs/shared/src/lib/cursor-pagination.ts.

pub mod Keyset
pub mod Order
pub mod Pages
pub mod Memory
mod Tests
