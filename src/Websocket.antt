-- ===== src/Websocket.antt =====
-- apps/api/src/websocket: the limiter that bounds how many session checks run at once.
pub mod Limiter
pub mod Slots
mod Tests
