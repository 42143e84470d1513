-- ===== src/Realtime.antt =====
-- internal/realtime: the gateway of the websocket connections, and what is answered over them.
pub mod Router
pub mod Numbering
mod Rising
mod Explaining
pub mod Gateway
mod Tests
