-- ===== src/Game.antt =====
-- internal/game: one connection's way through the protocol.
pub mod Session
pub mod Samples
mod Tests
pub mod Lobby
pub mod Enter
pub mod Handler
