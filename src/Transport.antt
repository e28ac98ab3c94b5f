-- ===== src/Transport.antt =====
-- internal/transport: the wire layer below the messages.
pub mod Rabbit
pub mod Session
pub mod Handshake
pub mod Wire
mod Tests
