-- ===== src/Protocol.antt =====
-- internal/protocol: the message catalog and the codec between messages and body bytes.
pub mod Samples
mod Tests
pub mod Catalog
pub mod Value
pub mod Utf16
pub mod Primitives
pub mod Codec
pub mod Zero
pub mod Messages
