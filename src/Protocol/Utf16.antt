-- ===== src/Protocol/Utf16.antt =====
-- The conversions of unicode/utf16 that the codec uses, over runes.
mod RoundTrip
pub use RoundTrip.{IsRune, utf16_decode-utf16_encode}
mod Defs
unfoldable pub use Defs.{utf16_encode, utf16_decode}
pub use Defs.{utf16_encode-IsUnit, IsUnit}
