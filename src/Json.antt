-- ===== src/Json.antt =====
-- source/localsend_protocol.c, its JSON reader and writer.
pub mod Cursor
pub mod Scan
pub mod Write
pub mod RoundTrip
pub mod Emit
pub mod Skip
pub mod Bounds
mod Tests
