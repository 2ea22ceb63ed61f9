-- ===== src/Engine.antt =====
-- Parts of src/tcpkali_engine.c.
pub mod Fields
pub mod Marker
pub mod Channel
pub mod Addresses
mod Tests
