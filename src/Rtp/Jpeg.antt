-- ===== src/Rtp/Jpeg.antt =====
-- JPEG over RTP (RFC 2435): the depacketizer, which makes JPEG files again, and its tables.
pub mod Tables
pub mod Writing
pub mod Depacketizer
pub mod Size
pub mod Fragments
pub mod Delivery
mod Tests
