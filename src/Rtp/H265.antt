-- ===== src/Rtp/H265.antt =====
-- H.265 over RTP (RFC 7798): the depacketizer.
pub mod Depacketizer
