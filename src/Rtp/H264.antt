-- ===== src/Rtp/H264.antt =====
-- H.264 over RTP (RFC 6184): the depacketizer and the packetizer.
pub mod Depacketizer
pub mod Packetizer
