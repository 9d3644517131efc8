-- ===== src/Rtp.antt =====
-- The RTP transport (nxnet/rtp): packets, header extensions, packetizers, depacketizer, receiver.
pub mod Types
pub mod Packet
pub mod Extension
pub mod FrameBuffer
pub mod Packetizer
pub mod Samples
pub mod Depacketizer
pub mod H264
pub mod H265
pub mod Jpeg
pub mod Receiver
