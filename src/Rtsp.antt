-- ===== src/Rtsp.antt =====
-- Parts of the RTSP transport (nxnet/rtsp).
pub mod WriteSerializer
