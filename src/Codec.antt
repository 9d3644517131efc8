-- ===== src/Codec.antt =====
-- The parsers of coded media (nxmedia/codec).
pub mod Jpeg
pub mod NalUnits
pub mod Reading
pub mod H264
pub mod H265
