-- ===== src/Util.antt =====
-- Utilities of the core library (nxcore/util).
pub mod BitReader
pub mod TimerWheel
