-- ===== src/Record.antt =====
-- The recorder (nxcore/record).
pub mod Types
pub mod Layout
pub mod IndexFlags
pub mod BlockBuilder
pub mod FileStream
pub mod SegmentBuilder
pub mod SegmentRepairer
pub mod SegmentReader
pub mod Scheduler
