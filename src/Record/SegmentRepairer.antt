-- ===== src/Record/SegmentRepairer.antt =====
-- SegmentRepairer (nxcore/record/segment_repairer.cpp, segment_repairer.h) on the bytes of a file, where
-- the file can be opened, read, cut and written. The bit rate, a floating point number, is left out.
pub mod Scanning
pub mod Entries
pub mod Repairing
pub mod Restoring
mod Tests
use libnx.Common.{
  ℕ, zero, suc, ◌+◌, ◌-◌, ◌*◌, ◌==◌, Bool, true, false, not, ◌&&◌, ◌||◌, List, [], ◌∷◌, ◌++◌,
  Option, none, some, length, take, drop, get_or, ltb, leb, if◌then◌else◌, bit_and,
}
use libnx.Rtp.Types.{Bytes}
use libnx.Record.Types.{
  BlockHeader, IndexEntry, encode, has_key_frame, kind_video, kind_audio, kind_userdata,
}
use libnx.Record.Layout.{footer_bytes}
use libnx.Record.Layout.Codec.{le_number}
use libnx.Record.SegmentBuilder.{RecordErrc, invalid_block, file_open_failed}
use libnx.Record.SegmentBuilder.Format.{index_bytes}

pub data FooterStatus : Type 0 where
  footer_valid footer_missing footer_corrupted : FooterStatus

pub record ScanResult : Type 0 where
  pub channel_id : ℕ
  pub start_timestamp : ℕ
  pub end_timestamp : ℕ
  pub block_count : ℕ
  pub valid_end_offset : ℕ
  pub indices : List IndexEntry

pub record RepairResult : Type 0 where
  pub repaired : Bool
  pub channel_id : ℕ
  pub start_timestamp : ℕ
  pub end_timestamp : ℕ
  pub block_count : ℕ
  pub file_size : ℕ
  pub indices : List IndexEntry

-- The number in that many bytes from an offset on.
unfoldable pub number_at : ℕ → ℕ → Bytes → ℕ
number_at offset width bytes = le_number (take width (drop offset bytes))

unfoldable pub check_footer : Bytes → FooterStatus
unfolding number_at
check_footer bytes =
    let at = length bytes - 16 in
    let starts = number_at at 2 bytes == 0xfff3 in
    let ends = number_at (at + 14) 2 bytes == 0xfffe in
    if ltb (length bytes) 36
    then footer_missing
    else if starts && ends
    then footer_valid
    else if starts || ends
    then footer_corrupted
    else footer_missing

-- The type and the codec of the entry at `start`, whose data end at `end`: 0 where they cannot be read.
unfoldable pub extract_entry_info : ℕ → ℕ → Bytes → ℕ × ℕ
extract_entry_info start end bytes =
    let kind = number_at start 1 bytes in
    let header_size = number_at (start + 2) 2 bytes in
    let readable =
      ((kind == kind_video) && leb 20 header_size)
      || (((kind == kind_audio) && leb 23 header_size)
          || ((kind == kind_userdata) && leb 20 header_size)) in
    if ltb (end - start) 12 || ltb (length bytes) (start + 12)
    then (0, 0)
    else (kind, if readable then number_at (start + 12) 1 bytes else 0)

-- The header of the block at that offset, if a whole block with both magic numbers is there.
unfoldable pub block_at : ℕ → Bytes → Option BlockHeader
block_at offset bytes =
    let size = number_at (offset + 8) 4 bytes in
    if ltb (length bytes) (offset + 28)
      || (not (number_at offset 2 bytes == 0xfff1)
          || (ltb size 30
              || (ltb (length bytes) (offset + size)
                  || not (number_at (offset + size - 2) 2 bytes == 0xfffb))))
    then none
    else some (record {
      flags = number_at (offset + 4) 4 bytes;
      length = size;
      start_timestamp = number_at (offset + 12) 8 bytes;
      end_timestamp = number_at (offset + 20) 8 bytes;
    })

-- The index entry of a block with a key frame.
unfoldable pub scanned_index : ℕ → BlockHeader → Bytes → List IndexEntry
scanned_index offset h bytes =
    let (kind, codec) = extract_entry_info (offset + 28) (offset + h.length - 2) bytes in
    if bit_and h.flags has_key_frame == 0
    then []
    else record {
      flags = encode h.flags kind codec;
      timestamp = h.start_timestamp;
      offset = offset;
    }
      ∷ []

abbrev pub add_block : ℕ → BlockHeader → Bytes → ScanResult → ScanResult
add_block offset h bytes r = record {
  channel_id = r.channel_id;
  start_timestamp = if r.block_count == 0 then h.start_timestamp else r.start_timestamp;
  end_timestamp = h.end_timestamp;
  block_count = r.block_count + 1;
  valid_end_offset = offset + h.length;
  indices = r.indices ++ scanned_index offset h bytes;
}

-- The loop over the blocks. A block takes 30 bytes at least, so that the size of the file is fuel enough.
unfoldable pub scan_loop : ℕ → ℕ → Bytes → ScanResult → ScanResult
scan_loop zero offset bytes r = r
scan_loop (suc fuel) offset bytes r = elim (block_at offset bytes) [
  | none ↦ r
  | some h ↦ scan_loop fuel (offset + h.length) bytes (add_block offset h bytes r)
]

pub data Scan : Type 0 where
  scanned : ScanResult → Scan
  scan_failed : RecordErrc → Scan

unfoldable pub scan_blocks : Bytes → Scan
scan_blocks bytes =
    let start : ScanResult = record {
      channel_id = number_at 8 8 bytes;
      start_timestamp = 0;
      end_timestamp = 0;
      block_count = 0;
      valid_end_offset = 0;
      indices = [];
    } in
    if ltb (length bytes) 20
    then scan_failed file_open_failed
    else if not (number_at 0 2 bytes == 0xfff0)
    then scan_failed invalid_block
    else scanned (scan_loop (length bytes) (20 + number_at 16 4 bytes) bytes start)

-- The file cut to `truncate_offset` bytes where it is longer, with the index and the footer behind.
unfoldable pub write_footer_at : ℕ → List IndexEntry → Bytes → Bytes
write_footer_at truncate_offset indices bytes =
    (if ltb truncate_offset (length bytes) then take truncate_offset bytes else bytes)
    ++ (index_bytes indices ++ footer_bytes (length indices))

pub data Repair : Type 0 where
  repair : RepairResult → Repair
  repair_failed : RecordErrc → Repair

abbrev pub unrepaired : RepairResult
unrepaired = record {
  repaired = false;
  channel_id = 0;
  start_timestamp = 0;
  end_timestamp = 0;
  block_count = 0;
  file_size = 0;
  indices = [];
}

-- What follows the scan.
unfoldable pub repair_scanned : Scan → Bytes → Repair × Bytes
repair_scanned (scan_failed e) bytes = (repair_failed e, bytes)
repair_scanned (scanned r) bytes =
    if r.block_count == 0 then (repair_failed invalid_block, bytes) else (
      repair (record {
        repaired = true;
        channel_id = r.channel_id;
        start_timestamp = r.start_timestamp;
        end_timestamp = r.end_timestamp;
        block_count = r.block_count;
        file_size = r.valid_end_offset + 22 * length r.indices + 16;
        indices = r.indices;
      }),
      write_footer_at r.valid_end_offset r.indices bytes,
    )

-- The result and the bytes of the file after it.
unfoldable pub repair_segment : Bytes → Repair × Bytes
repair_segment bytes = elim (check_footer bytes) [
  | footer_valid ↦ (repair unrepaired, bytes)
  | footer_missing ↦ repair_scanned (scan_blocks bytes) bytes
  | footer_corrupted ↦ repair_scanned (scan_blocks bytes) bytes
]
