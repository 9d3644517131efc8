-- ===== src/Record/SegmentReader.antt =====
-- SegmentReader (nxcore/record/segment_reader.cpp, segment_reader.h) on the bytes of a file that can be
-- opened and read; a read gives what is left of the file. `std::upper_bound` is the parameter
-- `upper_bound` of `seek_to_time`, with the index that it returns. `overrun` is a read that leaves the
-- struct on the stack which it fills.
pub mod Entries
pub mod Fields
pub mod Blocks
pub mod Walking
pub mod Segment
mod Tests
use libnx.Common.{
  ℕ, zero, suc, ◌+◌, ◌-◌, ◌*◌, ◌==◌, Bool, true, false, not, ◌&&◌, ◌||◌, List, [], ◌∷◌, ◌++◌,
  Option, none, some, length, take, drop, get_or, get_last_or, ltb, leb, if◌then◌else◌,
}
use libnx.Rtp.Types.{Bytes}
use libnx.Rtp.Extension.{is_empty}
use libnx.Record.Types.{
  BlockHeader, IndexEntry, SegmentHeader, kind_video, kind_audio, kind_userdata, i_frame,
}
use libnx.Record.SegmentRepairer.{number_at}

pub data SegmentReaderErrc : Type 0 where
  file_not_found file_corrupted invalid_segment_header : SegmentReaderErrc
  invalid_block_header invalid_entry_header unexpected_eof : SegmentReaderErrc
  end_of_segment read_error seek_failed footer_parse_error : SegmentReaderErrc

pub record SegmentPosition : Type 0 where
  pub block_offset : ℕ
  pub entry_index : ℕ
  pub timestamp : ℕ

pub record ReadFrameResult : Type 0 where
  pub kind : ℕ
  pub timestamp : ℕ
  pub is_keyframe : Bool
  pub video_codec : ℕ
  pub frame_type : ℕ
  pub audio_codec : ℕ
  pub sample_rate : ℕ
  pub channels : ℕ
  pub payload : Bytes

pub data Outcome {ℓ} (A : Type ℓ) : Type ℓ where
  value : A → Outcome A
  error : SegmentReaderErrc → Outcome A
  overrun : Outcome A

pub record SegmentReader : Type 0 where
  pub content : Bytes
  pub pos : ℕ
  pub segment_header : SegmentHeader
  pub is_open : Bool
  pub footer_indices : List IndexEntry
  pub footer_loaded : Bool
  pub position : SegmentPosition
  pub current_block_header : BlockHeader
  pub entries_read_in_block : ℕ
  pub block_data_end_offset : ℕ
  pub need_new_block : Bool

-- `FileStream::read`: the bytes, and the stream behind them.
abbrev pub bytes_read : ℕ → SegmentReader → Bytes
bytes_read size s = take size (drop s.pos s.content)

unfoldable pub read : ℕ → SegmentReader → Bytes × SegmentReader
read size s = (bytes_read size s, record s { pos = s.pos + length (bytes_read size s) })

abbrev pub seek : ℕ → SegmentReader → SegmentReader
seek pos s = record s { pos = pos }

abbrev pub no_position : SegmentPosition
no_position = record { block_offset = 0; entry_index = 0; timestamp = 0 }

abbrev pub no_block : BlockHeader
no_block = record { flags = 0; length = 0; start_timestamp = 0; end_timestamp = 0 }

abbrev pub no_frame : ℕ → ℕ → ReadFrameResult
no_frame kind timestamp = record {
  kind = kind;
  timestamp = timestamp;
  is_keyframe = false;
  video_codec = 0;
  frame_type = 0;
  audio_codec = 0;
  sample_rate = 0;
  channels = 0;
  payload = [];
}

unfoldable pub close : SegmentReader → SegmentReader
close s = record s {
  segment_header = record { version = 0; channel_id = 0; extension_header_size = 0 };
  is_open = false;
  footer_indices = [];
  footer_loaded = false;
  position = no_position;
  current_block_header = no_block;
  entries_read_in_block = 0;
  block_data_end_offset = 0;
  need_new_block = true;
}

unfoldable pub index_entries_at : ℕ → ℕ → Bytes → List IndexEntry
index_entries_at zero offset bytes = []
index_entries_at (suc count) offset bytes =
    record {
      flags = number_at (offset + 2) 4 bytes;
      timestamp = number_at (offset + 6) 8 bytes;
      offset = number_at (offset + 14) 8 bytes;
    }
    ∷ index_entries_at count (offset + 22) bytes

-- The stream is where it was afterwards. The file has the size of a segment header at least.
unfoldable pub parse_footer : SegmentReader → Option SegmentReaderErrc × SegmentReader
parse_footer s =
    let at = length s.content - 16 in
    let count = number_at (at + 4) 4 s.content in
    let first = at - 22 * count in
    if not (number_at at 2 s.content == 0xfff3)
    then (none, s)
    else if count == 0
    then (none, record s { footer_indices = []; footer_loaded = true })
    else if ltb at (22 * count)
    then (some footer_parse_error, s)
    else if not (number_at first 2 s.content == 0xfff2)
    then (some footer_parse_error, record s { footer_indices = [] })
    else (
      none,
      record s { footer_indices = index_entries_at count first s.content; footer_loaded = true },
    )

unfoldable pub load_footer_index : SegmentReader → Option SegmentReaderErrc × SegmentReader
load_footer_index s = if not s.is_open then (some read_error, s) else parse_footer s

-- `open` of a file with that content.
unfoldable pub open_file : Bytes → SegmentReader → Option SegmentReaderErrc × SegmentReader
open_file content s =
    let s1 : SegmentReader = if s.is_open then close s else s in
    let opened : SegmentReader = record s1 { content = content; pos = 0 } in
    let header : SegmentHeader = record {
      version = number_at 4 4 content;
      channel_id = number_at 8 8 content;
      extension_header_size = number_at 16 4 content;
    } in
    let ready : SegmentReader = record opened {
      pos = 20 + header.extension_header_size;
      segment_header = header;
      is_open = true;
      need_new_block = true;
      entries_read_in_block = 0;
      position = no_position;
    } in
    if ltb (length content) 20
    then (some unexpected_eof, close opened)
    else if not (number_at 0 2 content == 0xfff0)
    then (some invalid_segment_header, close opened)
    else (none, (load_footer_index ready).1)

unfoldable pub read_block_header : SegmentReader → Outcome BlockHeader × SegmentReader
read_block_header s =
    let (bytes, s1) = read 28 s in
    if ltb (length bytes) 28
    then (error unexpected_eof, s1)
    else if not (number_at 0 2 bytes == 0xfff1)
    then (error end_of_segment, s1)
    else (
      value (record {
        flags = number_at 4 4 bytes;
        length = number_at 8 4 bytes;
        start_timestamp = number_at 12 8 bytes;
        end_timestamp = number_at 20 8 bytes;
      }),
      record s1 { position = record (s1.position) { block_offset = s.pos } },
    )

-- The payload of an entry whose other fields have been read.
unfoldable pub read_payload :
    ℕ → ReadFrameResult → SegmentReader → Outcome ReadFrameResult × SegmentReader
read_payload size r s =
    let (bytes, s1) = read size s in
    if size == 0
    then (value r, s)
    else if not (length bytes == size)
    then (error unexpected_eof, s1)
    else (value (record r { payload = bytes }), s1)

-- The fields of the derived entry from its bytes behind the base entry, and the size of the payload. A
-- byte that is not there is 0, as in the struct.
abbrev pub video_result : ReadFrameResult → Bytes → ReadFrameResult
video_result r extra = record r {
  is_keyframe = number_at 1 1 extra == i_frame;
  video_codec = number_at 0 1 extra;
  frame_type = number_at 1 1 extra;
}

abbrev pub audio_result : ReadFrameResult → Bytes → ReadFrameResult
audio_result r extra = record r {
  audio_codec = number_at 0 1 extra;
  sample_rate = number_at 3 4 extra;
  channels = number_at 1 1 extra;
}

-- The rest of the header is read into the bytes of a struct of which `room` are left.
unfoldable pub read_derived :
    ℕ → ℕ → (Bytes → ReadFrameResult) → ℕ → SegmentReader → Outcome ReadFrameResult × SegmentReader
read_derived remaining room result size_at s =
    let (extra, s1) = read remaining s in
    if ltb room (length extra)
    then (overrun, s1)
    else if not (length extra == remaining)
    then (error unexpected_eof, s1)
    else read_payload (number_at size_at 4 extra) (result extra) s1

-- What follows the 12 bytes of the base entry.
unfoldable pub read_entry_rest : ℕ → ℕ → ℕ → SegmentReader → Outcome ReadFrameResult × SegmentReader
read_entry_rest kind header_size timestamp s =
    let r = no_frame kind timestamp in
    let remaining = header_size - 12 in
    if ltb header_size 12
    then (error invalid_entry_header, s)
    else if kind == kind_video
    then read_derived remaining 8 (video_result r) 4 s
    else if kind == kind_audio
    then read_derived remaining 11 (audio_result r) 7 s
    else if kind == kind_userdata
    then read_derived remaining 8 (λ extra. r) 4 s
    else (error invalid_entry_header, seek (s.pos + remaining) s)

unfoldable pub read_entry_from_block : SegmentReader → Outcome ReadFrameResult × SegmentReader
read_entry_from_block s =
    let (base, s1) = read 12 s in
    if ltb (length base) 12
    then (error unexpected_eof, s1)
    else read_entry_rest (number_at 0 1 base) (number_at 2 2 base) (number_at 4 8 base) s1

-- The entry at the position, counted.
abbrev pub entry_done :
    Outcome ReadFrameResult × SegmentReader → Outcome ReadFrameResult × SegmentReader
entry_done (value r, s) = (
  value r,
  record s {
    entries_read_in_block = s.entries_read_in_block + 1;
    position = record (s.position) {
      entry_index = s.entries_read_in_block + 1;
      timestamp = r.timestamp;
    };
  },
)
entry_done (error e, s) = (error e, s)
entry_done (overrun, s) = (overrun, s)

-- The state in which the entries of a new block are read.
abbrev pub enter_block : BlockHeader → SegmentReader → SegmentReader
enter_block h s = record s {
  current_block_header = h;
  entries_read_in_block = 0;
  need_new_block = false;
  block_data_end_offset = s.position.block_offset + h.length - 2;
}

-- The loop. A round that does not end it comes before one that reads the header of a block, 28 bytes, or
-- ends it.
unfoldable pub read_loop : ℕ → SegmentReader → Outcome ReadFrameResult × SegmentReader
read_loop zero s = (error read_error, s)
read_loop (suc fuel) s =
    let inside : SegmentReader → Outcome ReadFrameResult × SegmentReader = λ s1.
      if leb s1.block_data_end_offset s1.pos
      then read_loop fuel (record ((read 2 s1).1) { need_new_block = true })
      else entry_done (read_entry_from_block s1) in
    if s.need_new_block
    then elim (read_block_header s).0 [
      | value h ↦ inside (enter_block h (read_block_header s).1)
      | error e ↦ (error e, (read_block_header s).1)
      | overrun ↦ (overrun, (read_block_header s).1)
    ]
    else inside s

unfoldable pub read_next_entry : SegmentReader → Outcome ReadFrameResult × SegmentReader
read_next_entry s =
    if not s.is_open then (error read_error, s) else read_loop (length s.content + 2) s

unfoldable pub seek_to_offset : ℕ → SegmentReader → Option SegmentReaderErrc × SegmentReader
seek_to_offset offset s = if not s.is_open then (some read_error, s) else (
  none,
  record (seek offset s) {
    position = record (s.position) { block_offset = offset; entry_index = 0 };
    entries_read_in_block = 0;
    need_new_block = true;
  },
)

module _ (upper_bound : ℕ → List IndexEntry → ℕ) where
  unfoldable pub seek_to_time : ℕ → SegmentReader → Option SegmentReaderErrc × SegmentReader
  seek_to_time target_time s =
      let none_found : IndexEntry = record { flags = 0; timestamp = 0; offset = 0 } in
      let it = upper_bound target_time s.footer_indices in
      if not s.is_open
      then (some read_error, s)
      else if not s.footer_loaded || is_empty s.footer_indices
      then (some seek_failed, s)
      else seek_to_offset (get_or s.footer_indices (it - 1) none_found).offset s

unfoldable pub start_time : SegmentReader → ℕ
start_time s = elim s.footer_indices [
  | [] ↦ 0
  | e ∷ es ↦ if not s.footer_loaded then 0 else e.timestamp
]

unfoldable pub end_time : SegmentReader → ℕ
end_time s = elim s.footer_indices [
  | [] ↦ 0
  | e ∷ es ↦ if not s.footer_loaded then 0 else (get_last_or es e).timestamp
]
