-- ===== src/Record/SegmentBuilder.antt =====
-- SegmentBuilder (nxcore/record/segment_builder.cpp, segment_builder.h), with the virtual methods of its
-- options as the fields of `Options`. Paths are byte strings; `has_parent` is the test of `fs::path` for
-- a directory in front. The calls of `on_segment_finished` and `on_segment_file_conflict` are listed;
-- `on_sync_performed` and the bit rate, a floating point number, are left out. An error code is `none`
-- where there is no error.
pub mod Format
pub mod Closing
pub mod Writing
pub mod Creating
pub mod Appending
pub mod Faults
mod Tests
use libnx.Common.{
  ℕ, zero, suc, ◌+◌, ◌-◌, ◌*◌, ◌%◌, ◌^◌, ◌==◌, Bool, true, false, not, ◌&&◌, ◌||◌, List, [], ◌∷◌,
  ◌++◌, Option, none, some, length, leb, if◌then◌else◌, bit_and,
}
use libnx.Rtp.Types.{Bytes}
use libnx.Rtp.Extension.{is_empty}
use libnx.Record.Types.{
  EntryFields, video, audio, userdata, BlockEntry, BlockHeader, DataBlock, IndexEntry,
  SegmentHeader, entry_kind, has_key_frame, encode,
}
use libnx.Record.Layout.{
  index_entry_bytes, segment_header_bytes, footer_bytes, size_of_index_entry,
  size_of_segment_header, size_of_footer_header,
}
use libnx.Record.FileStream.{
  FileStream, is_open, exists, open_truncate, close, write, write_struct, tell, flush, next_call,
}

pub data RecordErrc : Type 0 where
  success invalid_block empty_block invalid_timestamp : RecordErrc
  file_open_failed file_write_failed file_sync_failed : RecordErrc
  directory_create_failed file_already_exists : RecordErrc
  no_space_on_device permission_denied read_only_filesystem : RecordErrc
  segment_not_open segment_rotation_failed header_write_failed footer_write_failed : RecordErrc
  internal_error : RecordErrc

pub data DataSyncLevel : Type 0 where
  sync_none sync_normal sync_full : DataSyncLevel

pub record Context : Type 0 where
  pub start_timestamp : ℕ
  pub end_timestamp : ℕ
  pub block_count : ℕ
  pub file_size : ℕ

abbrev pub cleared_context : Context
cleared_context = record { start_timestamp = 0; end_timestamp = 0; block_count = 0; file_size = 0 }

pub record Options : Type 0 where
  pub make_segment_path : ℕ → ℕ → Bytes
  pub create_segment_header : SegmentHeader
  pub should_finish_segment : Context → Bool
  pub data_sync_level : DataSyncLevel
  pub sync_blocks : ℕ
  pub get_next_sequence : Context → ℕ

-- The arguments of a call of `on_segment_finished`.
pub record Finished : Type 0 where
  pub path : Bytes
  pub ctx : Context
  pub indices : List IndexEntry

pub record SegmentBuilder : Type 0 where
  pub file : FileStream
  pub current_path : Bytes
  pub ctx : Context
  pub current_sequence : ℕ
  pub index_entries : List IndexEntry
  pub unflushed_blocks : ℕ
  pub finished : List Finished
  pub conflicts : List (Bytes × ℕ × ℕ)

unfoldable pub construct : FileStream → SegmentBuilder
construct file = record {
  file = file;
  current_path = [];
  ctx = cleared_context;
  current_sequence = 0;
  index_entries = [];
  unflushed_blocks = 0;
  finished = [];
  conflicts = [];
}

-- The number of bytes that `write_block` returns, or the error.
pub data WriteResult : Type 0 where
  wrote : ℕ → WriteResult
  failed : RecordErrc → WriteResult

abbrev pub on_file : (FileStream → Bool × FileStream) → SegmentBuilder → Bool × SegmentBuilder
on_file f s = let (ok, file) = f s.file in (ok, record s { file = file })

abbrev pub codec_of : EntryFields → ℕ
codec_of (video f) = f.codec_type
codec_of (audio f) = f.codec_type
codec_of (userdata f) = f.data_type

-- The flags of the index entry of a block: those of its header and the kind and codec of its first entry.
unfoldable pub index_flags : BlockHeader → List BlockEntry → ℕ
index_flags h [] = encode h.flags 0 0
index_flags h (e ∷ es) = encode h.flags (entry_kind e.fields) (codec_of e.fields)

-- The index entry of a block at that offset, if it has a key frame.
unfoldable pub index_of : ℕ → BlockHeader → List BlockEntry → List IndexEntry
index_of offset h es =
    if bit_and h.flags has_key_frame == 0
    then []
    else record { flags = index_flags h es; timestamp = h.start_timestamp; offset = offset } ∷ []

unfoldable pub write_entries : List IndexEntry → SegmentBuilder → Bool × SegmentBuilder
write_entries [] s = (true, s)
write_entries (e ∷ es) s =
    let (ok, s1) = on_file (write_struct (index_entry_bytes e)) s in
    let rest = write_entries es s1 in if ok then rest else (false, s1)

abbrev pub add_file_size : ℕ → SegmentBuilder → SegmentBuilder
add_file_size n s = record s { ctx = record (s.ctx) { file_size = s.ctx.file_size + n } }

unfoldable pub write_segment_footer : SegmentBuilder → Option RecordErrc × SegmentBuilder
write_segment_footer s =
    if not (is_open s.file)
    then (some segment_not_open, s)
    else let count = length s.index_entries in
      let (entries_ok, s1) = write_entries s.index_entries s in
      if not entries_ok
      then (some footer_write_failed, s1)
      else let s2 = add_file_size (size_of_index_entry * count) s1 in
        let (ok, s3) = on_file (write_struct (footer_bytes count)) s2 in
        if ok
        then (none, add_file_size size_of_footer_header s3)
        else (some footer_write_failed, s3)

-- `FileStream::flush` and its error code.
abbrev pub flushed : Bool × SegmentBuilder → Option RecordErrc × SegmentBuilder
flushed (true, s) = (none, s)
flushed (false, s) = (some file_sync_failed, s)

unfoldable pub sync_at : DataSyncLevel → SegmentBuilder → Option RecordErrc × SegmentBuilder
sync_at sync_none s = (none, s)
sync_at sync_normal s = (none, s)
sync_at sync_full s = flushed (on_file flush s)

-- The file is closed, and the owner is told of it where the path is known.
unfoldable pub finish_segment : SegmentBuilder → SegmentBuilder
finish_segment s =
    let report : Finished = record {
      path = s.current_path;
      ctx = s.ctx;
      indices = s.index_entries;
    } in
    record s {
      file = close s.file;
      finished = if is_empty s.current_path then s.finished else s.finished ++ (report ∷ []);
    }

unfoldable pub reset_state : SegmentBuilder → SegmentBuilder
reset_state s = record s {
  current_path = [];
  current_sequence = 0;
  index_entries = [];
  ctx = cleared_context;
  unflushed_blocks = 0;
}

module _ (options : Options) where
  unfoldable pub sync_to_disk : SegmentBuilder → Option RecordErrc × SegmentBuilder
  sync_to_disk s =
      if not (is_open s.file) then (some segment_not_open, s) else sync_at options.data_sync_level s

  unfoldable pub close_current_segment : SegmentBuilder → SegmentBuilder
  close_current_segment s =
      let (footer_error, s1) = write_segment_footer s in
      let (sync_error, s2) = sync_to_disk s1 in
      reset_state (if is_open s.file then finish_segment s2 else s)

  unfoldable pub write_segment_header : SegmentBuilder → Option RecordErrc × SegmentBuilder
  write_segment_header s =
      let (ok, s1) =
        on_file (write_struct (segment_header_bytes options.create_segment_header)) s in
      if ok then (none, s1) else (some header_write_failed, s1)

  -- The loop over the sequence numbers, of which `left` are left up to 999.
  unfoldable pub next_free : ℕ → ℕ → ℕ → FileStream → ℕ
  next_free zero utc_timestamp sequence file = sequence
  next_free (suc left) utc_timestamp sequence file =
      let rest = next_free left utc_timestamp (sequence + 1) file in
      if exists (options.make_segment_path utc_timestamp sequence) file then rest else sequence

  -- The header and the fresh context of a file that has just been opened. Each step has a function for
  -- what follows it.
  unfoldable pub header_synced :
      ℕ → Bytes → ℕ → Option RecordErrc × SegmentBuilder → Option RecordErrc × SegmentBuilder
  header_synced utc_timestamp path sequence (some e, s) = (some e, close_current_segment s)
  header_synced utc_timestamp path sequence (none, s) = (
    none,
    record s {
      current_path = path;
      current_sequence = sequence;
      ctx = record {
        start_timestamp = utc_timestamp;
        end_timestamp = utc_timestamp;
        block_count = 0;
        file_size = size_of_segment_header;
      };
      index_entries = [];
    },
  )

  unfoldable pub header_written :
      ℕ → Bytes → ℕ → Option RecordErrc × SegmentBuilder → Option RecordErrc × SegmentBuilder
  header_written utc_timestamp path sequence (some e, s) = (some e, close_current_segment s)
  header_written utc_timestamp path sequence (none, s) =
      header_synced utc_timestamp path sequence (sync_to_disk s)

  unfoldable pub file_opened :
      ℕ → Bytes → ℕ → Bool × SegmentBuilder → Option RecordErrc × SegmentBuilder
  file_opened utc_timestamp path sequence (false, s) = (some file_open_failed, s)
  file_opened utc_timestamp path sequence (true, s) =
      header_written utc_timestamp path sequence (write_segment_header s)

  unfoldable pub directory_made :
      ℕ → Bytes → ℕ → Bool × SegmentBuilder → Option RecordErrc × SegmentBuilder
  directory_made utc_timestamp path sequence (false, s) = (some directory_create_failed, s)
  directory_made utc_timestamp path sequence (true, s) =
      file_opened utc_timestamp path sequence (on_file (open_truncate path) s)

  -- The sync that is due behind a block, and the result.
  unfoldable pub block_synced :
      DataBlock → Option RecordErrc × SegmentBuilder → WriteResult × SegmentBuilder
  block_synced block (some e, s) = (failed e, s)
  block_synced block (none, s) =
      (wrote (length block.serialized), record s { unflushed_blocks = 0 })

  -- What follows the `write` of a block at that offset, which gave the count: only an error counts.
  unfoldable pub block_written :
      BlockHeader
      → DataBlock
      → ℕ
      → SegmentBuilder
      → Option ℕ × FileStream
      → WriteResult × SegmentBuilder
  block_written h block offset s (none, file) = (failed file_write_failed, record s { file = file })
  block_written h block offset s (some count, file) =
      let s2 : SegmentBuilder = record s {
        file = file;
        ctx = record {
          start_timestamp = s.ctx.start_timestamp;
          end_timestamp = h.end_timestamp;
          block_count = s.ctx.block_count + 1;
          file_size = s.ctx.file_size + length block.serialized;
        };
        index_entries = s.index_entries ++ index_of offset h block.entries;
        unflushed_blocks = s.unflushed_blocks + 1;
      } in
      if leb options.sync_blocks s2.unflushed_blocks
      then block_synced block (sync_to_disk s2)
      else (wrote (length block.serialized), s2)

  unfoldable pub append_block :
      BlockHeader → DataBlock → SegmentBuilder → WriteResult × SegmentBuilder
  append_block h block s = elim (tell s.file) [
    | none ↦ (failed file_write_failed, s)
    | some offset ↦ block_written h block offset s (write block.serialized s.file)
  ]

  unfoldable pub prepared :
      BlockHeader → DataBlock → Option RecordErrc × SegmentBuilder → WriteResult × SegmentBuilder
  prepared h block (some e, s) = (failed e, s)
  prepared h block (none, s) = append_block h block s

  unfoldable pub rotated : Option RecordErrc × SegmentBuilder → Option RecordErrc × SegmentBuilder
  rotated (some e, s) = (some segment_rotation_failed, s)
  rotated (none, s) = (none, s)

  module _ (has_parent : Bytes → Bool) where
    unfoldable pub create_new_segment : ℕ → SegmentBuilder → Option RecordErrc × SegmentBuilder
    create_new_segment utc_timestamp s =
        let wanted = options.get_next_sequence s.ctx in
        let wanted_path = options.make_segment_path utc_timestamp wanted in
        let conflict = exists wanted_path s.file in
        let sequence : ℕ =
          if conflict then next_free (999 - wanted) utc_timestamp wanted s.file else wanted in
        let path = options.make_segment_path utc_timestamp sequence in
        let s1 : SegmentBuilder =
          if conflict
          then record s { conflicts = s.conflicts ++ ((wanted_path, utc_timestamp, sequence) ∷ []) }
          else s in
        let s2 : SegmentBuilder = if is_open s1.file then close_current_segment s1 else s1 in
        if is_empty wanted_path
        then (some file_open_failed, s)
        else directory_made utc_timestamp path sequence
            (if has_parent path then on_file next_call s2 else (true, s2))

    unfoldable pub check_and_rotate_segment :
        DataBlock → SegmentBuilder → Option RecordErrc × SegmentBuilder
    check_and_rotate_segment block s = elim block.header [
      | none ↦ (some invalid_block, s)
      | some h ↦
          let simulated : Context = record {
            start_timestamp = s.ctx.start_timestamp;
            end_timestamp = h.end_timestamp;
            block_count = s.ctx.block_count + 1;
            file_size = s.ctx.file_size + length block.serialized;
          } in
          if options.should_finish_segment simulated
          then rotated (create_new_segment h.start_timestamp (close_current_segment s))
          else (none, s)
    ]

    -- The segment that a block goes to.
    unfoldable pub prepare_segment :
        BlockHeader → DataBlock → SegmentBuilder → Option RecordErrc × SegmentBuilder
    prepare_segment h block s =
        if not (is_open s.file)
        then create_new_segment h.start_timestamp s
        else check_and_rotate_segment block s

    unfoldable pub write_block : DataBlock → SegmentBuilder → WriteResult × SegmentBuilder
    write_block block s = elim block.header [
      | none ↦ (failed invalid_block, s)
      | some h ↦
          if is_empty block.serialized
          then (failed empty_block, s)
          else prepared h block (prepare_segment h block s)
    ]

  unfoldable pub flush_pending : SegmentBuilder → Option RecordErrc × SegmentBuilder
  flush_pending s =
      let (error, s1) = sync_to_disk s in
      if s.unflushed_blocks == 0
      then (none, s)
      else elim error [ none ↦ (none, record s1 { unflushed_blocks = 0 }) | some e ↦ (some e, s1) ]
