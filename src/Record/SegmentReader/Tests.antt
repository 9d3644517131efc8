-- ===== src/Record/SegmentReader/Tests.antt =====
-- A concrete run: a segment with one block of one I-frame and no index.
use libnx.Common.{refl, true, [], ◌∷◌, ◌++◌, some, arith}
use libnx.Record.Types.{video, BlockEntryBuffer, SegmentHeader}
use libnx.Record.Layout.{entry_bytes, fields_bytes, le_bytes, segment_header_bytes, footer_bytes}
use libnx.Record.BlockBuilder.{entries_size, pressure_flags_of}
use libnx.Record.BlockBuilder.Block.{IsFormed}
use libnx.Record.SegmentBuilder.Format.{blocks_bytes, index_bytes}
use libnx.Record.SegmentReader.{SegmentReader, no_position, no_block, unexpected_eof}
use libnx.Record.SegmentReader.Blocks.{AtBlock}
use libnx.Record.SegmentReader.Segment.{
  Batch, block_of, IsWritten, frames, ReadsSegment, read_next_entry-ReadsSegment,
}

abbrev frame : BlockEntryBuffer
frame = record {
  entry = record {
    archive_type = 0;
    header_size = 20;
    timestamp = 1000;
    fields =
        video (record { codec_type = 1; frame_type = 1; reserved = 0 ∷ 0 ∷ []; payload_size = 3 });
  };
  payload = some (1 ∷ 2 ∷ 3 ∷ []);
  pressure_flags = 0;
}

abbrev batch : Batch
batch = record {
  ctx = record {
    start_timestamp = 1000;
    end_timestamp = 1000;
    pending_count = 1;
    pending_bytes = 23;
    contains_keyframe = true;
    last_activity_time = 5;
  };
  first = frame;
  others = [];
}

abbrev header : SegmentHeader
header = record { version = 2; channel_id = 7; extension_header_size = 0 }

abbrev reader : SegmentReader
reader = record {
  content =
      segment_header_bytes header
      ++ (blocks_bytes (block_of batch ∷ []) ++ (index_bytes [] ++ footer_bytes 0));
  pos = 20;
  segment_header = header;
  is_open = true;
  footer_indices = [];
  footer_loaded = true;
  position = no_position;
  current_block_header = no_block;
  entries_read_in_block = 0;
  block_data_end_offset = 0;
  need_new_block = true;
}

frame-IsFormed : IsFormed frame
unfolding entry_bytes fields_bytes le_bytes
frame-IsFormed = record { header = refl; payload = omega arith }

batch-IsWritten : IsWritten batch
unfolding entries_size pressure_flags_of
batch-IsWritten = record {
  formed = (frame-IsFormed, tt);
  fits = omega arith;
  header_fits = record {
    flags = omega arith;
    length = omega arith;
    start = omega arith;
    end = omega arith;
  };
  readable = (record { size = refl; time = omega arith; fields = (refl, (refl, omega arith)) }, tt);
}

reader-AtBlock :
    AtBlock reader (blocks_bytes (block_of batch ∷ []) ++ (index_bytes [] ++ footer_bytes 0))
unfolding segment_header_bytes le_bytes
reader-AtBlock = record { opened = refl; outside = refl; remains = refl }

read_next_entry-ReadsSegment_example : ReadsSegment reader (frames (batch ∷ [])) unexpected_eof
read_next_entry-ReadsSegment_example =
    read_next_entry-ReadsSegment (batch ∷ []) [] reader (batch-IsWritten, tt) reader-AtBlock
