-- ===== src/Record/SegmentBuilder/Tests.antt =====
-- Concrete runs: a segment with one block, and a second block with which it would be finished.
use libnx.Common.{refl, true, [], ◌∷◌, none, some, leb}
use libnx.Record.Types.{BlockHeader, DataBlock, video, BlockEntry}
use libnx.Record.Layout.{le_bytes, segment_header_bytes}
use libnx.Record.FileStream.{exists}
use libnx.Record.SegmentBuilder.{
  Options, SegmentBuilder, DataSyncLevel, sync_full, write_block, close_current_segment,
}
use libnx.Record.SegmentBuilder.Format.{blocks_bytes, index_of_blocks, open_content}
use libnx.Record.SegmentBuilder.Closing.{quiet, IsOpen, IsClosed, close_current_segment-IsClosed}
use libnx.Record.SegmentBuilder.Writing.{Appends}
use libnx.Record.SegmentBuilder.Creating.{chosen_path}
use libnx.Record.SegmentBuilder.Appending.{files_before, blocks_before, write_block-Appends}

abbrev header : BlockHeader
header = record { flags = 2; length = 33; start_timestamp = 70; end_timestamp = 90 }

abbrev entry : BlockEntry
entry = record {
  archive_type = 0;
  header_size = 20;
  timestamp = 70;
  fields =
      video (record { codec_type = 1; frame_type = 1; reserved = 0 ∷ 0 ∷ []; payload_size = 3 });
}

abbrev block : DataBlock
block = record { header = some header; entries = entry ∷ []; serialized = 1 ∷ 2 ∷ 3 ∷ [] }

abbrev options_at : DataSyncLevel → Options
options_at level = record {
  make_segment_path = λ t sequence. t ∷ sequence ∷ [];
  create_segment_header = record { version = 2; channel_id = 7; extension_header_size = 0 };
  should_finish_segment = λ ctx. leb 2 ctx.block_count;
  data_sync_level = level;
  sync_blocks = 1;
  get_next_sequence = λ ctx. 0;
}

abbrev options : Options
options = options_at sync_full

abbrev one_block : SegmentBuilder
one_block = record {
  file = quiet [] (
      some (record {
        path = 70 ∷ 0 ∷ [];
        content = open_content options.create_segment_header (block ∷ []);
      }));
  current_path = 70 ∷ 0 ∷ [];
  ctx = record { start_timestamp = 70; end_timestamp = 90; block_count = 1; file_size = 23 };
  current_sequence = 0;
  index_entries = index_of_blocks 20 (block ∷ []);
  unflushed_blocks = 0;
  finished = [];
  conflicts = [];
}

one_block-IsOpen : IsOpen options one_block [] (block ∷ [])
unfolding blocks_bytes segment_header_bytes le_bytes
one_block-IsOpen = record { file = refl; named = refl; indices = refl; size = refl; count = refl }

close_current_segment-IsClosed_example :
    IsClosed options one_block (close_current_segment options one_block) [] (block ∷ [])
close_current_segment-IsClosed_example =
    close_current_segment-IsClosed options one_block [] (block ∷ []) one_block-IsOpen

write_block-Appends_example :
    Appends options block
      (write_block options (λ path. true) block one_block)
      (files_before options (λ path. true) header block refl refl one_block [] (block ∷ []))
      (blocks_before options (λ path. true) header block refl refl one_block (block ∷ []))
unfolding chosen_path exists
write_block-Appends_example =
    write_block-Appends options (λ path. true) header block refl refl one_block [] (block ∷ [])
      one_block-IsOpen refl refl

-- The names with the numbers 0 and 1 are taken.
abbrev taken : SegmentBuilder
taken = record one_block {
  file =
      quiet
        (record { path = 70 ∷ 0 ∷ []; content = [] }
          ∷ record { path = 70 ∷ 1 ∷ []; content = [] }
          ∷ [])
        none;
}

abbrev half_full : SegmentBuilder
half_full = record one_block {
  file = record {
    os = record { files = []; outcomes = some 2 ∷ [] };
    opened = some (record { path = 70 ∷ 0 ∷ []; content = [] });
  };
}
