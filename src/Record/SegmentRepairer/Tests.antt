-- ===== src/Record/SegmentRepairer/Tests.antt =====
-- A concrete run: a block of one I-frame, and the first bytes of a further block.
use libnx.Common.{◌≡◌, ◌≢◌, refl, sym, ◌∙◌, true, [], ◌∷◌, none, some, arith}
use libnx.Rtp.Types.{Bytes}
use libnx.Record.Types.{video, BlockEntryBuffer, DataBlock, SegmentHeader}
use libnx.Record.Layout.{
  entry_bytes, fields_bytes, le_bytes, segment_header_bytes, block_header_bytes, end_magic_bytes,
}
use libnx.Record.Layout.Codec.{le_number}
use libnx.Record.BlockBuilder.{Context, entries_size, pressure_flags_of}
use libnx.Record.BlockBuilder.Block.{IsFormed, block, content}
use libnx.Record.SegmentBuilder.Format.{blocks_bytes, segment_file}
use libnx.Record.SegmentRepairer.{
  footer_valid, footer_missing, check_footer, block_at, number_at, repair_segment,
}
use libnx.Record.SegmentRepairer.Repairing.{IsBuilt}
use libnx.Record.SegmentRepairer.Restoring.{torn_file, repair_segment-torn_file}

abbrev frame : BlockEntryBuffer
frame = record {
  entry = record {
    archive_type = 0;
    header_size = 20;
    timestamp = 1000;
    fields =
        video (record { codec_type = 1; frame_type = 1; reserved = 0 ∷ 0 ∷ []; payload_size = 3 });
  };
  payload = some (1 ∷ 2 ∷ 3 ∷ []);
  pressure_flags = 0;
}

abbrev ctx : Context
ctx = record {
  start_timestamp = 1000;
  end_timestamp = 1000;
  pending_count = 1;
  pending_bytes = 23;
  contains_keyframe = true;
  last_activity_time = 5;
}

abbrev one_block : DataBlock
one_block = block ctx (frame ∷ [])

abbrev header : SegmentHeader
header = record { version = 2; channel_id = 7; extension_header_size = 0 }

abbrev torn : Bytes
torn = 0xf1 ∷ 0xff ∷ 28 ∷ 0 ∷ []

frame-IsFormed : IsFormed frame
unfolding entry_bytes fields_bytes le_bytes
frame-IsFormed = record { header = refl; payload = omega arith }

one_block-IsBuilt : IsBuilt one_block
unfolding entries_size pressure_flags_of
one_block-IsBuilt = record {
  ctx = ctx;
  first = frame;
  others = [];
  is_block = refl;
  formed = (frame-IsFormed, tt);
  fits = omega arith;
  header_fits = record {
    flags = omega arith;
    length = omega arith;
    start = omega arith;
    end = omega arith;
  };
  reserved = refl;
}

torn_tail : block_at 73 (torn_file header (one_block ∷ []) torn) ≡ none
unfolding block_at number_at le_number segment_header_bytes block_header_bytes end_magic_bytes
    blocks_bytes content entry_bytes fields_bytes le_bytes entries_size pressure_flags_of
torn_tail = refl

no_footer : check_footer (torn_file header (one_block ∷ []) torn) ≡ footer_missing
unfolding check_footer number_at le_number segment_header_bytes block_header_bytes end_magic_bytes
    blocks_bytes content entry_bytes fields_bytes le_bytes entries_size pressure_flags_of
no_footer = refl

missing-ne-valid : footer_missing ≢ footer_valid
missing-ne-valid e = ground arith

repair_segment-torn_file_example :
    (repair_segment (torn_file header (one_block ∷ []) torn)).1
    ≡ segment_file header (one_block ∷ [])
unfolding segment_header_bytes block_header_bytes end_magic_bytes blocks_bytes content entry_bytes
    fields_bytes le_bytes
repair_segment-torn_file_example =
    repair_segment-torn_file header (one_block ∷ []) torn refl refl (one_block-IsBuilt, tt)
      torn_tail (λ e. missing-ne-valid (sym no_footer ∙ e))
