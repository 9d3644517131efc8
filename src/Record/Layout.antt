-- ===== src/Record/Layout.antt =====
-- The packed structs of nxcore/record/record.h as the bytes that `memcpy` and `write_struct` take from
-- them, on a little-endian machine.
pub mod Codec
use libnx.Common.{
  ℕ, zero, suc, ◌*◌, ◌/◌, ◌%◌, List, [], ◌∷◌, ◌++◌, Option, none, some, take, length, leb,
  if◌then◌else◌,
}
use libnx.Rtp.Types.{Bytes}
use libnx.Record.Types.{
  EntryFields, video, audio, userdata, BlockEntry, BlockEntryBuffer, BlockHeader, IndexEntry,
  SegmentHeader, entry_kind,
}

-- A number of that many bytes, the lowest first.
unfoldable pub le_bytes : ℕ → ℕ → Bytes
le_bytes zero value = []
le_bytes (suc width) value = value % 256 ∷ le_bytes width (value / 256)

abbrev pub size_of_block_entry : ℕ
size_of_block_entry = 12

abbrev pub size_of_block_header : ℕ
size_of_block_header = 28

abbrev pub size_of_index_entry : ℕ
size_of_index_entry = 22

abbrev pub size_of_segment_header : ℕ
size_of_segment_header = 20

abbrev pub size_of_footer_header : ℕ
size_of_footer_header = 16

abbrev pub size_of_end_magic : ℕ
size_of_end_magic = 2

unfoldable pub fields_bytes : EntryFields → Bytes
fields_bytes (video f) = f.codec_type ∷ f.frame_type ∷ (f.reserved ++ le_bytes 4 f.payload_size)
fields_bytes (audio f) =
    f.codec_type
    ∷ f.channels
    ∷ f.bit_depth
    ∷ (le_bytes 4 f.sample_rate ++ le_bytes 4 f.payload_size)
fields_bytes (userdata f) = f.data_type ∷ (f.reserved ++ le_bytes 4 f.payload_size)

-- The derived entry in memory.
unfoldable pub entry_bytes : BlockEntry → Bytes
unfolding fields_bytes
entry_bytes e =
    entry_kind e.fields
    ∷ e.archive_type
    ∷ (le_bytes 2 e.header_size ++ (le_bytes 8 e.timestamp ++ fields_bytes e.fields))

-- The first `header_size` bytes of the entry, or `none` where the copy would leave the entry.
unfoldable pub copied_header : BlockEntry → Option Bytes
unfolding entry_bytes
copied_header e =
    if leb e.header_size (length (entry_bytes e))
    then some (take e.header_size (entry_bytes e))
    else none

unfoldable pub block_header_bytes : BlockHeader → Bytes
block_header_bytes h =
    le_bytes 2 0xfff1
    ++ (le_bytes 2 size_of_block_header
        ++ (le_bytes 4 h.flags
            ++ (le_bytes 4 h.length
                ++ (le_bytes 8 h.start_timestamp ++ le_bytes 8 h.end_timestamp))))

unfoldable pub end_magic_bytes : Bytes
end_magic_bytes = le_bytes 2 0xfffb

unfoldable pub index_entry_bytes : IndexEntry → Bytes
index_entry_bytes e =
    le_bytes 2 0xfff2 ++ (le_bytes 4 e.flags ++ (le_bytes 8 e.timestamp ++ le_bytes 8 e.offset))

unfoldable pub segment_header_bytes : SegmentHeader → Bytes
segment_header_bytes h =
    le_bytes 2 0xfff0
    ++ (le_bytes 2 size_of_segment_header
        ++ (le_bytes 4 h.version
            ++ (le_bytes 8 h.channel_id ++ le_bytes 4 h.extension_header_size)))

-- The footer for that many index entries.
unfoldable pub footer_bytes : ℕ → Bytes
footer_bytes count =
    le_bytes 2 0xfff3
    ++ (le_bytes 2 size_of_footer_header
        ++ (le_bytes 4 count
            ++ (le_bytes 4 (size_of_index_entry * count) ++ (0 ∷ 0 ∷ le_bytes 2 0xfffe))))
