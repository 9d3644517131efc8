-- ===== src/Record/SegmentReader/Blocks.antt =====
-- Reading back the blocks of a segment, entry by entry.
use libnx.Common.{
  ℕ, suc, ◌+◌, ◌^◌, ◌<◌, ◌≡◌, refl, ap, ◌∙◌, sym, true, false, List, ◌∷◌, ◌++◌, arith, length,
  length-append, append_assoc, drop, leb, if◌then◌else◌,
}
use libnx.Rtp.Types.{Bytes}
use libnx.Record.Types.{BlockEntryBuffer}
use libnx.Record.Layout.{entry_bytes}
use libnx.Record.BlockBuilder.{payload_bytes}
use libnx.Record.BlockBuilder.Block.{content}
use libnx.Record.SegmentBuilder.Closing.{if_false}
use libnx.Record.SegmentReader.{
  SegmentReader, ReadFrameResult, Outcome, value, read, read_entry_from_block, entry_done,
  read_loop,
}
use libnx.Record.SegmentReader.Entries.{left, forth, left-forth}
use libnx.Record.SegmentReader.Fields.{
  frame_of, FitsFields, fields_size, read_entry_from_block-left, length-entry_bytes,
}

-- An entry whose header has the size of its struct, with numbers that fit and the size of its payload.
pub record IsReadable (e : BlockEntryBuffer) : Type 0 where
  pub size : e.entry.header_size ≡ fields_size e.entry.fields + 12
  pub time : e.entry.timestamp < 2 ^ 64
  pub fields : FitsFields e.entry.fields (length (payload_bytes e.payload))

abbrev pub frame : BlockEntryBuffer → ReadFrameResult
frame e = frame_of e.entry.timestamp e.entry.fields (payload_bytes e.payload)

-- The reader is inside a block, before the entries `es` and then `tail`.
pub record InBlock (s : SegmentReader) (es : List BlockEntryBuffer) (tail : Bytes) : Type 0 where
  pub opened : s.is_open ≡ true
  pub inside : s.need_new_block ≡ false
  pub remains : left s ≡ content es ++ tail
  pub end : s.block_data_end_offset ≡ s.pos + length (content es)

-- The reader is where a block may start.
pub record AtBlock (s : SegmentReader) (tail : Bytes) : Type 0 where
  pub opened : s.is_open ≡ true
  pub outside : s.need_new_block ≡ true
  pub remains : left s ≡ tail

-- A round of the loop inside a block.
abbrev pub round : ℕ → SegmentReader → Outcome ReadFrameResult × SegmentReader
round fuel s =
    if leb s.block_data_end_offset s.pos
    then read_loop fuel (record ((read 2 s).1) { need_new_block = true })
    else entry_done (read_entry_from_block s)

pub read_loop-inside :
    (fuel : ℕ) (s : SegmentReader)
    → s.need_new_block ≡ false
    → read_loop (suc fuel) s ≡ round fuel s
unfolding read_loop
read_loop-inside fuel s e = if_false _ (round fuel s) e

-- Reading the first of the entries.
pub record Entered (e : BlockEntryBuffer) (es : List BlockEntryBuffer) (tail : Bytes)
    (r : Outcome ReadFrameResult × SegmentReader) : Type 0 where
  pub after : SegmentReader
  pub result : r ≡ (value (frame e), after)
  pub in_block : InBlock after es tail

pub round-Entered :
    (fuel : ℕ) (s : SegmentReader) (e : BlockEntryBuffer) (es : List BlockEntryBuffer)
    (tail : Bytes)
    → IsReadable e
    → InBlock s (e ∷ es) tail
    → Entered e es tail (round fuel s)
unfolding content
round-Entered fuel s e es tail readable v =
    let payload = payload_bytes e.payload in
    let rest : Bytes = content es ++ tail in
    let p : left s ≡ entry_bytes e.entry ++ (payload ++ rest) =
      v.remains
      ∙ (append_assoc (entry_bytes e.entry) (payload ++ content es) tail
          ∙ ap (λ t. entry_bytes e.entry ++ t) (append_assoc payload (content es) tail)) in
    let size : length (entry_bytes e.entry) ≡ 12 + fields_size e.entry.fields =
      length-entry_bytes e.entry (length payload) readable.fields in
    let body = forth (length payload) (forth (fields_size e.entry.fields) (forth 12 s)) in
    let there : s.pos + 12 + fields_size e.entry.fields + length payload
        ≡ s.pos + length (entry_bytes e.entry ++ payload) =
      omega (arith, size, length-append (entry_bytes e.entry) payload) in
    let more : leb s.block_data_end_offset s.pos ≡ false =
      ground (arith, v.end, size, length-append (entry_bytes e.entry) (payload ++ content es)) in
    record {
      after = record body {
        entries_read_in_block = s.entries_read_in_block + 1;
        position = record (s.position) {
          entry_index = s.entries_read_in_block + 1;
          timestamp = (frame e).timestamp;
        };
      };
      result =
          if_false _ (entry_done (read_entry_from_block s)) more
          ∙ ap entry_done (
              read_entry_from_block-left e.entry payload rest s readable.size readable.time
                readable.fields p);
      in_block = record {
        opened = v.opened;
        inside = v.inside;
        remains =
            ap (λ n. drop n s.content) there
            ∙ left-forth s (entry_bytes e.entry ++ payload) rest
                (length (entry_bytes e.entry ++ payload))
                (p ∙ sym (append_assoc (entry_bytes e.entry) payload rest)) refl;
        end = omega (
          arith,
          v.end,
          size,
          length-append (entry_bytes e.entry) (payload ++ content es),
          length-append payload (content es),
        );
      };
    }
