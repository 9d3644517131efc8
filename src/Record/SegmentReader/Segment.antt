-- ===== src/Record/SegmentReader/Segment.antt =====
-- Reading back a whole segment.
use libnx.Common.{
  ℕ, ◌+◌, ◌<◌, ◌^◌, ◌≡◌, refl, ap, ◌∙◌, not, List, [], ◌∷◌, ◌++◌, arith, length, append_assoc, take,
  All, ltb, ◌==◌, if◌then◌else◌, map, subst,
}
use libnx.Rtp.Types.{Bytes}
use libnx.Rtp.Extension.{is_empty}
use libnx.Record.Types.{BlockHeader, BlockEntryBuffer, DataBlock, IndexEntry}
use libnx.Record.Layout.{le_bytes, index_entry_bytes, footer_bytes, end_magic_bytes}
use libnx.Record.Layout.Codec.{le_number}
use libnx.Record.BlockBuilder.{Context, entries_size, block_header}
use libnx.Record.BlockBuilder.Block.{IsFormed, block}
use libnx.Record.SegmentBuilder.Format.{blocks_bytes, index_bytes}
use libnx.Record.SegmentRepairer.{number_at}
use libnx.Record.SegmentRepairer.Scanning.{FitsHeader}
use libnx.Record.SegmentReader.{
  SegmentReader, ReadFrameResult, Outcome, value, error, overrun, SegmentReaderErrc, unexpected_eof,
  end_of_segment, read, read_block_header, read_next_entry,
}
use libnx.Record.SegmentReader.Entries.{left}
use libnx.Record.SegmentReader.Blocks.{IsReadable, frame, AtBlock, round-Entered}
use libnx.Record.SegmentReader.Walking.{
  stop, Before, ReadsTo, Reads, Reads-append, at-Before, block-Entering, read_next_entry-loop,
  reads-entries, header_case, read_loop-outside,
}

-- The entries of a block, and the context that it was finished with.
pub record Batch : Type 0 where
  pub ctx : Context
  pub first : BlockEntryBuffer
  pub others : List BlockEntryBuffer

abbrev pub block_of : Batch → DataBlock
block_of b = block b.ctx (b.first ∷ b.others)

pub record IsWritten (b : Batch) : Type 0 where
  pub formed : All IsFormed (b.first ∷ b.others)
  pub fits : 30 + entries_size (b.first ∷ b.others) < 2 ^ 32
  pub header_fits : FitsHeader (block_header b.ctx (b.first ∷ b.others))
  pub readable : All IsReadable (b.first ∷ b.others)

unfoldable pub frames : List Batch → List ReadFrameResult
frames [] = []
frames (b ∷ bs) = map frame (b.first ∷ b.others) ++ frames bs

reads-block :
    (b : Batch) (s : SegmentReader) (tail : Bytes)
    → IsWritten b
    → Before s ((block_of b).serialized ++ tail)
    → ReadsTo s (map frame (b.first ∷ b.others)) tail
reads-block b s tail w before =
    let es = b.first ∷ b.others in
    let start = before.loops (length s.content) in
    let inside =
      block-Entering before.place b.ctx es tail w.formed w.fits w.header_fits before.at_block in
    let one =
      round-Entered start.0 inside.inner b.first b.others (end_magic_bytes ++ tail) w.readable.0
        inside.in_block in
    let more = reads-entries b.others one.after tail w.readable.1 one.in_block in
    record {
      last = more.last;
      reads =
          Reads.one_more
            (read_next_entry-loop s before.opened ∙ (start.1 ∙ (inside.loops start.0 ∙ one.result)))
            more.reads;
      before = more.before;
    }

reads-blocks :
    (bs : List Batch) (s : SegmentReader) (tail : Bytes)
    → All IsWritten bs
    → Before s (blocks_bytes (map block_of bs) ++ tail)
    → ReadsTo s (frames bs) tail
unfolding blocks_bytes frames
reads-blocks [] s tail w before = record { last = s; reads = stop; before = before }
reads-blocks (b ∷ bs) s tail w before =
    let rest : Bytes = blocks_bytes (map block_of bs) ++ tail in
    let here =
      subst (Before s) (append_assoc (block_of b).serialized (blocks_bytes (map block_of bs)) tail)
        before in
    let one = reads-block b s rest w.0 here in
    let others = reads-blocks bs one.last tail w.1 one.before in
    record {
      last = others.last;
      reads = Reads-append one.reads others.reads;
      before = others.before;
    }

-- What the reader says behind the last block.
abbrev pub at_end : List IndexEntry → SegmentReaderErrc
at_end indices = if is_empty indices then unexpected_eof else end_of_segment

same_error : Outcome BlockHeader → Outcome ReadFrameResult
same_error (value h) = overrun
same_error (error e) = error e
same_error overrun = overrun

header_error :
    (fuel : ℕ) (e : SegmentReaderErrc) (r : Outcome BlockHeader × SegmentReader)
    → r.0 ≡ error e
    → (header_case fuel r).0 ≡ error e
unfolding same_error
header_error fuel e (value h, s) p = absurd (ground arith)
header_error fuel e (error e', s) p = ap same_error p
header_error fuel e (overrun, s) p = absurd (ground arith)

read_block_header-end :
    (indices : List IndexEntry) (s : SegmentReader)
    → left s ≡ index_bytes indices ++ footer_bytes (length indices)
    → (read_block_header s).0 ≡ error (at_end indices)
unfolding read_block_header read number_at index_bytes index_entry_bytes footer_bytes le_bytes
    le_number
read_block_header-end indices s p = ap done p ∙ ends indices
  where
    behind : Bytes → SegmentReader
    behind t = record s { pos = s.pos + length (take 28 t) }

    after : Bytes → Outcome BlockHeader × SegmentReader
    after t =
        if ltb (length (take 28 t)) 28
        then (error unexpected_eof, behind t)
        else if not (number_at 0 2 (take 28 t) == 0xfff1)
        then (error end_of_segment, behind t)
        else (
          value (record {
            flags = number_at 4 4 (take 28 t);
            length = number_at 8 4 (take 28 t);
            start_timestamp = number_at 12 8 (take 28 t);
            end_timestamp = number_at 20 8 (take 28 t);
          }),
          record (behind t) { position = record (s.position) { block_offset = s.pos } },
        )

    done : Bytes → Outcome BlockHeader
    done t = (after t).0

    ends :
        (indices : List IndexEntry)
        → done (index_bytes indices ++ footer_bytes (length indices)) ≡ error (at_end indices)
    ends [] = refl
    ends (i ∷ []) = refl
    ends (i ∷ j ∷ is) = refl

-- The calls of `read_next_entry` on a segment: the frames, and what comes behind them.
pub record ReadsSegment (s : SegmentReader) (rs : List ReadFrameResult) (e : SegmentReaderErrc)
    : Type 0 where
  pub last : SegmentReader
  pub reads : Reads s rs last
  pub ends : (read_next_entry last).0 ≡ error e

-- A reader that stands before the first block of a segment with blocks of the block builder, and an
-- index and a footer behind them: `read_next_entry` gives the frame of every entry, in order, and then
-- the end of the segment, or an unexpected end of the file where the index is empty.
pub read_next_entry-ReadsSegment :
    (bs : List Batch) (indices : List IndexEntry) (s : SegmentReader)
    → All IsWritten bs
    → AtBlock s
        (blocks_bytes (map block_of bs) ++ (index_bytes indices ++ footer_bytes (length indices)))
    → ReadsSegment s (frames bs) (at_end indices)
read_next_entry-ReadsSegment bs indices s w v =
    let tail : Bytes = index_bytes indices ++ footer_bytes (length indices) in
    let all = reads-blocks bs s tail w (at-Before s (blocks_bytes (map block_of bs) ++ tail) v) in
    let last = all.last in
    let place = all.before.place in
    let loops = all.before.loops (length last.content) in
    record {
      last = last;
      reads = all.reads;
      ends =
          ap (λ (r : Outcome ReadFrameResult × SegmentReader). r.0)
            (read_next_entry-loop last all.before.opened
              ∙ (loops.1 ∙ read_loop-outside loops.0 place all.before.at_block.outside))
          ∙ header_error loops.0 (at_end indices) (read_block_header place)
              (read_block_header-end indices place all.before.at_block.remains);
    }
