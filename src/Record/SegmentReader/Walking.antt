-- ===== src/Record/SegmentReader/Walking.antt =====
-- From the end of a block over the header of the next one to its entries.
use libnx.Common.{
  ℕ, suc, ◌+◌, ◌^◌, ◌<◌, ◌≡◌, refl, ap, ◌∙◌, true, not, List, [], ◌∷◌, ◌++◌, arith, length,
  length-append, append_assoc, append-nil, All, ltb, leb, ◌==◌, if◌then◌else◌, map, subst,
}
use libnx.Rtp.Types.{Bytes}
use libnx.Record.Types.{BlockHeader, BlockEntryBuffer}
use libnx.Record.Layout.{block_header_bytes, end_magic_bytes}
use libnx.Record.Layout.Codec.{length-block_header_bytes, length-end_magic_bytes}
use libnx.Record.BlockBuilder.{Context, entries_size, block_header}
use libnx.Record.BlockBuilder.Block.{
  IsFormed, block_bytes, content, total_size-fits, length-block_bytes,
}
use libnx.Record.SegmentBuilder.Closing.{if_true, if_false}
use libnx.Record.SegmentRepairer.{number_at}
use libnx.Record.SegmentRepairer.Scanning.{FitsHeader, ReadsHeader, block_header_bytes-ReadsHeader}
use libnx.Record.SegmentReader.{
  SegmentReader, ReadFrameResult, Outcome, value, error, overrun, unexpected_eof, end_of_segment,
  read_error, read_block_header, read_entry_from_block, entry_done, enter_block, read_loop,
  read_next_entry,
}
use libnx.Record.SegmentReader.Entries.{left, forth, read-left, left-forth}
use libnx.Record.SegmentReader.Blocks.{
  IsReadable, frame, InBlock, AtBlock, round, read_loop-inside, round-Entered,
}

-- From `s` on, the loop comes to a place where a block may start, and where `tail` is left.
pub record Before (s : SegmentReader) (tail : Bytes) : Type 0 where
  pub opened : s.is_open ≡ true
  pub place : SegmentReader
  pub at_block : AtBlock place tail
  pub loops : (fuel : ℕ) → (k : ℕ) × (read_loop (suc (suc fuel)) s ≡ read_loop (suc k) place)

pub at-Before : (s : SegmentReader) (tail : Bytes) → AtBlock s tail → Before s tail
at-Before s tail a = record {
  opened = a.opened;
  place = s;
  at_block = a;
  loops = λ fuel. (suc fuel, refl);
}

-- Behind the last entry of a block the loop takes the magic number.
end-Before :
    (s : SegmentReader) (tail : Bytes) → InBlock s [] (end_magic_bytes ++ tail) → Before s tail
unfolding content
end-Before s tail v =
    let taken = read-left s end_magic_bytes tail 2 v.remains length-end_magic_bytes in
    let s1 : SegmentReader = record (forth 2 s) { need_new_block = true } in
    let over : leb s.block_data_end_offset s.pos ≡ true = ground (arith, v.end) in
    record {
      opened = v.opened;
      place = s1;
      at_block = record {
        opened = v.opened;
        outside = refl;
        remains = left-forth s end_magic_bytes tail 2 v.remains length-end_magic_bytes;
      };
      loops = λ fuel. (
        fuel,
        read_loop-inside (suc fuel) s v.inside
            ∙ (if_true _ (entry_done (read_entry_from_block s)) over
                ∙ ap
                    (λ (r : Bytes × SegmentReader).
                      read_loop (suc fuel) (record (r.1) { need_new_block = true }))
                    taken),
      );
    }

abbrev pub header_case :
    ℕ → Outcome BlockHeader × SegmentReader → Outcome ReadFrameResult × SegmentReader
header_case fuel (value h, s) = round fuel (enter_block h s)
header_case fuel (error e, s) = (error e, s)
header_case fuel (overrun, s) = (overrun, s)

pub read_loop-outside :
    (fuel : ℕ) (s : SegmentReader)
    → s.need_new_block ≡ true
    → read_loop (suc fuel) s ≡ header_case fuel (read_block_header s)
unfolding read_loop
read_loop-outside fuel s e = if_true _ (round fuel s) e ∙ by_case (read_block_header s)
  where
    by_case :
        (r : Outcome BlockHeader × SegmentReader)
        → elim r.0 as (λ x. Outcome ReadFrameResult × SegmentReader) [
          | value h ↦ round fuel (enter_block h r.1)
          | error e ↦ (error e, r.1)
          | overrun ↦ (overrun, r.1)
        ]
          ≡ header_case fuel r
    by_case (value h, s) = refl
    by_case (error e, s) = refl
    by_case (overrun, s) = refl

-- The state behind the header of a block.
abbrev behind_header : SegmentReader → SegmentReader
behind_header s = record (forth 28 s) { position = record (s.position) { block_offset = s.pos } }

read_block_header-left :
    (s : SegmentReader) (h : BlockHeader) (rest : Bytes)
    → FitsHeader h
    → left s ≡ block_header_bytes h ++ rest
    → read_block_header s ≡ (value h, behind_header s)
unfolding read_block_header
read_block_header-left s h rest fits p =
    let hb = block_header_bytes h in
    let size = length-block_header_bytes h in
    let reads : ReadsHeader h hb =
      subst (ReadsHeader h) (append-nil hb) (block_header_bytes-ReadsHeader h [] fits) in
    let done : Bytes × SegmentReader → Outcome BlockHeader × SegmentReader = λ t.
      if ltb (length t.0) 28
      then (error unexpected_eof, t.1)
      else if not (number_at 0 2 t.0 == 0xfff1)
      then (error end_of_segment, t.1)
      else (
        value (record {
          flags = number_at 4 4 t.0;
          length = number_at 8 4 t.0;
          start_timestamp = number_at 12 8 t.0;
          end_timestamp = number_at 20 8 t.0;
        }),
        record (t.1) { position = record (t.1.position) { block_offset = s.pos } },
      ) in
    let header : BlockHeader = record {
      flags = number_at 4 4 hb;
      length = number_at 8 4 hb;
      start_timestamp = number_at 12 8 hb;
      end_timestamp = number_at 20 8 hb;
    } in
    let same : header ≡ h = simp (reads.flags, reads.size, reads.start, reads.end) refl in
    let good : Outcome BlockHeader × SegmentReader = (value header, behind_header s) in
    ap done (read-left s hb rest 28 p size)
    ∙ (if_false (error unexpected_eof, forth 28 s)
          (if not (number_at 0 2 hb == 0xfff1) then (error end_of_segment, forth 28 s) else good)
          (ground (arith, size))
        ∙ (if_false (error end_of_segment, forth 28 s) good
              (ap (λ n. not (n == 0xfff1)) reads.magic)
            ∙ ap (λ (x : BlockHeader). (value x, behind_header s)) same))

-- The block that starts here.
pub record Entering (s : SegmentReader) (es : List BlockEntryBuffer) (tail : Bytes) : Type 0 where
  pub inner : SegmentReader
  pub loops : (fuel : ℕ) → read_loop (suc fuel) s ≡ round fuel inner
  pub in_block : InBlock inner es tail

pub block-Entering :
    (s : SegmentReader) (ctx : Context) (es : List BlockEntryBuffer) (tail : Bytes)
    → All IsFormed es
    → 30 + entries_size es < 2 ^ 32
    → FitsHeader (block_header ctx es)
    → AtBlock s (block_bytes ctx es ++ tail)
    → Entering s es (end_magic_bytes ++ tail)
block-Entering s ctx es tail formed fits header_fits v =
    let h = block_header ctx es in
    let hb = block_header_bytes h in
    let rest : Bytes = content es ++ (end_magic_bytes ++ tail) in
    let p : left s ≡ hb ++ rest =
      v.remains
      ∙ (append_assoc hb (content es ++ end_magic_bytes) tail
          ∙ ap (λ t. hb ++ t) (append_assoc (content es) end_magic_bytes tail)) in
    let size = length-block_header_bytes h in
    record {
      inner = enter_block h (behind_header s);
      loops = λ fuel.
          read_loop-outside fuel s v.outside
          ∙ ap (header_case fuel) (read_block_header-left s h rest header_fits p);
      in_block = record {
        opened = v.opened;
        inside = refl;
        remains = left-forth s hb rest 28 p size;
        end = omega (
          arith,
          total_size-fits es fits,
          length-block_bytes ctx es formed,
          length-append hb (content es ++ end_magic_bytes),
          length-append (content es) end_magic_bytes,
          length-end_magic_bytes,
          size,
        );
      };
    }

-- Calls of `read_next_entry` that give these frames, one after the other.
pub data Reads : SegmentReader → List ReadFrameResult → SegmentReader → Type 0 where
  stop : {s : SegmentReader} → Reads s [] s
  one_more :
      {s s1 s2 : SegmentReader} {r : ReadFrameResult} {rs : List ReadFrameResult}
      → read_next_entry s ≡ (value r, s1)
      → Reads s1 rs s2
      → Reads s (r ∷ rs) s2

pub Reads-append :
    {s s1 s2 : SegmentReader} {rs more : List ReadFrameResult}
    → Reads s rs s1
    → Reads s1 more s2
    → Reads s (rs ++ more) s2
Reads-append stop b = b
Reads-append (one_more e a) b = one_more e (Reads-append a b)

pub read_next_entry-loop :
    (s : SegmentReader)
    → s.is_open ≡ true
    → read_next_entry s ≡ read_loop (suc (suc (length s.content))) s
unfolding read_next_entry
read_next_entry-loop s e =
    let two : length s.content + 2 ≡ suc (suc (length s.content)) = omega arith in
    if_false (error read_error, s) (read_loop (length s.content + 2) s) (ap not e)
    ∙ ap (λ n. read_loop n s) two

pub record ReadsTo (s : SegmentReader) (rs : List ReadFrameResult) (tail : Bytes) : Type 0 where
  pub last : SegmentReader
  pub reads : Reads s rs last
  pub before : Before last tail

pub reads-entries :
    (es : List BlockEntryBuffer) (s : SegmentReader) (tail : Bytes)
    → All IsReadable es
    → InBlock s es (end_magic_bytes ++ tail)
    → ReadsTo s (map frame es) tail
reads-entries [] s tail readable v = record { last = s; reads = stop; before = end-Before s tail v }
reads-entries (e ∷ es) s tail readable v =
    let fuel = suc (length s.content) in
    let first = round-Entered fuel s e es (end_magic_bytes ++ tail) readable.0 v in
    let others = reads-entries es first.after tail readable.1 first.in_block in
    record {
      last = others.last;
      reads =
          one_more
            (read_next_entry-loop s v.opened ∙ (read_loop-inside fuel s v.inside ∙ first.result))
            others.reads;
      before = others.before;
    }
