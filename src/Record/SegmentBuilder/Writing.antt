-- ===== src/Record/SegmentBuilder/Writing.antt =====
-- What `write_block` does on a system where every call succeeds.
use libnx.Common.{
  ℕ, ◌+◌, ◌≡◌, refl, ap, ◌∙◌, sym, inl, inr, List, [], ◌∷◌, ◌++◌, none, some, arith, length,
  length-append, append_assoc, leb, if◌then◌else◌, Bool-cases, subst,
}
use libnx.Record.Types.{BlockHeader, DataBlock}
use libnx.Record.Layout.{segment_header_bytes}
use libnx.Record.Layout.Codec.{length-segment_header_bytes}
use libnx.Record.FileStream.{FileStream, File, write, tell}
use libnx.Record.SegmentBuilder.{
  Options, SegmentBuilder, WriteResult, wrote, failed, file_write_failed, index_of, sync_to_disk,
  block_synced, block_written, append_block,
}
use libnx.Record.SegmentBuilder.Format.{
  blocks_bytes, index_of_blocks, open_content, blocks_bytes-append, index_of_blocks-append,
}
use libnx.Record.SegmentBuilder.Closing.{if_true, if_false, quiet, IsOpen, sync_to_disk-quiet}

-- A block that the segment takes: `write_block` returned its size, and the blocks are one more.
pub record Appends (options : Options) (block : DataBlock) (r : WriteResult × SegmentBuilder)
    (files : List File) (bs : List DataBlock) : Type 0 where
  pub result : r.0 ≡ wrote (length block.serialized)
  pub open_now : IsOpen options r.1 files (bs ++ (block ∷ []))

pub Appends-via :
    {options : Options} {block : DataBlock} {r r' : WriteResult × SegmentBuilder}
    {files : List File} {bs : List DataBlock}
    → r ≡ r'
    → Appends options block r' files bs
    → Appends options block r files bs
Appends-via {options} {block} {files = files} {bs = bs} e a =
    subst (λ (r : WriteResult × SegmentBuilder). Appends options block r files bs) (sym e) a

module _ (options : Options) (h : BlockHeader) (block : DataBlock)
    (has_header : block.header ≡ some h) where
  -- The state behind the bytes of the block.
  abbrev with_block : SegmentBuilder → List File → List DataBlock → SegmentBuilder
  with_block s files bs = record s {
    file = quiet files (
        some (record {
          path = s.current_path;
          content = open_content options.create_segment_header bs ++ block.serialized;
        }));
    ctx = record {
      start_timestamp = s.ctx.start_timestamp;
      end_timestamp = h.end_timestamp;
      block_count = s.ctx.block_count + 1;
      file_size = s.ctx.file_size + length block.serialized;
    };
    index_entries =
        s.index_entries
        ++ index_of (length (open_content options.create_segment_header bs)) h block.entries;
    unflushed_blocks = s.unflushed_blocks + 1;
  }

  with_block-IsOpen :
      (s : SegmentBuilder) (files : List File) (bs : List DataBlock) (unflushed : ℕ)
      → IsOpen options s files bs
      → IsOpen options
          (record (with_block s files bs) { unflushed_blocks = unflushed })
          files
          (bs ++ (block ∷ []))
  with_block-IsOpen s files bs unflushed v =
      let header = segment_header_bytes options.create_segment_header in
      let content : (header ++ blocks_bytes bs) ++ block.serialized
          ≡ header ++ blocks_bytes (bs ++ (block ∷ [])) =
        append_assoc header (blocks_bytes bs) block.serialized
        ∙ ap (λ t. header ++ t) (sym (blocks_bytes-append bs block)) in
      let offset : length (header ++ blocks_bytes bs) ≡ 20 + length (blocks_bytes bs) = omega (
        arith,
        length-append header (blocks_bytes bs),
        length-segment_header_bytes options.create_segment_header,
      ) in
      record {
        file = ap (λ c. quiet files (some (record { path = s.current_path; content = c }))) content;
        named = v.named;
        indices =
            ap (λ t. t ++ index_of (length (header ++ blocks_bytes bs)) h block.entries) v.indices
            ∙ (ap (λ n. index_of_blocks 20 bs ++ index_of n h block.entries) offset
                ∙ sym (index_of_blocks-append 20 bs block h has_header));
        size =
            ap (λ n. n + length block.serialized) v.size
            ∙ (sym (length-append (header ++ blocks_bytes bs) block.serialized)
                ∙ ap length content);
        count = ap (λ n. n + 1) v.count ∙ sym (length-append bs (block ∷ []));
      }

  append_block-open :
      (s : SegmentBuilder) (files : List File) (bs : List DataBlock)
      → IsOpen options s files bs
      → append_block options h block s ≡ (
          if leb options.sync_blocks (s.unflushed_blocks + 1)
          then block_synced options block (sync_to_disk options (with_block s files bs))
          else (wrote (length block.serialized), with_block s files bs))
  unfolding append_block write tell block_written
  append_block-open s files bs v =
      ap
        (λ (file : FileStream). elim (tell file) as (λ x. WriteResult × SegmentBuilder) [
          | none ↦ (failed file_write_failed, s)
          | some offset ↦ block_written options h block offset s (write block.serialized file)
        ])
        v.file

  pub append_block-Appends :
      (s : SegmentBuilder) (files : List File) (bs : List DataBlock)
      → IsOpen options s files bs
      → Appends options block (append_block options h block s) files bs
  unfolding block_synced
  append_block-Appends s files bs v =
      let s2 = with_block s files bs in
      let g : File = record {
        path = s.current_path;
        content = open_content options.create_segment_header bs ++ block.serialized;
      } in
      let synced = ap (block_synced options block) (sync_to_disk-quiet options s2 files g refl) in
      let now = block_synced options block (sync_to_disk options s2) in
      let not_now : WriteResult × SegmentBuilder = (wrote (length block.serialized), s2) in
      elim (Bool-cases (leb options.sync_blocks (s.unflushed_blocks + 1))) [
        | inl due ↦
            Appends-via (append_block-open s files bs v ∙ (if_true now not_now due ∙ synced))
              (record { result = refl; open_now = with_block-IsOpen s files bs 0 v })
        | inr later ↦
            Appends-via (append_block-open s files bs v ∙ if_false now not_now later) (record {
              result = refl;
              open_now = with_block-IsOpen s files bs (s.unflushed_blocks + 1) v;
            })
      ]
