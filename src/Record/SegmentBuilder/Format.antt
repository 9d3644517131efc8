-- ===== src/Record/SegmentBuilder/Format.antt =====
-- A segment file as a whole: its header, its blocks, the index of those with a key frame, and the footer.
use libnx.Common.{
  ℕ, ◌+◌, ◌≡◌, ap, ◌∙◌, sym, List, [], ◌∷◌, ◌++◌, none, some, arith, length, length-append,
  append_assoc, append-nil,
}
use libnx.Rtp.Types.{Bytes}
use libnx.Record.Types.{BlockHeader, DataBlock, IndexEntry, SegmentHeader}
use libnx.Record.Layout.{index_entry_bytes, segment_header_bytes, footer_bytes}
use libnx.Record.SegmentBuilder.{index_of}

unfoldable pub blocks_bytes : List DataBlock → Bytes
blocks_bytes [] = []
blocks_bytes (b ∷ bs) = b.serialized ++ blocks_bytes bs

unfoldable pub index_of_blocks : ℕ → List DataBlock → List IndexEntry
index_of_blocks offset [] = []
index_of_blocks offset (b ∷ bs) =
    elim b.header [ none ↦ [] | some h ↦ index_of offset h b.entries ]
    ++ index_of_blocks (offset + length b.serialized) bs

unfoldable pub index_bytes : List IndexEntry → Bytes
index_bytes [] = []
index_bytes (e ∷ es) = index_entry_bytes e ++ index_bytes es

abbrev pub open_content : SegmentHeader → List DataBlock → Bytes
open_content header bs = segment_header_bytes header ++ blocks_bytes bs

-- The bytes of a file that was closed.
abbrev pub segment_file : SegmentHeader → List DataBlock → Bytes
segment_file header bs =
    let indices = index_of_blocks 20 bs in
    (open_content header bs ++ index_bytes indices) ++ footer_bytes (length indices)

pub blocks_bytes-append :
    (bs : List DataBlock) (b : DataBlock)
    → blocks_bytes (bs ++ (b ∷ [])) ≡ blocks_bytes bs ++ b.serialized
unfolding blocks_bytes
blocks_bytes-append [] b = append-nil b.serialized
blocks_bytes-append (x ∷ bs) b =
    ap (λ t. x.serialized ++ t) (blocks_bytes-append bs b)
    ∙ sym (append_assoc x.serialized (blocks_bytes bs) b.serialized)

pub index_of_blocks-append :
    (offset : ℕ) (bs : List DataBlock) (b : DataBlock) (h : BlockHeader)
    → b.header ≡ some h
    → index_of_blocks offset (bs ++ (b ∷ []))
      ≡ index_of_blocks offset bs ++ index_of (offset + length (blocks_bytes bs)) h b.entries
unfolding index_of_blocks blocks_bytes
index_of_blocks-append offset [] b h p =
    let e : offset + 0 ≡ offset = omega arith in
    rw e (simp p (append-nil (index_of offset h b.entries)))
index_of_blocks-append offset (x ∷ bs) b h p =
    let first : List IndexEntry = elim x.header [
      | none ↦ []
      | some h' ↦ index_of offset h' x.entries
    ] in
    let e : (offset + length x.serialized) + length (blocks_bytes bs)
        ≡ offset + length (x.serialized ++ blocks_bytes bs) =
      omega (arith, length-append x.serialized (blocks_bytes bs)) in
    ap (λ t. first ++ t) (index_of_blocks-append (offset + length x.serialized) bs b h p)
    ∙ (sym (append_assoc first (index_of_blocks (offset + length x.serialized) bs) _)
        ∙ ap
            (λ n.
              (first ++ index_of_blocks (offset + length x.serialized) bs)
              ++ index_of n h b.entries)
            e)
