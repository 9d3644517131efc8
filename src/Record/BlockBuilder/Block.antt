-- ===== src/Record/BlockBuilder/Block.antt =====
-- The block that entries make: when it is defined, and what it holds.
use libnx.Common.{
  ◌+◌, ◌^◌, ◌<◌, ◌≡◌, refl, List, [], ◌∷◌, ◌++◌, some, map, arith, length, length-append, All,
  take_all,
}
use libnx.Rtp.Types.{Bytes}
use libnx.Record.Types.{BlockEntryBuffer, DataBlock}
use libnx.Record.Layout.{entry_bytes, copied_header, block_header_bytes, end_magic_bytes}
use libnx.Record.Layout.Codec.{length-block_header_bytes, length-end_magic_bytes}
use libnx.Record.BlockBuilder.{
  Context, payload_bytes, entries_size, copied_entries, total_size, block_header, make_block,
}

-- The header size is that of the entry's struct, and the size of the payload fits 32 bits.
pub record IsFormed (e : BlockEntryBuffer) : Type 0 where
  pub header : e.entry.header_size ≡ length (entry_bytes e.entry)
  pub payload : length (payload_bytes e.payload) < 2 ^ 32

unfoldable pub content : List BlockEntryBuffer → Bytes
content [] = []
content (e ∷ es) = entry_bytes e.entry ++ (payload_bytes e.payload ++ content es)

abbrev pub block_bytes : Context → List BlockEntryBuffer → Bytes
block_bytes ctx es = block_header_bytes (block_header ctx es) ++ (content es ++ end_magic_bytes)

abbrev pub block : Context → List BlockEntryBuffer → DataBlock
block ctx es = record {
  header = some (block_header ctx es);
  entries = map (λ e. e.entry) es;
  serialized = block_bytes ctx es;
}

copied_header-formed :
    (e : BlockEntryBuffer) → IsFormed e → copied_header e.entry ≡ some (entry_bytes e.entry)
unfolding copied_header
copied_header-formed e h =
    ground (arith, h.header, take_all (entry_bytes e.entry) e.entry.header_size)

copied_entries-formed :
    (es : List BlockEntryBuffer) → All IsFormed es → copied_entries es ≡ some (content es)
unfolding copied_entries content
copied_entries-formed [] h = refl
copied_entries-formed (e ∷ es) h =
    ground (arith, copied_header-formed e h.0, copied_entries-formed es h.1)

length-content :
    (es : List BlockEntryBuffer) → All IsFormed es → length (content es) ≡ entries_size es
unfolding content entries_size
length-content [] h = refl
length-content (e ∷ es) h =
    let p = h.0.header in
    let q = h.0.payload in
    omega (
      arith,
      length-append (entry_bytes e.entry) (payload_bytes e.payload ++ content es),
      length-append (payload_bytes e.payload) (content es),
      length-content es h.1,
    )

pub length-block_bytes :
    (ctx : Context) (es : List BlockEntryBuffer)
    → All IsFormed es
    → length (block_bytes ctx es) ≡ 30 + entries_size es
length-block_bytes ctx es h = omega (
  arith,
  length-append (block_header_bytes (block_header ctx es)) (content es ++ end_magic_bytes),
  length-append (content es) end_magic_bytes,
  length-block_header_bytes (block_header ctx es),
  length-end_magic_bytes,
  length-content es h,
)

pub total_size-fits :
    (es : List BlockEntryBuffer)
    → 30 + entries_size es < 2 ^ 32
    → total_size es ≡ 30 + entries_size es
total_size-fits es fits = omega arith

pub make_block-formed :
    (ctx : Context) (es : List BlockEntryBuffer)
    → All IsFormed es
    → 30 + entries_size es < 2 ^ 32
    → make_block ctx es ≡ some (block ctx es)
unfolding make_block
make_block-formed ctx es h fits =
    ground (arith, copied_entries-formed es h, length-block_bytes ctx es h, total_size-fits es fits)
