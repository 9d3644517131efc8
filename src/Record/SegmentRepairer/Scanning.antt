-- ===== src/Record/SegmentRepairer/Scanning.antt =====
-- Reading back the blocks that the block builder makes.
use libnx.Common.{
  ℕ, ◌+◌, ◌-◌, ◌^◌, ◌<◌, ◌≤◌, ◌≡◌, refl, ap, ◌∙◌, sym, false, List, ◌∷◌, ◌++◌, some, arith, length,
  length-append, append_assoc, take, drop, drop-append, drop-add, All, ltb,
}
use libnx.Rtp.Types.{Bytes}
use libnx.Record.Types.{BlockHeader, BlockEntryBuffer}
use libnx.Record.Layout.{le_bytes, block_header_bytes, end_magic_bytes}
use libnx.Record.Layout.Codec.{le_number, le_number-le_bytes, length-end_magic_bytes}
use libnx.Record.BlockBuilder.{Context, entries_size, block_header}
use libnx.Record.BlockBuilder.Block.{
  IsFormed, content, block_bytes, length-block_bytes, total_size-fits,
}
use libnx.Record.SegmentRepairer.{number_at, block_at}

-- Reading behind a part of the file.
pub number_at-behind :
    (pre bytes : Bytes) (k w : ℕ)
    → number_at (length pre + k) w (pre ++ bytes) ≡ number_at k w bytes
unfolding number_at
number_at-behind pre bytes k w =
    ap (λ t. le_number (take w t))
      (drop-add (length pre) k (pre ++ bytes)
        ∙ ap (drop k) (drop-append pre bytes (length pre) refl))

-- A block header of which every field fits its width.
pub record FitsHeader (h : BlockHeader) : Type 0 where
  pub flags : h.flags < 2 ^ 32
  pub length : h.length < 2 ^ 32
  pub start : h.start_timestamp < 2 ^ 64
  pub end : h.end_timestamp < 2 ^ 64

pub record ReadsHeader (h : BlockHeader) (bytes : Bytes) : Type 0 where
  pub magic : number_at 0 2 bytes ≡ 0xfff1
  pub flags : number_at 4 4 bytes ≡ h.flags
  pub size : number_at 8 4 bytes ≡ h.length
  pub start : number_at 12 8 bytes ≡ h.start_timestamp
  pub end : number_at 20 8 bytes ≡ h.end_timestamp

pub block_header_bytes-ReadsHeader :
    (h : BlockHeader) (rest : Bytes) → FitsHeader h → ReadsHeader h (block_header_bytes h ++ rest)
unfolding block_header_bytes le_bytes number_at le_number
block_header_bytes-ReadsHeader h rest f = record {
  magic = refl;
  flags = le_number-le_bytes 4 h.flags f.flags;
  size = le_number-le_bytes 4 h.length f.length;
  start = le_number-le_bytes 8 h.start_timestamp f.start;
  end = le_number-le_bytes 8 h.end_timestamp f.end;
}

-- The magic number at the end of a block.
number_at-end :
    (front rest : Bytes) → number_at (length front) 2 (front ++ (end_magic_bytes ++ rest)) ≡ 0xfffb
unfolding number_at end_magic_bytes le_bytes le_number
number_at-end front rest =
    ap (λ t. le_number (take 2 t)) (drop-append front (0xfb ∷ 0xff ∷ rest) (length front) refl)

-- A block with that header stands at the offset.
pub record Stands (h : BlockHeader) (offset : ℕ) (file : Bytes) : Type 0 where
  pub magic : number_at offset 2 file ≡ 0xfff1
  pub flags : number_at (offset + 4) 4 file ≡ h.flags
  pub size : number_at (offset + 8) 4 file ≡ h.length
  pub start : number_at (offset + 12) 8 file ≡ h.start_timestamp
  pub end : number_at (offset + 20) 8 file ≡ h.end_timestamp
  pub end_magic : number_at (offset + h.length - 2) 2 file ≡ 0xfffb
  pub least : 30 ≤ h.length
  pub whole : offset + h.length ≤ length file

block_at-Stands :
    (h : BlockHeader) (offset : ℕ) (file : Bytes)
    → Stands h offset file
    → block_at offset file ≡ some h
unfolding block_at
block_at-Stands h offset file v =
    let a : ltb (length file) (offset + 28) ≡ false = ground (arith, v.least, v.whole) in
    let b : ltb h.length 30 ≡ false = ground (arith, v.least) in
    let c : ltb (length file) (offset + h.length) ≡ false = ground (arith, v.whole) in
    simp (v.magic, v.size, v.end_magic, v.flags, v.start, v.end, a, b, c) refl

-- The bytes of a block with what stands around it.
abbrev pub around : Bytes → Context → List BlockEntryBuffer → Bytes → Bytes
around pre ctx es rest = pre ++ (block_bytes ctx es ++ rest)

module _ (pre rest : Bytes) (ctx : Context) (es : List BlockEntryBuffer) (formed : All IsFormed es)
    (fits : 30 + entries_size es < 2 ^ 32) (header_fits : FitsHeader (block_header ctx es)) where
  abbrev pub behind_header : Bytes
  behind_header = (content es ++ end_magic_bytes) ++ rest

  around-header :
      around pre ctx es rest ≡ pre ++ (block_header_bytes (block_header ctx es) ++ behind_header)
  around-header =
      ap (λ t. pre ++ t)
        (append_assoc (block_header_bytes (block_header ctx es)) (content es ++ end_magic_bytes)
          rest)

  around-end :
      around pre ctx es rest
      ≡ (pre ++ (block_header_bytes (block_header ctx es) ++ content es))
        ++ (end_magic_bytes ++ rest)
  around-end =
      let h = block_header_bytes (block_header ctx es) in
      ap (λ t. pre ++ t)
        (append_assoc h (content es ++ end_magic_bytes) rest
          ∙ (ap (λ t. h ++ t) (append_assoc (content es) end_magic_bytes rest)
              ∙ sym (append_assoc h (content es) (end_magic_bytes ++ rest))))
      ∙ sym (append_assoc pre (h ++ content es) (end_magic_bytes ++ rest))

  pub in_block :
      (k w : ℕ)
      → number_at (length pre + k) w (around pre ctx es rest)
        ≡ number_at k w (block_header_bytes (block_header ctx es) ++ behind_header)
  in_block k w =
      ap (number_at (length pre + k) w) around-header
      ∙ number_at-behind pre (block_header_bytes (block_header ctx es) ++ behind_header) k w

  pub block-Stands : Stands (block_header ctx es) (length pre) (around pre ctx es rest)
  block-Stands =
      let h = block_header ctx es in
      let bytes = block_header_bytes h ++ behind_header in
      let r = block_header_bytes-ReadsHeader h behind_header header_fits in
      let front = pre ++ (block_header_bytes h ++ content es) in
      let size : h.length ≡ length (block_bytes ctx es) =
        total_size-fits es fits ∙ sym (length-block_bytes ctx es formed) in
      let front_size : length pre + h.length - 2 ≡ length front = omega (
        arith,
        size,
        length-append pre (block_header_bytes h ++ content es),
        length-append (block_header_bytes h) (content es),
        length-append (block_header_bytes h) (content es ++ end_magic_bytes),
        length-append (content es) end_magic_bytes,
        length-end_magic_bytes,
      ) in
      let zero_off : length pre ≡ length pre + 0 = omega arith in
      record {
        magic =
            ap (λ n. number_at n 2 (around pre ctx es rest)) zero_off ∙ (in_block 0 2 ∙ r.magic);
        flags = in_block 4 4 ∙ r.flags;
        size = in_block 8 4 ∙ r.size;
        start = in_block 12 8 ∙ r.start;
        end = in_block 20 8 ∙ r.end;
        end_magic =
            ap (λ n. number_at n 2 (around pre ctx es rest)) front_size
            ∙ (ap (number_at (length front) 2) around-end ∙ number_at-end front rest);
        least = omega (arith, total_size-fits es fits);
        whole = omega (
          arith,
          size,
          length-append pre (block_bytes ctx es ++ rest),
          length-append (block_bytes ctx es) rest,
        );
      }

  pub block_at-block : block_at (length pre) (around pre ctx es rest) ≡ some (block_header ctx es)
  block_at-block =
      block_at-Stands (block_header ctx es) (length pre) (around pre ctx es rest) block-Stands
