-- ===== src/Rtp/Jpeg/Size.antt =====
-- What `parse_jpeg_frame_info` of nxmedia/codec/jpeg_parser reads of a file that `build_jpeg_frame`
-- writes.
use libnx.Common.{
  ℕ, zero, suc, ◌+◌, ◌*◌, ◌/◌, ◌%◌, ◌^◌, ◌≤◌, ◌<◌, ◌==◌, ◌≡◌, refl, Bool, true, false, [], ◌∷◌,
  ◌++◌, some, arith, append_assoc, length, length-append, take, length-take, not, leb, bit_and,
  drop, drop-append, bit_or, ltb, if◌then◌else◌,
}
use libnx.Common.Bits.{bit_or-fields}
use native.Mathlib.Nat.{le_refl}
use libnx.Codec.Jpeg.{
  JpegFrameInfo, marker_loop, round, read_marker, read_segment, skip_padding, parse_jpeg_frame_info,
}
use libnx.Rtp.Types.{Bytes}
use libnx.Rtp.Jpeg.Writing.{write_soi, write_dqt, write_sof0, make_default_quant_tables}
use libnx.Rtp.Jpeg.Depacketizer.{
  RtpJpegDepacketizer, JpegHeader, write_tables, write_rest, write_file,
}

-- The loop over the markers finds `info` from `rest` on.
abbrev pub Finds : Bytes → JpegFrameInfo → Type 0
Finds rest info = (fuel : ℕ) → length rest ≤ fuel → marker_loop fuel rest ≡ some info

word-word_bytes : (n : ℕ) → n < 65536 → bit_or ((n / 2 ^ 8) % 2 ^ 8 * 2 ^ 8) (n % 2 ^ 8) ≡ n
word-word_bytes n h = omega (arith, bit_or-fields 8 ((n / 2 ^ 8) % 2 ^ 8) (n % 2 ^ 8) (omega arith))

abbrev plus : ℕ → ℕ → ℕ
plus zero n = n
plus (suc m) n = suc (plus m n)

-- The SOI marker is skipped.
soi-Finds : (rest : Bytes) (info : JpegFrameInfo) → Finds rest info → Finds (write_soi ++ rest) info
unfolding marker_loop round read_marker skip_padding
soi-Finds rest info found zero h = absurd (omega arith)
soi-Finds rest info found (suc fuel) h = found fuel (omega arith)

-- A DQT segment is skipped.
dqt-Finds :
    (id : ℕ) (table : Bytes) (wide : Bool) (rest : Bytes) (info : JpegFrameInfo)
    → length table < 65533
    → Finds rest info
    → Finds (write_dqt id table wide ++ rest) info
unfolding write_dqt marker_loop round read_marker read_segment skip_padding
dqt-Finds id table wide rest info small found zero h = absurd (omega arith)
dqt-Finds id table wide rest info small found (suc fuel) h =
    let n = (3 + length table % 65536) % 65536 in
    let size : n ≡ suc (suc (suc (length table))) = omega arith in
    let whole : ltb (suc (suc (suc (length (table ++ rest))))) 2 ≡ false = ground arith in
    let behind : drop (length table) (table ++ rest) ≡ rest =
      drop-append table rest (length table) refl in
    rw (whole, word-word_bytes n (omega arith), size, behind)
      (found fuel (omega (arith, length-append table rest)))

-- The size in a SOF0 segment is found.
sof0-Finds :
    (width height type : ℕ) (rest : Bytes)
    → 0 < width
    → width < 65536
    → 0 < height
    → height < 65536
    → Finds
        (write_sof0 width height type ++ rest)
        (record { width = width; height = height; precision = 8; num_components = 3 })
unfolding write_sof0 marker_loop round read_marker read_segment skip_padding
sof0-Finds width height type rest w w' h h' zero l = absurd (omega arith)
sof0-Finds width height type rest w w' h h' (suc fuel) l =
    let two : ltb (plus 17 (length rest)) 2 ≡ false = ground arith in
    let whole : ltb (plus 17 (length rest)) 17 ≡ false = ground arith in
    let wide : ltb 0 width ≡ true = ground arith in
    let high : ltb 0 height ≡ true = ground arith in
    rw (two, whole, word-word_bytes width w', word-word_bytes height h', wide, high) refl

choice-Finds :
    (c : Bool) (x y rest : Bytes) (info : JpegFrameInfo)
    → Finds (x ++ rest) info
    → Finds (y ++ rest) info
    → Finds ((if c then x else y) ++ rest) info
choice-Finds true x y rest info hx hy = hx
choice-Finds false x y rest info hx hy = hy

abbrev table_size : Bool → ℕ
table_size wide = if wide then 128 else 64

length-table :
    (wide : Bool) (quant_data : Bytes) → length (take (table_size wide) quant_data) < 65533
length-table true quant_data = omega (arith, length-take 128 quant_data)
length-table false quant_data = omega (arith, length-take 64 quant_data)

-- The tables of a stream, if there are enough of them.
module _ (luma_16bit chroma_16bit : Bool) (quant_data : Bytes) where
  abbrev luma : Bytes
  luma = take (table_size luma_16bit) quant_data

  abbrev behind_luma : Bytes
  behind_luma = drop (table_size luma_16bit) quant_data

  abbrev second_segment : Bytes
  second_segment =
      if leb (table_size luma_16bit + table_size chroma_16bit) (length quant_data)
      then write_dqt 1 (take (table_size chroma_16bit) behind_luma) chroma_16bit
      else write_dqt 1 luma luma_16bit

  stream-Finds :
      (rest : Bytes) (info : JpegFrameInfo)
      → Finds rest info
      → Finds
          ((if ltb (length quant_data) (table_size luma_16bit)
              then []
              else write_dqt 0 luma luma_16bit ++ second_segment)
            ++ rest)
          info
  stream-Finds rest info found =
      choice-Finds _ [] (write_dqt 0 luma luma_16bit ++ second_segment) rest info found (
        rw (append_assoc (write_dqt 0 luma luma_16bit) second_segment rest) (
          dqt-Finds 0 luma luma_16bit _ info (length-table luma_16bit quant_data) (
            choice-Finds _ _ _ rest info
              (dqt-Finds 1 _ chroma_16bit rest info (length-table chroma_16bit behind_luma) found)
              (dqt-Finds 1 luma luma_16bit rest info (length-table luma_16bit quant_data) found))))

length-default :
    (q : ℕ)
    → (length (make_default_quant_tables q).0 ≡ 64) × (length (make_default_quant_tables q).1 ≡ 64)
unfolding make_default_quant_tables
length-default q = (refl, refl)

-- So are the DQT segments that `write_tables` writes, whatever the tables.
tables-Finds :
    (precision q : ℕ) (quant_data rest : Bytes) (info : JpegFrameInfo)
    → Finds rest info
    → Finds (write_tables precision q quant_data ++ rest) info
unfolding write_tables
tables-Finds precision q [] rest info found =
    let (luma_length, chroma_length) = length-default q in
    rw
      (append_assoc (write_dqt 0 (make_default_quant_tables q).0 false)
        (write_dqt 1 (make_default_quant_tables q).1 false) rest)
      (dqt-Finds 0 (make_default_quant_tables q).0 false _ info (omega (arith, luma_length)) (
        dqt-Finds 1 (make_default_quant_tables q).1 false rest info (omega (arith, chroma_length))
          found))
tables-Finds precision q (b ∷ bs) rest info found =
    stream-Finds (not (bit_and precision 1 == 0)) (not (bit_and precision 2 == 0)) (b ∷ bs) rest
      info found

long_enough :
    (s : RtpJpegDepacketizer) (hdr : JpegHeader) (type : ℕ) (quant_data : Bytes)
    → ltb (length (write_file s hdr type quant_data)) 4 ≡ false
unfolding write_file write_sof0
long_enough s hdr type quant_data =
    let tables = write_tables s.cached_precision hdr.q quant_data in
    let others = write_sof0 (hdr.width * 8) (hdr.height * 8) type ++ write_rest s in
    let n = length-append tables others in ground arith

-- A file whose picture has a size is read with this size, 8-bit samples and three components.
pub parse-write_file :
    (s : RtpJpegDepacketizer) (hdr : JpegHeader) (type : ℕ) (quant_data : Bytes)
    → 0 < hdr.width
    → hdr.width < 256
    → 0 < hdr.height
    → hdr.height < 256
    → parse_jpeg_frame_info (write_file s hdr type quant_data)
      ≡ some (record {
        width = hdr.width * 8;
        height = hdr.height * 8;
        precision = 8;
        num_components = 3;
      })
unfolding parse_jpeg_frame_info write_file
parse-write_file s hdr type quant_data w w' h h' =
    let found = tables-Finds s.cached_precision hdr.q quant_data _ _ (
      sof0-Finds (hdr.width * 8) (hdr.height * 8) type (write_rest s) (omega arith) (omega arith)
        (omega arith) (omega arith)) in
    rw (long_enough s hdr type quant_data) (soi-Finds _ _ found _ (le_refl _))
