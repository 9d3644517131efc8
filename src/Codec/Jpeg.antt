-- ===== src/Codec/Jpeg.antt =====
-- nxmedia/codec/jpeg_parser: the size of a picture from its SOF segment, and the kind of chroma
-- subsampling by trial decoding of the scan data. A position in the data is the list of the bytes from
-- it on. The loop over the markers recurs on fuel; each round goes on by a byte at least, so the size
-- of the data is enough. A block has 63 AC coefficients, and each round of its loop counts one at
-- least, so 63 rounds are enough.
pub mod Tables
pub mod Symbols
pub mod Termination
mod Tests
use libnx.Common.{
  ℕ, zero, suc, ◌+◌, ◌-◌, ◌*◌, ◌/◌, ◌%◌, ◌^◌, ◌==◌, Bool, true, false, not, ◌&&◌, ◌||◌, [], ◌∷◌,
  Option, none, some, length, get_or, drop, leb, ltb, bit_and, bit_or, if◌then◌else◌,
}
use libnx.Rtp.Types.{Bytes}
use libnx.Codec.Jpeg.Tables.{
  dc_luma_bits, dc_luma_values, dc_chroma_bits, dc_chroma_values, ac_luma_bits, ac_luma_values,
  ac_chroma_bits, ac_chroma_values,
}

pub record JpegFrameInfo : Type 0 where
  pub width : ℕ
  pub height : ℕ
  pub precision : ℕ
  pub num_components : ℕ

pub data JpegSubsampling : Type 0 where
  yuv420 yuv422 : JpegSubsampling

abbrev pub is_sof_marker : ℕ → Bool
is_sof_marker marker = marker == 0xc0 || marker == 0xc1 || marker == 0xc2

-- `(data[i] << 8) | data[i + 1]`
abbrev pub word_at : Bytes → ℕ → ℕ
word_at bytes i = bit_or (get_or bytes i 0 * 2 ^ 8) (get_or bytes (i + 1) 0)

-- What a round of the loop over the markers does: it ends the search, or goes on from a position.
pub data Round : Type 0 where
  ends : Option JpegFrameInfo → Round
  continues : Bytes → Round

abbrev sof_info : Bytes → JpegFrameInfo
sof_info segment = record {
  width = word_at segment 5;
  height = word_at segment 3;
  precision = get_or segment 2 0;
  num_components = get_or segment 7 0;
}

-- From `segment_len` on; `segment` begins with the length.
unfoldable pub read_segment : ℕ → Bytes → Round
read_segment marker segment =
    let segment_len = word_at segment 0 in
    let info = sof_info segment in
    if is_sof_marker marker
    then (if ltb segment_len 8 || ltb (length segment) segment_len
        then ends none
        else if ltb 0 info.width && ltb 0 info.height
        then ends (some info)
        else continues (drop segment_len segment))
    else continues (drop segment_len segment)

-- From the 0xFF on that is followed by something else, or ends the bytes.
unfoldable pub read_marker : Bytes → Round
read_marker (prefix ∷ marker ∷ rest) =
    if marker == 0xd8 || marker == 0xd9
    then continues rest
    else if marker == 0xda
    then ends none
    else if ltb (length rest) 2
    then ends none
    else read_segment marker rest
read_marker _ = ends none

-- The inner loop, which skips all but the last of several 0xFF.
unfoldable pub skip_padding : Bytes → Bytes
skip_padding (a ∷ b ∷ rest) =
    let skipped = skip_padding (b ∷ rest) in if b == 0xff then skipped else a ∷ b ∷ rest
skip_padding bytes = bytes

unfoldable pub round : Bytes → Round
round (a ∷ b ∷ rest) =
    if not (a == 0xff) then continues (b ∷ rest) else read_marker (skip_padding (a ∷ b ∷ rest))
round _ = ends none

abbrev pub after : Round → (Bytes → Option JpegFrameInfo) → Option JpegFrameInfo
after (ends info) search = info
after (continues bytes) search = search bytes

unfoldable pub marker_loop : ℕ → Bytes → Option JpegFrameInfo
marker_loop zero bytes = none
marker_loop (suc fuel) bytes = after (round bytes) (marker_loop fuel)

unfoldable pub parse_jpeg_frame_info : Bytes → Option JpegFrameInfo
parse_jpeg_frame_info bytes =
    if ltb (length bytes) 4 then none else marker_loop (length bytes) bytes

-- `bytes` is what `byte_pos` has left.
pub record JpegBitReader : Type 0 where
  pub bytes : Bytes
  pub bits_left : ℕ
  pub current_byte : ℕ
  pub error : Bool

-- The failure of a read, which leaves the reader with its error flag set.
abbrev fail : JpegBitReader → JpegBitReader × Option ℕ
fail r = (record r { error = true }, none)

-- `bits_left--; return (current_byte >> bits_left) & 1;`
abbrev take_bit : JpegBitReader → JpegBitReader × Option ℕ
take_bit r =
    (record r { bits_left = r.bits_left - 1 }, some (r.current_byte / 2 ^ (r.bits_left - 1) % 2))

-- A new byte; a 0xFF has to be followed by the stuffed 0.
unfoldable pub next_byte : JpegBitReader → Bytes → JpegBitReader × Option ℕ
next_byte r [] = fail r
next_byte r (b ∷ []) =
    let r' : JpegBitReader = record r { bytes = []; current_byte = b } in
    if b == 0xff then fail r' else take_bit (record r' { bits_left = 8 })
next_byte r (b ∷ c ∷ rest) =
    let r' : JpegBitReader = record r { bytes = c ∷ rest; current_byte = b } in
    if b == 0xff
    then (if c == 0 then take_bit (record r' { bytes = rest; bits_left = 8 }) else fail r')
    else take_bit (record r' { bits_left = 8 })

unfoldable pub read_bit : JpegBitReader → JpegBitReader × Option ℕ
unfolding next_byte
read_bit r = if r.bits_left == 0 then next_byte r r.bytes else take_bit r

abbrev pub then_on {ℓ} :
    {A : Type ℓ}
    → JpegBitReader × Option ℕ
    → (JpegBitReader → ℕ → JpegBitReader × Option A)
    → JpegBitReader × Option A
then_on (r, none) f = (r, none)
then_on (r, some n) f = f r n

-- The rest of the bits, behind the number read so far.
unfoldable pub bits_loop : ℕ → ℕ → JpegBitReader → JpegBitReader × Option ℕ
bits_loop zero value r = (r, some value)
bits_loop (suc n) value r = then_on (read_bit r) (λ r' bit. bits_loop n (bit_or (value * 2) bit) r')

unfoldable pub read_bits : ℕ → JpegBitReader → JpegBitReader × Option ℕ
read_bits n r = bits_loop n 0 r

-- The loop over the lengths of codes; `counts` is what `bits_counts` has left from `len - 1` on. The
-- code and the first code are `uint16_t`.
unfoldable pub symbol_loop :
    ℕ → Bytes → Bytes → ℕ → ℕ → ℕ → JpegBitReader → JpegBitReader × Option ℕ
symbol_loop zero counts values code value_idx first_code r = (r, none)
symbol_loop (suc left) counts values code value_idx first_code r = then_on (read_bit r) λ r' bit.
    let code' = bit_or (code * 2) bit % 2 ^ 16 in
    let count = get_or counts 0 0 in
    let next =
      symbol_loop left (drop 1 counts) values code' (value_idx + count)
        ((first_code + count) * 2 % 2 ^ 16) r' in
    if ltb 0 count && leb first_code code' && ltb (code' - first_code) count
    then (r', some (get_or values (value_idx + (code' - first_code)) 0))
    else next

unfoldable pub decode_huffman_symbol : JpegBitReader → Bytes → Bytes → JpegBitReader × Option ℕ
decode_huffman_symbol r bits_counts values = symbol_loop 16 bits_counts values 0 0 0 r

abbrev pub succeeded : Option ℕ → Bool
succeeded none = false
succeeded (some n) = true

-- `size > 0 && reader.read_bits(size) < 0`, negated: the bits behind a symbol are there.
unfoldable pub skip_value : ℕ → JpegBitReader → JpegBitReader × Bool
skip_value zero r = (r, true)
skip_value (suc n) r = let (r', value) = read_bits (suc n) r in (r', succeeded value)

-- What a round of the loop over the AC coefficients does: it ends the block, with the result of
-- `try_decode_block`, or goes on with a count.
pub data BlockRound : Type 0 where
  block_ends : Bool → BlockRound
  counts_to : ℕ → BlockRound

abbrev pub unless_cut : ℕ → JpegBitReader × Bool → JpegBitReader × BlockRound
unless_cut ac_count (r, false) = (r, block_ends false)
unless_cut ac_count (r, true) = (r, counts_to ac_count)

unfoldable pub ac_symbol : ℕ → JpegBitReader × Option ℕ → JpegBitReader × BlockRound
ac_symbol ac_count (r, none) = (r, block_ends false)
ac_symbol ac_count (r, some sym) =
    let ac_count' = ac_count + (sym / 16 % 16 + 1) in
    if sym == 0
    then (r, block_ends true)
    else if ltb 63 ac_count'
    then (r, block_ends false)
    else unless_cut ac_count' (skip_value (bit_and sym 0x0f) r)

unfoldable pub ac_round : Bytes → Bytes → ℕ → JpegBitReader → JpegBitReader × BlockRound
ac_round bits values ac_count r =
    if ltb ac_count 63
    then ac_symbol ac_count (decode_huffman_symbol r bits values)
    else (r, block_ends true)

abbrev pub block_on :
    JpegBitReader × BlockRound → (ℕ → JpegBitReader → JpegBitReader × Bool) → JpegBitReader × Bool
block_on (r, block_ends ok) f = (r, ok)
block_on (r, counts_to n) f = f n r

unfoldable pub ac_loop : ℕ → Bytes → Bytes → ℕ → JpegBitReader → JpegBitReader × Bool
ac_loop zero bits values ac_count r = (r, true)
ac_loop (suc fuel) bits values ac_count r =
    block_on (ac_round bits values ac_count r) (ac_loop fuel bits values)

-- `ok = step(reader)` where what came before has succeeded.
abbrev pub if_ok :
    JpegBitReader × Bool → (JpegBitReader → JpegBitReader × Bool) → JpegBitReader × Bool
if_ok (r, false) f = (r, false)
if_ok (r, true) f = f r

unfoldable pub dc_value : JpegBitReader × Option ℕ → JpegBitReader × Bool
dc_value (r, none) = (r, false)
dc_value (r, some dc_size) = skip_value dc_size r

-- The loop starts at 0, so that 63 rounds bring it to its end, and one more tests the count.
unfoldable pub try_decode_block :
    JpegBitReader → Bytes → Bytes → Bytes → Bytes → JpegBitReader × Bool
try_decode_block r dc_bits dc_values ac_bits ac_values =
    if_ok (dc_value (decode_huffman_symbol r dc_bits dc_values)) (ac_loop 64 ac_bits ac_values 0)

unfoldable pub luma_blocks : ℕ → JpegBitReader → JpegBitReader × Bool
luma_blocks zero r = (r, true)
luma_blocks (suc n) r =
    if_ok (try_decode_block r dc_luma_bits dc_luma_values ac_luma_bits ac_luma_values)
      (luma_blocks n)

abbrev pub chroma_block : JpegBitReader → JpegBitReader × Bool
chroma_block r = try_decode_block r dc_chroma_bits dc_chroma_values ac_chroma_bits ac_chroma_values

unfoldable pub decode_mcu : ℕ → JpegBitReader → JpegBitReader × Bool
decode_mcu y_blocks r = if_ok (if_ok (luma_blocks y_blocks r) chroma_block) chroma_block

abbrev pub count_on : JpegBitReader × Bool → (JpegBitReader → ℕ) → ℕ
count_on (r, false) f = 0
count_on (r, true) f = suc (f r)

-- The units that can be decoded; `left` of them at most.
unfoldable pub mcu_loop : ℕ → ℕ → JpegBitReader → ℕ
mcu_loop zero y_blocks r = 0
mcu_loop (suc left) y_blocks r =
    if r.error then 0 else count_on (decode_mcu y_blocks r) (mcu_loop left y_blocks)

abbrev pub reader_of : Bytes → JpegBitReader
reader_of scan_data = record { bytes = scan_data; bits_left = 0; current_byte = 0; error = false }

unfoldable pub try_decode_mcus : Bytes → ℕ → ℕ → ℕ
try_decode_mcus scan_data y_blocks_per_mcu most =
    mcu_loop most y_blocks_per_mcu (reader_of scan_data)

abbrev pub max_mcus : ℕ
max_mcus = 10000

unfoldable pub detect_jpeg_subsampling : Bytes → JpegSubsampling
detect_jpeg_subsampling scan_data =
    if ltb (try_decode_mcus scan_data 2 max_mcus) (try_decode_mcus scan_data 4 max_mcus)
    then yuv420
    else yuv422
