-- ===== src/Codec/Jpeg/Tests.antt =====
-- Readers and files for the theorems on the JPEG parser.
use libnx.Common.{◌≡◌, ◌<◌, refl, [], ◌∷◌, arith, some}
use libnx.Rtp.Types.{Bytes}
use libnx.Codec.Jpeg.{
  parse_jpeg_frame_info, marker_loop, round, read_marker, skip_padding, read_segment, reader_of,
  decode_huffman_symbol,
}
use libnx.Codec.Jpeg.Tables.{dc_luma_bits, dc_luma_values}
use libnx.Codec.Jpeg.Symbols.{IfSome, decode_huffman_symbol-IfSome}
use libnx.Codec.Jpeg.Termination.{Searches, parse_jpeg_frame_info-Searches}

-- Padding, a segment of four bytes, and the SOF2 segment of a 16 by 9 picture.
abbrev small_file : Bytes
small_file =
    0xff ∷ 0xd8 ∷ 0xff ∷ 0xff ∷ 0xe0 ∷ 0 ∷ 4 ∷ 1 ∷ 2 ∷ 0xff ∷ 0xc2 ∷ 0 ∷ 8 ∷ 8 ∷ 0 ∷ 9 ∷ 0 ∷ 16 ∷ 1
    ∷ []

small_file_size :
    parse_jpeg_frame_info small_file
    ≡ some (record { width = 16; height = 9; precision = 8; num_components = 1 })
unfolding parse_jpeg_frame_info marker_loop round read_marker skip_padding read_segment
small_file_size = refl

-- The category of a DC coefficient is 11 at most.
decode_huffman_symbol-IfSome_example :
    IfSome
      (λ n. n < 12)
      (decode_huffman_symbol (reader_of (0xa5 ∷ 0x3c ∷ [])) dc_luma_bits dc_luma_values).1
decode_huffman_symbol-IfSome_example =
    decode_huffman_symbol-IfSome (λ n. n < 12) (reader_of (0xa5 ∷ 0x3c ∷ [])) dc_luma_bits
      dc_luma_values (omega arith) (ground arith)

parse_jpeg_frame_info-Searches_example : Searches small_file (parse_jpeg_frame_info small_file)
parse_jpeg_frame_info-Searches_example = parse_jpeg_frame_info-Searches small_file (omega arith)
