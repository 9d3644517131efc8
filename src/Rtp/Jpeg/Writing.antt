-- ===== src/Rtp/Jpeg/Writing.antt =====
-- The segments of a JPEG file as nxnet/rtp/rtp_jpeg_depacketizer.cpp writes them: each function gives
-- the bytes that the member of its name appends to the buffer.
use libnx.Common.{
  ℕ, ◌+◌, ◌-◌, ◌*◌, ◌/◌, ◌%◌, ◌^◌, ◌==◌, max, min, Bool, ◌||◌, [], ◌∷◌, ◌++◌, map, length, ltb,
  bit_and, bit_or, if◌then◌else◌,
}
use libnx.Rtp.Types.{Bytes}
use libnx.Codec.Jpeg.Tables.{
  dc_luma_bits, dc_luma_values, dc_chroma_bits, dc_chroma_values, ac_luma_bits, ac_luma_values,
  ac_chroma_bits, ac_chroma_values,
}
use libnx.Rtp.Jpeg.Tables.{default_luma_quant_table, default_chroma_quant_table}

-- The two bytes of a `uint16_t`, the high one first.
abbrev pub word_bytes : ℕ → Bytes
word_bytes n = (n / 2 ^ 8) % 2 ^ 8 ∷ n % 2 ^ 8 ∷ []

abbrev pub write_soi : Bytes
write_soi = 0xff ∷ 0xd8 ∷ []

abbrev pub write_eoi : Bytes
write_eoi = 0xff ∷ 0xd9 ∷ []

unfoldable pub write_dqt : ℕ → Bytes → Bool → Bytes
write_dqt table_id table precision_16bit =
    0xff
    ∷ 0xdb
    ∷ (word_bytes ((2 + 1 + length table % 2 ^ 16) % 2 ^ 16)
        ++ (bit_or (if precision_16bit then 0x10 else 0) (bit_and table_id 0x0f) ∷ table))

unfoldable pub write_sof0 : ℕ → ℕ → ℕ → Bytes
write_sof0 width height type =
    let is_422 = type == 1 || type == 65 in
    0xff
    ∷ 0xc0
    ∷ (word_bytes (2 + 1 + 2 + 2 + 1 + 3 * 3)
        ++ (8
            ∷ (word_bytes height
                ++ (word_bytes width
                    ++ (3
                        ∷ 1
                        ∷ (if is_422 then 0x21 else 0x22)
                        ∷ 0
                        ∷ 2
                        ∷ 0x11
                        ∷ 1
                        ∷ 3
                        ∷ 0x11
                        ∷ 1
                        ∷ [])))))

abbrev pub write_huffman_table : ℕ → Bytes → Bytes → Bytes
write_huffman_table class_id bits values = class_id ∷ (bits ++ values)

unfoldable pub write_dht : Bytes
write_dht =
    let total_len =
      2
      + (1 + 16 + length dc_luma_values)
      + (1 + 16 + length dc_chroma_values)
      + (1 + 16 + length ac_luma_values)
      + (1 + 16 + length ac_chroma_values) in
    0xff
    ∷ 0xc4
    ∷ (word_bytes total_len
        ++ (write_huffman_table 0x00 dc_luma_bits dc_luma_values
            ++ (write_huffman_table 0x01 dc_chroma_bits dc_chroma_values
                ++ (write_huffman_table 0x10 ac_luma_bits ac_luma_values
                    ++ write_huffman_table 0x11 ac_chroma_bits ac_chroma_values))))

unfoldable pub write_dri : ℕ → Bytes
write_dri restart_interval = 0xff ∷ 0xdd ∷ 0x00 ∷ 0x04 ∷ word_bytes restart_interval

unfoldable pub write_sos : Bytes
write_sos =
    0xff
    ∷ 0xda
    ∷ (word_bytes (2 + 1 + 3 * 2 + 3)
        ++ (3 ∷ 1 ∷ 0x00 ∷ 2 ∷ 0x11 ∷ 3 ∷ 0x11 ∷ 0x00 ∷ 0x3f ∷ 0x00 ∷ []))

unfoldable pub quant_factor : ℕ → ℕ
quant_factor q =
    if ltb q 1 then 5000 else if ltb q 50 then 5000 / q else if ltb q 100 then 200 - q * 2 else 1

-- `std::clamp(v, 1, 255)` of a scaled entry.
unfoldable pub scaled : ℕ → ℕ → ℕ
scaled factor entry = max 1 (min 255 ((entry * factor + 50) / 100))

-- The two tables that `make_default_quant_tables` fills.
unfoldable pub make_default_quant_tables : ℕ → Bytes × Bytes
unfolding scaled quant_factor
make_default_quant_tables q = (
  map (scaled (quant_factor q)) default_luma_quant_table,
  map (scaled (quant_factor q)) default_chroma_quant_table,
)
