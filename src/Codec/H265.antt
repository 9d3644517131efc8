-- ===== src/Codec/H265.antt =====
-- nxmedia/codec/h265_parser.cpp. The parser is a chain of reads; `undefined` is the shift of `read_ue`
-- past its type. A text is its ASCII codes.
pub mod SubLayers
pub mod Fields
mod Tests
use libnx.Common.{
  ℕ, zero, suc, ◌+◌, ◌-◌, ◌*◌, ◌/◌, ◌%◌, ◌^◌, ◌==◌, Bool, true, false, not, ◌&&◌, ◌||◌, List, [],
  ◌∷◌, ◌++◌, Option, none, some, length, get_or, drop, ltb, leb, bit_and, bit_or, if◌then◌else◌,
}
use libnx.Rtp.Types.{Bytes}
use libnx.Util.BitReader.{BitReader, construct}
use libnx.Codec.NalUnits.{parse_nal_units, remove_emulation_prevention, trim_zeros}
use libnx.Codec.Reading.{Reading, pure, ◌>>=◌, ◌>>◌, ue, bit, bits, skip}
use libnx.Codec.H264.{Parsed, nothing, parsed_of, sub_32, hex_digit}

abbrev pub h265_nal_type : ℕ → ℕ
h265_nal_type nal_header = bit_and (nal_header / 2) 0x3f

abbrev pub h265_sps : ℕ
h265_sps = 33

pub record H265SpsInfo : Type 0 where
  pub general_profile_idc : ℕ
  pub general_tier_flag : ℕ
  pub general_level_idc : ℕ
  pub general_profile_compatibility_flags : ℕ
  pub general_constraint_indicator_flags : ℕ
  pub width : ℕ
  pub height : ℕ
  pub chroma_format_idc : ℕ
  pub bit_depth_luma : ℕ
  pub bit_depth_chroma : ℕ
  pub sps_max_sub_layers : ℕ

abbrev pub default_info : H265SpsInfo
default_info = record {
  general_profile_idc = 0;
  general_tier_flag = 0;
  general_level_idc = 0;
  general_profile_compatibility_flags = 0;
  general_constraint_indicator_flags = 0;
  width = 0;
  height = 0;
  chroma_format_idc = 1;
  bit_depth_luma = 8;
  bit_depth_chroma = 8;
  sps_max_sub_layers = 1;
}

-- The two vectors of flags, as one list of pairs.
unfoldable pub read_presence : ℕ → Reading (List (ℕ × ℕ))
read_presence zero = pure []
read_presence (suc count) = do
  profile_present ← bit
  level_present ← bit
  flags ← read_presence count
  pure ((profile_present, level_present) ∷ flags)

unfoldable pub skip_sub_layers : List (ℕ × ℕ) → Reading (Unit {0})
skip_sub_layers [] = pure tt
skip_sub_layers ((profile_present, level_present) ∷ flags) = do
  (if profile_present == 0 then pure 0 else skip (2 + 1 + 5 + 32 + 48))
  (if level_present == 0 then pure 0 else skip 8)
  skip_sub_layers flags

unfoldable pub read_sub_layers : ℕ → Reading (Unit {0})
unfolding read_presence skip_sub_layers
read_sub_layers max_sub_layers =
    if ltb 1 max_sub_layers
    then (do
      flags ← read_presence (max_sub_layers - 1)
      (if ltb max_sub_layers 8 then skip (2 * (8 - max_sub_layers)) else pure 0)
      skip_sub_layers flags)
    else pure tt

unfoldable pub parse_profile_tier_level : H265SpsInfo → ℕ → Reading H265SpsInfo
unfolding read_sub_layers
parse_profile_tier_level sps max_sub_layers = do
  skip 2
  tier ← bit
  profile ← bits 5
  compatibility ← bits 32
  constraint_high ← bits 32
  constraint_low ← bits 16
  level ← bits 8
  read_sub_layers max_sub_layers
  pure (record sps {
    general_tier_flag = tier;
    general_profile_idc = profile;
    general_profile_compatibility_flags = compatibility;
    general_constraint_indicator_flags = bit_or (constraint_high * 2 ^ 16) constraint_low;
    general_level_idc = level;
  })

-- The conformance window.
unfoldable pub read_window : H265SpsInfo → Reading H265SpsInfo
read_window sps = do
  conformance_window ← bit
  (if conformance_window == 0 then pure sps else (do
    crop_left ← ue
    crop_right ← ue
    crop_top ← ue
    crop_bottom ← ue
    let c = sps.chroma_format_idc
    let sub_width_c = if c == 1 || c == 2 then 2 else 1
    let sub_height_c = if c == 1 then 2 else 1
    pure (record sps {
      width = sub_32 sps.width ((crop_left + crop_right) * sub_width_c);
      height = sub_32 sps.height ((crop_top + crop_bottom) * sub_height_c);
    })))

-- From the id of the parameter set on.
unfoldable pub read_picture : H265SpsInfo → Reading H265SpsInfo
unfolding read_window
read_picture sps = do
  ue
  chroma ← ue
  (if chroma % 256 == 3 then skip 1 else pure 0)
  width ← ue
  height ← ue
  sps' ←
      read_window (record sps { chroma_format_idc = chroma % 256; width = width; height = height })
  luma ← ue
  depth ← ue
  pure (record sps' {
    bit_depth_luma = (luma + 8) % 2 ^ 32 % 256;
    bit_depth_chroma = (depth + 8) % 2 ^ 32 % 256;
  })

unfoldable pub read_h265_sps : Reading H265SpsInfo
unfolding parse_profile_tier_level read_picture
read_h265_sps = do
  skip 4
  sub_layers_minus1 ← bits 3
  skip 1
  let sub_layers = (sub_layers_minus1 + 1) % 256
  sps ←
      parse_profile_tier_level (record default_info { sps_max_sub_layers = sub_layers }) sub_layers
  read_picture sps

unfoldable pub parse_h265_rbsp : Bytes → Parsed H265SpsInfo
unfolding read_h265_sps
parse_h265_rbsp rbsp =
    if ltb (length rbsp) 4 then nothing else parsed_of (read_h265_sps (construct rbsp))

unfoldable pub parse_h265_sps : Bytes → Parsed H265SpsInfo
unfolding parse_h265_rbsp
parse_h265_sps sps_data =
    if ltb (length sps_data) 4
    then nothing
    else if not (h265_nal_type (get_or sps_data 0 0) == h265_sps)
    then nothing
    else parse_h265_rbsp (remove_emulation_prevention (drop 2 sps_data))

unfoldable pub first_h265_sps : List Bytes → Parsed H265SpsInfo
unfolding parse_h265_sps
first_h265_sps [] = nothing
first_h265_sps (nal ∷ nals) =
    let later = first_h265_sps nals in
    if h265_nal_type (get_or nal 0 0) == h265_sps then parse_h265_sps nal else later

unfoldable pub find_and_parse_h265_sps : Bytes → Parsed H265SpsInfo
unfolding first_h265_sps
find_and_parse_h265_sps bytes = first_h265_sps (parse_nal_units bytes)

-- Bit `i` of the flags goes to bit `31 - i`, for `count` bits from `i` on.
unfoldable pub reversal_loop : ℕ → ℕ → ℕ → ℕ → ℕ
reversal_loop zero i flags reversed = reversed
reversal_loop (suc count) i flags reversed =
    reversal_loop count (i + 1) flags
      (if bit_and flags (2 ^ i) == 0 then reversed else bit_or reversed (2 ^ (31 - i)))

-- The digits of a number, at most as many as the fuel: `{}` and `{:X}`.
unfoldable pub digits : ℕ → ℕ → ℕ → Bytes
digits base zero n = []
digits base (suc fuel) n =
    let front = digits base fuel (n / base) in
    if ltb n base then hex_digit n ∷ [] else front ++ (hex_digit (n % base) ∷ [])

-- The first byte, and those up to the last that is not zero.
abbrev pub constraint_bytes : ℕ → Bytes
constraint_bytes flags =
    flags / 2 ^ 40 % 256
    ∷ trim_zeros (
        flags / 2 ^ 32 % 256
        ∷ flags / 2 ^ 24 % 256
        ∷ flags / 2 ^ 16 % 256
        ∷ flags / 2 ^ 8 % 256
        ∷ flags % 256
        ∷ [])

-- Each byte behind a point.
unfoldable pub constraint_str : Bytes → Bytes
unfolding digits
constraint_str [] = []
constraint_str (b ∷ bs) = 46 ∷ (digits 16 2 b ++ constraint_str bs)

unfoldable pub to_hevc_codec_string : H265SpsInfo → Bytes
unfolding reversal_loop digits constraint_str
to_hevc_codec_string sps =
    let reversed = reversal_loop 32 0 sps.general_profile_compatibility_flags 0 in
    104
    ∷ 101
    ∷ 118
    ∷ 49
    ∷ 46
    ∷ (digits 10 3 sps.general_profile_idc
        ++ (46
            ∷ (digits 16 8 reversed
                ++ (46
                    ∷ (if sps.general_tier_flag == 0 then 76 else 72)
                    ∷ (digits 10 3 sps.general_level_idc
                        ++ constraint_str
                            (constraint_bytes sps.general_constraint_indicator_flags))))))
