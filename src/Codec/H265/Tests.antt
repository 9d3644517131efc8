-- ===== src/Codec/H265/Tests.antt =====
-- The parameter set of a picture of 640 by 480 samples with a second sub-layer.
use libnx.Common.{◌≡◌, refl, [], ◌∷◌, arith, replicate}
use libnx.Rtp.Types.{Bytes}
use libnx.Util.BitReader.Stream.{bits_of, value}
use libnx.Codec.NalUnits.{trim_zeros}
use libnx.Codec.NalUnits.Emulation.{prevent_emulation}
use libnx.Codec.H264.{info}
use libnx.Codec.H265.{parse_h265_sps, to_hevc_codec_string, reversal_loop, digits, constraint_str}
use libnx.Codec.H265.SubLayers.{SubLayer, IsSubLayer}
use libnx.Codec.H265.Fields.{Written, IsWritten, sps_bits, fields, parse_h265_sps-written}

abbrev level_only : SubLayer
level_only = record {
  profile_present = 0;
  profile = [];
  level_present = 1;
  level = 0 ∷ 1 ∷ 0 ∷ 1 ∷ 1 ∷ 0 ∷ 1 ∷ 0 ∷ [];
}

abbrev vga : Written
vga = record {
  vps = replicate 4 0;
  sub_layers_minus1 = 0 ∷ 0 ∷ 1 ∷ [];
  nesting = 1;
  profile_space = 0 ∷ 0 ∷ [];
  tier = 0;
  profile = 0 ∷ 0 ∷ 0 ∷ 0 ∷ 1 ∷ [];
  compatibility = 0 ∷ 1 ∷ 1 ∷ replicate 29 0;
  constraint_high = 1 ∷ 0 ∷ 0 ∷ 1 ∷ replicate 28 0;
  constraint_low = replicate 16 0;
  level = 0 ∷ 1 ∷ 0 ∷ 1 ∷ 1 ∷ 1 ∷ 0 ∷ 1 ∷ [];
  sub_layers = level_only ∷ [];
  id = [];
  chroma = 0 ∷ [];
  width = 0 ∷ 1 ∷ 0 ∷ 0 ∷ 0 ∷ 0 ∷ 0 ∷ 0 ∷ 1 ∷ [];
  height = 1 ∷ 1 ∷ 1 ∷ 0 ∷ 0 ∷ 0 ∷ 0 ∷ 1 ∷ [];
  luma = [];
  depth = [];
}

abbrev vga_body : Bytes
vga_body =
    3 ∷ 1 ∷ 96 ∷ 0 ∷ 0 ∷ 0 ∷ 144 ∷ 0 ∷ 0 ∷ 0 ∷ 0 ∷ 0 ∷ 93 ∷ 64 ∷ 1 ∷ 106 ∷ 128 ∷ 20 ∷ 8 ∷ 7 ∷ 133
    ∷ 192 ∷ []

vga_body_bits : bits_of vga_body ≡ sps_bits vga (1 ∷ 0 ∷ 0 ∷ 0 ∷ 0 ∷ 0 ∷ 0 ∷ [])
unfolding bits_of
vga_body_bits = refl

level_only-IsSubLayer : IsSubLayer level_only
level_only-IsSubLayer = record {
  flag_profile = omega arith;
  flag_level = omega arith;
  size_profile = refl;
  size_level = refl;
}

vga-IsWritten : IsWritten vga
unfolding value
vga-IsWritten = record {
  size_vps = refl;
  size_count = refl;
  count = refl;
  few = omega arith;
  size_space = refl;
  tier_flag = omega arith;
  size_profile = refl;
  size_compatibility = refl;
  size_high = refl;
  size_low = refl;
  size_level = refl;
  are_sub_layers = (level_only-IsSubLayer, tt);
  one_plane = refl;
  short_id = omega arith;
  short_chroma = omega arith;
  short_width = omega arith;
  short_height = omega arith;
  short_luma = omega arith;
  short_depth = omega arith;
}

vga_fields : fields vga ≡ record {
  general_profile_idc = 1;
  general_tier_flag = 0;
  general_level_idc = 93;
  general_profile_compatibility_flags = 0x60000000;
  general_constraint_indicator_flags = 0x900000000000;
  width = 640;
  height = 480;
  chroma_format_idc = 1;
  bit_depth_luma = 8;
  bit_depth_chroma = 8;
  sps_max_sub_layers = 2;
}
unfolding value
vga_fields = refl

-- "hev1.1.6.L93.90"
vga_codec_string :
    to_hevc_codec_string (fields vga)
    ≡ 104 ∷ 101 ∷ 118 ∷ 49 ∷ 46 ∷ 49 ∷ 46 ∷ 54 ∷ 46 ∷ 76 ∷ 57 ∷ 51 ∷ 46 ∷ 57 ∷ 48 ∷ []
unfolding to_hevc_codec_string reversal_loop digits constraint_str trim_zeros value
vga_codec_string = refl

parse_h265_sps-written_example :
    parse_h265_sps (0x42 ∷ 1 ∷ prevent_emulation 0 vga_body) ≡ info (fields vga)
parse_h265_sps-written_example =
    parse_h265_sps-written 0x42 1 vga_body vga (1 ∷ 0 ∷ 0 ∷ 0 ∷ 0 ∷ 0 ∷ 0 ∷ []) refl vga-IsWritten
      vga_body_bits (omega arith)
