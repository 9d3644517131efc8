-- ===== src/Codec/H264/Tests.antt =====
-- The parameter set of a picture of 640 by 480 samples.
use libnx.Common.{◌≡◌, refl, [], ◌∷◌, arith}
use libnx.Rtp.Types.{Bytes}
use libnx.Util.BitReader.Stream.{bits_of, value}
use libnx.Codec.NalUnits.Emulation.{prevent_emulation}
use libnx.Codec.H264.{info, parse_h264_sps, to_avc_codec_string}
use libnx.Codec.H264.Order.{in_cycle}
use libnx.Codec.H264.Size.{Written, IsShort, sps_bits, fields, size_of, parse_h264_sps-written}

abbrev vga : Written
vga = record {
  id = [];
  log2_frame_num = [];
  order = in_cycle 0 [] [] (1 ∷ []) ((0 ∷ []) ∷ [] ∷ []);
  ref_frames = 0 ∷ [];
  gaps = 0;
  width_minus1 = 0 ∷ 1 ∷ 0 ∷ 0 ∷ 0 ∷ [];
  height_minus1 = 1 ∷ 1 ∷ 1 ∷ 0 ∷ [];
  direct = 1;
}

-- Behind the fields are a stop bit and three bytes that need protection.
abbrev vga_body : Bytes
vga_body = 0xd3 ∷ 0x6a ∷ 0x80 ∷ 0xa0 ∷ 0x3d ∷ 0xa0 ∷ 0 ∷ 0 ∷ 1 ∷ []

vga_body_bits : bits_of vga_body ≡ sps_bits vga (1 ∷ 0 ∷ 0 ∷ 0 ∷ 0 ∷ 0 ∷ bits_of (0 ∷ 0 ∷ 1 ∷ []))
unfolding bits_of
vga_body_bits = refl

vga_width : size_of vga.width_minus1 ≡ 640
unfolding value
vga_width = refl

vga_height : size_of vga.height_minus1 ≡ 480
unfolding value
vga_height = refl

vga-IsShort : IsShort vga
unfolding value
vga-IsShort = record {
  short_id = omega arith;
  short_frame_num = omega arith;
  short_order = (omega arith, omega arith, omega arith, refl, (omega arith, (omega arith, tt)));
  short_ref_frames = omega arith;
  short_width = omega arith;
  short_height = omega arith;
}

-- "avc1.42C01E"
vga_codec_string :
    to_avc_codec_string (fields 66 0xc0 30 vga)
    ≡ 97 ∷ 118 ∷ 99 ∷ 49 ∷ 46 ∷ 52 ∷ 50 ∷ 67 ∷ 48 ∷ 49 ∷ 69 ∷ []
unfolding to_avc_codec_string
vga_codec_string = refl

parse_h264_sps-written_example :
    parse_h264_sps (0x67 ∷ prevent_emulation 0 (66 ∷ 0xc0 ∷ 30 ∷ vga_body))
    ≡ info (record (fields 66 0xc0 30 vga) {
      width = size_of vga.width_minus1;
      height = size_of vga.height_minus1;
    })
parse_h264_sps-written_example =
    parse_h264_sps-written 0x67 66 0xc0 30 vga_body vga
      (1 ∷ 0 ∷ 0 ∷ 0 ∷ 0 ∷ 0 ∷ bits_of (0 ∷ 0 ∷ 1 ∷ [])) refl refl vga-IsShort vga_body_bits
      (omega (arith, vga_width)) (omega (arith, vga_height))
