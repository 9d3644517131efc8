-- ===== src/Codec/H264/Size.antt =====
-- A sequence parameter set that is written as H.264 (7.3.2.1.1) asks, and its size as it is parsed.
use libnx.Common.{
  ℕ, ◌+◌, ◌*◌, ◌%◌, ◌^◌, ◌≤◌, ◌<◌, ◌==◌, ◌≡◌, refl, ap, true, false, ◌∷◌, arith, length, ltb,
}
use libnx.Rtp.Types.{Bytes}
use libnx.Util.BitReader.{BitReader, construct, skip_bits}
use libnx.Util.BitReader.Stream.{bits_of}
use libnx.Codec.NalUnits.Emulation.{
  prevent_emulation, remove-prevent_emulation, length-prevent_emulation,
}
use libnx.Codec.Reading.{code, number, At, Gives, ue-Gives, skip-At, read_bit-At, construct-At}
use libnx.Codec.H264.{
  H264SpsInfo, info, has_chroma_info, read_crop, picture_width, picture_height, read_size, read_sps,
  parse_rbsp, parse_h264_sps, nal_sps, h264_nal_type,
}
use libnx.Codec.H264.Order.{
  OrderCount, IsShortOrder, kind_info, kind, order_bits, skip_order_count-Gives, number-kind,
  length-kind,
}

-- The parts of a parameter set of a progressive picture without cropping, in a profile without chroma
-- information: each code by the bits behind its one.
pub record Written : Type 0 where
  pub id : Bytes
  pub log2_frame_num : Bytes
  pub order : OrderCount
  pub ref_frames : Bytes
  pub gaps : ℕ
  pub width_minus1 : Bytes
  pub height_minus1 : Bytes
  pub direct : ℕ

-- From the size on.
abbrev pub size_bits : Written → Bytes → Bytes
size_bits w rest =
    code w.ref_frames
      (w.gaps ∷ code w.width_minus1 (code w.height_minus1 (1 ∷ w.direct ∷ 0 ∷ rest)))

abbrev pub sps_bits : Written → Bytes → Bytes
sps_bits w rest =
    code w.id
      (code w.log2_frame_num (code (kind_info w.order) (order_bits w.order (size_bits w rest))))

-- The codes have 31 leading zeros at most.
pub record IsShort (w : Written) : Type 0 where
  pub short_id : length w.id ≤ 31
  pub short_frame_num : length w.log2_frame_num ≤ 31
  pub short_order : IsShortOrder w.order
  pub short_ref_frames : length w.ref_frames ≤ 31
  pub short_width : length w.width_minus1 ≤ 31
  pub short_height : length w.height_minus1 ≤ 31

abbrev with_size : H264SpsInfo → Written → H264SpsInfo
with_size sps w = record sps {
  width =
      picture_width sps.chroma_format_idc ((number w.width_minus1 + 1) % 2 ^ 32) (0, (0, (0, 0)));
  height =
      picture_height sps.chroma_format_idc ((number w.height_minus1 + 1) % 2 ^ 32) 1
        (0, (0, (0, 0)));
}

read_size-Gives :
    (sps : H264SpsInfo) (w : Written) (rest : Bytes) (r : BitReader)
    → IsShort w
    → At r (size_bits w rest)
    → Gives (read_size sps r) (with_size sps w) rest
unfolding read_size read_crop
read_size-Gives sps w rest r short here =
    let (r1, read1, h1) = ue-Gives r w.ref_frames _ here short.short_ref_frames in
    let h2 = skip-At r1 w.gaps _ h1 in
    let (r3, read3, h3) = ue-Gives (skip_bits 1 r1) w.width_minus1 _ h2 short.short_width in
    let (r4, read4, h4) = ue-Gives r3 w.height_minus1 _ h3 short.short_height in
    let (r5, read5, h5) = read_bit-At r4 1 _ h4 (omega arith) in
    let h6 = skip-At r5 w.direct _ h5 in
    let (r7, read7, h7) = read_bit-At (skip_bits 1 r5) 0 rest h6 (omega arith) in
    (r7, rw (read1, read3, read4, read5, read7) refl, h7)

-- The fields of a parameter set that is parsed, but for the size.
abbrev pub fields : ℕ → ℕ → ℕ → Written → H264SpsInfo
fields profile_idc flags level_idc w = record {
  profile_idc = profile_idc;
  constraint_set_flags = flags;
  level_idc = level_idc;
  width = 0;
  height = 0;
  sps_id = number w.id % 256;
  chroma_format_idc = 1;
  bit_depth_luma = 8;
  bit_depth_chroma = 8;
  log2_max_frame_num = (number w.log2_frame_num + 4) % 2 ^ 32 % 256;
  pic_order_cnt_type = kind w.order;
}

read_sps-Gives :
    (profile_idc flags level_idc : ℕ) (w : Written) (rest : Bytes) (r : BitReader)
    → has_chroma_info profile_idc ≡ false
    → IsShort w
    → At r (sps_bits w rest)
    → Gives
        (read_sps profile_idc flags level_idc r)
        (with_size (fields profile_idc flags level_idc w) w)
        rest
unfolding read_sps
read_sps-Gives profile_idc flags level_idc w rest r plain short here =
    let (r1, read1, h1) = ue-Gives r w.id _ here short.short_id in
    let (r2, read2, h2) = ue-Gives r1 w.log2_frame_num _ h1 short.short_frame_num in
    let (r3, read3, h3) = ue-Gives r2 (kind_info w.order) _ h2 (length-kind w.order) in
    let (r4, read4, h4) = skip_order_count-Gives w.order _ r3 short.short_order h3 in
    let (r5, read5, h5) =
      read_size-Gives (fields profile_idc flags level_idc w) w rest r4 short h4 in
    (r5, rw (read1, plain, read2, read3, number-kind w.order, read4) read5, h5)

abbrev pub size_of : Bytes → ℕ
size_of minus1 = (number minus1 + 1) * 16

picture_width-plain :
    (minus1 : Bytes)
    → size_of minus1 < 2 ^ 32
    → picture_width 1 ((number minus1 + 1) % 2 ^ 32) (0, (0, (0, 0))) ≡ size_of minus1
unfolding picture_width
picture_width-plain minus1 wide =
    let n = number minus1 in
    let same : (n + 1) % 2 ^ 32 ≡ n + 1 = omega arith in rw same (omega arith)

picture_height-plain :
    (minus1 : Bytes)
    → size_of minus1 < 2 ^ 32
    → picture_height 1 ((number minus1 + 1) % 2 ^ 32) 1 (0, (0, (0, 0))) ≡ size_of minus1
unfolding picture_height
picture_height-plain minus1 high =
    let n = number minus1 in
    let same : (n + 1) % 2 ^ 32 ≡ n + 1 = omega arith in rw same (omega arith)

with_size-fields :
    (profile_idc flags level_idc : ℕ) (w : Written)
    → size_of w.width_minus1 < 2 ^ 32
    → size_of w.height_minus1 < 2 ^ 32
    → with_size (fields profile_idc flags level_idc w) w
      ≡ record (fields profile_idc flags level_idc w) {
        width = size_of w.width_minus1;
        height = size_of w.height_minus1;
      }
with_size-fields profile_idc flags level_idc w wide high =
    rw (picture_width-plain w.width_minus1 wide, picture_height-plain w.height_minus1 high) refl

-- A sequence parameter set that is written bit by bit behind its three first bytes, and protected
-- against start codes, is parsed to the fields that were written and to the size in samples. The
-- profile is one without chroma information; the picture is progressive and without cropping; the order
-- count is of any of the three kinds. The header byte has the type 7, no code has more than 31 leading
-- zeros and the size fits 32 bits.
pub parse_h264_sps-written :
    (header profile_idc flags level_idc : ℕ) (body : Bytes) (w : Written) (rest : Bytes)
    → h264_nal_type header == nal_sps ≡ true
    → has_chroma_info profile_idc ≡ false
    → IsShort w
    → bits_of body ≡ sps_bits w rest
    → size_of w.width_minus1 < 2 ^ 32
    → size_of w.height_minus1 < 2 ^ 32
    → parse_h264_sps (header ∷ prevent_emulation 0 (profile_idc ∷ flags ∷ level_idc ∷ body))
      ≡ info (record (fields profile_idc flags level_idc w) {
        width = size_of w.width_minus1;
        height = size_of w.height_minus1;
      })
unfolding parse_h264_sps parse_rbsp
parse_h264_sps-written header profile_idc flags level_idc body w rest sps plain short written wide
      high =
    let (r', read, there) =
      read_sps-Gives profile_idc flags level_idc w rest (construct body) plain short
        (construct-At body (sps_bits w rest) written) in
    let four : ltb (length (header ∷ prevent_emulation 0 (profile_idc ∷ flags ∷ level_idc ∷ body)))
          4
        ≡ false =
      ground (arith, length-prevent_emulation 0 (profile_idc ∷ flags ∷ level_idc ∷ body)) in
    rw (four, sps, remove-prevent_emulation (profile_idc ∷ flags ∷ level_idc ∷ body), read)
      (ap info (with_size-fields profile_idc flags level_idc w wide high))
