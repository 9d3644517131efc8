-- ===== src/Codec/H265/Fields.antt =====
-- A sequence parameter set that is written as H.265 (7.3.2.2.1) asks, and its fields as it is parsed.
use libnx.Common.{
  ℕ, ◌+◌, ◌*◌, ◌%◌, ◌^◌, ◌≤◌, ◌<◌, ◌==◌, ◌≡◌, refl, true, false, List, [], ◌∷◌, ◌++◌, arith, length,
  ltb, bit_or, All,
}
use libnx.Rtp.Types.{Bytes}
use libnx.Util.BitReader.{BitReader, construct, skip_bits}
use libnx.Util.BitReader.Stream.{bits_of, value}
use libnx.Codec.NalUnits.Emulation.{
  prevent_emulation, remove-prevent_emulation, length-prevent_emulation,
}
use libnx.Codec.Reading.{
  code, number, At, Gives, ue-Gives, read_bits-At, skip_bits-At, read_bit-At, construct-At,
}
use libnx.Codec.H264.{info}
use libnx.Codec.H265.{
  H265SpsInfo, default_info, h265_nal_type, h265_sps, parse_profile_tier_level, read_window,
  read_picture, read_h265_sps, parse_h265_rbsp, parse_h265_sps,
}
use libnx.Codec.H265.SubLayers.{SubLayer, IsSubLayer, sub_layer_bits, read_sub_layers-Gives}

-- The parts of a parameter set without a conformance window: a field of fixed size by its bits, a code
-- by the bits behind its one.
pub record Written : Type 0 where
  pub vps : Bytes
  pub sub_layers_minus1 : Bytes
  pub nesting : ℕ
  pub profile_space : Bytes
  pub tier : ℕ
  pub profile : Bytes
  pub compatibility : Bytes
  pub constraint_high : Bytes
  pub constraint_low : Bytes
  pub level : Bytes
  pub sub_layers : List SubLayer
  pub id : Bytes
  pub chroma : Bytes
  pub width : Bytes
  pub height : Bytes
  pub luma : Bytes
  pub depth : Bytes

-- From the id on.
abbrev pub picture_bits : Written → Bytes → Bytes
picture_bits w rest =
    code w.id (code w.chroma (code w.width (code w.height (0 ∷ code w.luma (code w.depth rest)))))

abbrev pub tier_bits : Written → Bytes → Bytes
tier_bits w rest =
    w.profile_space
    ++ (w.tier
        ∷ (w.profile
            ++ (w.compatibility
                ++ (w.constraint_high
                    ++ (w.constraint_low ++ (w.level ++ sub_layer_bits w.sub_layers rest))))))

abbrev pub sps_bits : Written → Bytes → Bytes
sps_bits w rest = w.vps ++ (w.sub_layers_minus1 ++ (w.nesting ∷ tier_bits w (picture_bits w rest)))

-- The fields have their sizes, the number of sub-layers is the one that is written, the chroma format
-- is not the one with separate planes, and the codes have 31 leading zeros at most.
pub record IsWritten (w : Written) : Type 0 where
  pub size_vps : length w.vps ≡ 4
  pub size_count : length w.sub_layers_minus1 ≡ 3
  pub count : value 0 w.sub_layers_minus1 ≡ length w.sub_layers
  pub few : length w.sub_layers ≤ 7
  pub size_space : length w.profile_space ≡ 2
  pub tier_flag : w.tier < 2
  pub size_profile : length w.profile ≡ 5
  pub size_compatibility : length w.compatibility ≡ 32
  pub size_high : length w.constraint_high ≡ 32
  pub size_low : length w.constraint_low ≡ 16
  pub size_level : length w.level ≡ 8
  pub are_sub_layers : All IsSubLayer w.sub_layers
  pub one_plane : number w.chroma % 256 == 3 ≡ false
  pub short_id : length w.id ≤ 31
  pub short_chroma : length w.chroma ≤ 31
  pub short_width : length w.width ≤ 31
  pub short_height : length w.height ≤ 31
  pub short_luma : length w.luma ≤ 31
  pub short_depth : length w.depth ≤ 31

-- What profile_tier_level fills in.
abbrev with_tier : H265SpsInfo → Written → H265SpsInfo
with_tier sps w = record sps {
  general_tier_flag = w.tier;
  general_profile_idc = value 0 w.profile;
  general_profile_compatibility_flags = value 0 w.compatibility;
  general_constraint_indicator_flags =
      bit_or (value 0 w.constraint_high * 2 ^ 16) (value 0 w.constraint_low);
  general_level_idc = value 0 w.level;
}

abbrev with_picture : H265SpsInfo → Written → H265SpsInfo
with_picture sps w = record sps {
  chroma_format_idc = number w.chroma % 256;
  width = number w.width;
  height = number w.height;
  bit_depth_luma = (number w.luma + 8) % 2 ^ 32 % 256;
  bit_depth_chroma = (number w.depth + 8) % 2 ^ 32 % 256;
}

-- The fields that were written.
abbrev pub fields : Written → H265SpsInfo
fields w =
    with_picture
      (with_tier (record default_info { sps_max_sub_layers = length w.sub_layers + 1 }) w) w

read_picture-Gives :
    (sps : H265SpsInfo) (w : Written) (rest : Bytes) (r : BitReader)
    → IsWritten w
    → At r (picture_bits w rest)
    → Gives (read_picture sps r) (with_picture sps w) rest
unfolding read_picture read_window
read_picture-Gives sps w rest r v here =
    let (r1, read1, h1) = ue-Gives r w.id _ here v.short_id in
    let (r2, read2, h2) = ue-Gives r1 w.chroma _ h1 v.short_chroma in
    let (r3, read3, h3) = ue-Gives r2 w.width _ h2 v.short_width in
    let (r4, read4, h4) = ue-Gives r3 w.height _ h3 v.short_height in
    let (r5, read5, h5) = read_bit-At r4 0 _ h4 (omega arith) in
    let (r6, read6, h6) = ue-Gives r5 w.luma _ h5 v.short_luma in
    let (r7, read7, h7) = ue-Gives r6 w.depth rest h6 v.short_depth in
    (r7, rw (read1, read2, v.one_plane, read3, read4, read5, read6, read7) refl, h7)

parse_profile_tier_level-Gives :
    (sps : H265SpsInfo) (w : Written) (rest : Bytes) (r : BitReader)
    → IsWritten w
    → At r (tier_bits w rest)
    → Gives (parse_profile_tier_level sps (length w.sub_layers + 1) r) (with_tier sps w) rest
unfolding parse_profile_tier_level
parse_profile_tier_level-Gives sps w rest r v here =
    let h0 = skip_bits-At r 2 w.profile_space _ v.size_space here in
    let (r1, read1, h1) = read_bit-At (skip_bits 2 r) w.tier _ h0 v.tier_flag in
    let (r2, read2, h2) = read_bits-At r1 5 w.profile _ v.size_profile h1 in
    let (r3, read3, h3) = read_bits-At r2 32 w.compatibility _ v.size_compatibility h2 in
    let (r4, read4, h4) = read_bits-At r3 32 w.constraint_high _ v.size_high h3 in
    let (r5, read5, h5) = read_bits-At r4 16 w.constraint_low _ v.size_low h4 in
    let (r6, read6, h6) = read_bits-At r5 8 w.level _ v.size_level h5 in
    let (r7, read7, h7) = read_sub_layers-Gives w.sub_layers rest r6 v.few v.are_sub_layers h6 in
    (r7, rw (read1, read2, read3, read4, read5, read6, read7) refl, h7)

read_h265_sps-Gives :
    (w : Written) (rest : Bytes) (r : BitReader)
    → IsWritten w
    → At r (sps_bits w rest)
    → Gives (read_h265_sps r) (fields w) rest
unfolding read_h265_sps
read_h265_sps-Gives w rest r v here =
    let h1 = skip_bits-At r 4 w.vps _ v.size_vps here in
    let (r2, read2, h2) = read_bits-At (skip_bits 4 r) 3 w.sub_layers_minus1 _ v.size_count h1 in
    let h3 = skip_bits-At r2 1 (w.nesting ∷ []) _ refl h2 in
    let count : (length w.sub_layers + 1) % 256 ≡ length w.sub_layers + 1 = omega (arith, v.few) in
    let sps = record default_info { sps_max_sub_layers = length w.sub_layers + 1 } in
    let (r4, read4, h4) =
      parse_profile_tier_level-Gives sps w (picture_bits w rest) (skip_bits 1 r2) v h3 in
    let (r5, read5, h5) = read_picture-Gives (with_tier sps w) w rest r4 v h4 in
    (r5, rw (read2, v.count, count, read4) read5, h5)

-- A sequence parameter set that is written bit by bit, and protected against start codes behind the two
-- bytes of the header, is parsed to the fields that were written, with any number of sub-layers. It has
-- no conformance window and no separate planes, each field has its size, no code has more than 31
-- leading zeros, and the header is that of a parameter set.
pub parse_h265_sps-written :
    (header header' : ℕ) (body : Bytes) (w : Written) (rest : Bytes)
    → h265_nal_type header == h265_sps ≡ true
    → IsWritten w
    → bits_of body ≡ sps_bits w rest
    → 4 ≤ length body
    → parse_h265_sps (header ∷ header' ∷ prevent_emulation 0 body) ≡ info (fields w)
unfolding parse_h265_sps parse_h265_rbsp
parse_h265_sps-written header header' body w rest sps v written long =
    let (r', read, there) =
      read_h265_sps-Gives w rest (construct body) v (construct-At body (sps_bits w rest) written) in
    let four : ltb (length body) 4 ≡ false = ground arith in
    let four' : ltb (length (header ∷ header' ∷ prevent_emulation 0 body)) 4 ≡ false =
      ground (arith, length-prevent_emulation 0 body) in
    rw (four', sps, remove-prevent_emulation body, four, read) refl
