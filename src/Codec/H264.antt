-- ===== src/Codec/H264.antt =====
-- nxmedia/codec/h264_parser.cpp. The parser is a chain of reads; `undefined` is the shift of `read_ue`
-- past its type, or an overflow of the `int` sum in the scaling lists. The numbers of `read_ue` are
-- below 2 ^ 32 and the sums with them wrap around.
pub mod Order
pub mod Size
mod Tests
use libnx.Common.{
  ℕ, zero, suc, ◌+◌, ◌-◌, ◌*◌, ◌/◌, ◌%◌, ◌^◌, ◌==◌, Bool, true, false, not, ◌&&◌, ◌||◌, List, [],
  ◌∷◌, ◌++◌, Option, none, some, length, get_or, drop, ltb, leb, bit_and, if◌then◌else◌,
}
use libnx.Rtp.Types.{Bytes}
use libnx.Util.BitReader.{BitReader, construct, ℤ, pos, negsuc, negated}
use libnx.Codec.NalUnits.{parse_nal_units, remove_emulation_prevention}
use libnx.Codec.Reading.{Reading, pure, ◌>>=◌, ◌>>◌, ue, se, bit, skip}

abbrev pub h264_nal_type : ℕ → ℕ
h264_nal_type nal_header = bit_and nal_header 0x1f

abbrev pub nal_sps : ℕ
nal_sps = 7

pub record H264SpsInfo : Type 0 where
  pub profile_idc : ℕ
  pub constraint_set_flags : ℕ
  pub level_idc : ℕ
  pub width : ℕ
  pub height : ℕ
  pub sps_id : ℕ
  pub chroma_format_idc : ℕ
  pub bit_depth_luma : ℕ
  pub bit_depth_chroma : ℕ
  pub log2_max_frame_num : ℕ
  pub pic_order_cnt_type : ℕ

-- `std::optional`, or no defined result.
pub data Parsed (A : Type 0) : Type 0 where
  undefined nothing : Parsed A
  info : A → Parsed A

abbrev pos_part : ℤ → ℕ
pos_part (pos n) = n
pos_part (negsuc n) = 0

abbrev neg_part : ℤ → ℕ
neg_part (pos n) = 0
neg_part (negsuc n) = suc n

-- An `int` sum, where it does not overflow.
unfoldable pub int_sum : ℤ → ℤ → Option ℤ
int_sum a b =
    let up = pos_part a + pos_part b in
    let down = neg_part a + neg_part b in
    if leb down up
    then (if ltb (up - down) (2 ^ 31) then some (pos (up - down)) else none)
    else if leb (down - up) (2 ^ 31)
    then some (negsuc (down - up - 1))
    else none

-- `%` of C++, which keeps the sign.
abbrev int_rem : ℤ → ℕ → ℤ
int_rem (pos n) m = pos (n % m)
int_rem (negsuc n) m = negated (suc n % m)

abbrev is_zero : ℤ → Bool
is_zero (pos zero) = true
is_zero _ = false

abbrev checked : Option ℤ → Reading ℤ
checked none r = none
checked (some n) r = some (n, r)

-- `(last_scale + delta + 256) % 256`
unfoldable pub next_scale : ℤ → Reading ℤ
next_scale last_scale = do
  delta ← se
  sum ← checked (int_sum last_scale delta)
  sum' ← checked (int_sum sum (pos 256))
  pure (int_rem sum' 256)

-- The rounds that are left of the loop.
unfoldable pub scaling_loop : ℕ → ℤ → ℤ → Reading (Unit {0})
unfolding next_scale
scaling_loop zero last_scale next = pure tt
scaling_loop (suc size) last_scale next = do
  next' ← (if is_zero next then pure next else next_scale last_scale)
  scaling_loop size (if is_zero next' then last_scale else next') next'

unfoldable pub skip_scaling_list : ℕ → Reading (Unit {0})
unfolding scaling_loop
skip_scaling_list size = scaling_loop size (pos 8) (pos 8)

-- The loop over the lists, from list `i` on.
unfoldable pub scaling_lists : ℕ → ℕ → Reading (Unit {0})
unfolding skip_scaling_list
scaling_lists zero i = pure tt
scaling_lists (suc count) i = do
  list_present ← bit
  (if list_present == 0 then pure tt else skip_scaling_list (if ltb i 6 then 16 else 64))
  scaling_lists count (i + 1)

abbrev pub has_chroma_info : ℕ → Bool
has_chroma_info p =
    p == 100
    || p == 110
    || p == 122
    || p == 244
    || p == 44
    || p == 83
    || p == 86
    || p == 118
    || p == 128
    || p == 138
    || p == 139
    || p == 134
    || p == 135

-- The chroma format and the two bit depths.
abbrev pub ChromaInfo : Type 0
ChromaInfo = ℕ × (ℕ × ℕ)

unfoldable pub read_chroma_info : Reading ChromaInfo
unfolding scaling_lists
read_chroma_info = do
  chroma ← ue
  (if chroma % 256 == 3 then skip 1 else pure 0)
  luma ← ue
  depth ← ue
  skip 1
  scaling_matrix_present ← bit
  (if scaling_matrix_present == 0
      then pure tt
      else scaling_lists (if chroma % 256 == 3 then 12 else 8) 0)
  pure (chroma % 256, ((luma + 8) % 2 ^ 32 % 256, (depth + 8) % 2 ^ 32 % 256))

unfoldable pub skip_offsets : ℕ → Reading (Unit {0})
skip_offsets zero = pure tt
skip_offsets (suc num_ref) = do se; skip_offsets num_ref

unfoldable pub skip_order_count : ℕ → Reading (Unit {0})
unfolding skip_offsets
skip_order_count pic_order_cnt_type =
    if pic_order_cnt_type == 0
    then (do ue; pure tt)
    else if pic_order_cnt_type == 1
    then (do skip 1; se; se; num_ref ← ue; skip_offsets num_ref)
    else pure tt

-- The left, right, top and bottom of the cropping.
abbrev pub Crop : Type 0
Crop = ℕ × (ℕ × (ℕ × ℕ))

unfoldable pub read_crop : Reading Crop
read_crop = do
  frame_cropping ← bit
  (if frame_cropping == 0 then pure (0, (0, (0, 0))) else (do
    crop_left ← ue
    crop_right ← ue
    crop_top ← ue
    crop_bottom ← ue
    pure (crop_left, (crop_right, (crop_top, crop_bottom)))))

-- Of `uint32_t`.
abbrev pub sub_32 : ℕ → ℕ → ℕ
sub_32 a b = (a % 2 ^ 32 + (2 ^ 32 - b % 2 ^ 32)) % 2 ^ 32

unfoldable pub picture_width : ℕ → ℕ → Crop → ℕ
picture_width chroma pic_width_in_mbs (l, (r, (t, b))) =
    let crop_unit_x = if chroma == 1 || chroma == 2 then 2 else 1 in
    sub_32 (pic_width_in_mbs * 16) (crop_unit_x * (l + r))

unfoldable pub picture_height : ℕ → ℕ → ℕ → Crop → ℕ
picture_height chroma pic_height_in_map_units frame_mbs_only (l, (r, (t, b))) =
    let crop_unit_y = (2 - frame_mbs_only) * (if chroma == 1 then 2 else 1) in
    sub_32 (pic_height_in_map_units * 16 * (2 - frame_mbs_only)) (crop_unit_y * (t + b))

unfoldable pub read_size : H264SpsInfo → Reading H264SpsInfo
unfolding read_crop
read_size sps = do
  ue
  skip 1
  width_minus1 ← ue
  height_minus1 ← ue
  frame_mbs_only ← bit
  (if frame_mbs_only == 0 then skip 1 else pure 0)
  skip 1
  crop ← read_crop
  pure (record sps {
    width = picture_width sps.chroma_format_idc ((width_minus1 + 1) % 2 ^ 32) crop;
    height =
        picture_height sps.chroma_format_idc ((height_minus1 + 1) % 2 ^ 32) frame_mbs_only crop;
  })

-- What the chroma information is where the profile has none.
abbrev pub default_chroma : ChromaInfo
default_chroma = (1, (8, 8))

-- From the id of the parameter set on.
unfoldable pub read_sps : ℕ → ℕ → ℕ → Reading H264SpsInfo
unfolding read_chroma_info skip_order_count read_size
read_sps profile_idc constraint_set_flags level_idc = do
  sps_id ← ue
  (chroma, (luma, depth)) ←
      (if has_chroma_info profile_idc then read_chroma_info else pure default_chroma)
  log2_minus4 ← ue
  order_type ← ue
  skip_order_count (order_type % 256)
  read_size (record {
    profile_idc = profile_idc;
    constraint_set_flags = constraint_set_flags;
    level_idc = level_idc;
    width = 0;
    height = 0;
    sps_id = sps_id % 256;
    chroma_format_idc = chroma;
    bit_depth_luma = luma;
    bit_depth_chroma = depth;
    log2_max_frame_num = (log2_minus4 + 4) % 2 ^ 32 % 256;
    pic_order_cnt_type = order_type % 256;
  })

abbrev pub parsed_of : {A : Type 0} → Option (A × BitReader) → Parsed A
parsed_of none = undefined
parsed_of (some (sps, r)) = info sps

unfoldable pub parse_rbsp : Bytes → Parsed H264SpsInfo
unfolding read_sps
parse_rbsp (profile_idc ∷ flags ∷ level_idc ∷ rest) =
    parsed_of (read_sps profile_idc flags level_idc (construct rest))
parse_rbsp _ = nothing

unfoldable pub parse_h264_sps : Bytes → Parsed H264SpsInfo
unfolding parse_rbsp
parse_h264_sps sps_data =
    if ltb (length sps_data) 4
    then nothing
    else if not (h264_nal_type (get_or sps_data 0 0) == nal_sps)
    then nothing
    else parse_rbsp (remove_emulation_prevention (drop 1 sps_data))

unfoldable pub first_sps : List Bytes → Parsed H264SpsInfo
unfolding parse_h264_sps
first_sps [] = nothing
first_sps (nal ∷ nals) =
    let later = first_sps nals in
    if h264_nal_type (get_or nal 0 0) == nal_sps then parse_h264_sps nal else later

unfoldable pub find_and_parse_h264_sps : Bytes → Parsed H264SpsInfo
unfolding first_sps
find_and_parse_h264_sps bytes = first_sps (parse_nal_units bytes)

-- `{:X}` of a number below 16, and `{:02X}` of a byte, in ASCII.
abbrev pub hex_digit : ℕ → ℕ
hex_digit n = if ltb n 10 then 48 + n else 55 + n

abbrev hex_byte : ℕ → Bytes
hex_byte n = hex_digit (n / 16) ∷ hex_digit (n % 16) ∷ []

-- "avc1." and the three bytes.
unfoldable pub to_avc_codec_string : H264SpsInfo → Bytes
to_avc_codec_string sps =
    97
    ∷ 118
    ∷ 99
    ∷ 49
    ∷ 46
    ∷ (hex_byte sps.profile_idc ++ (hex_byte sps.constraint_set_flags ++ hex_byte sps.level_idc))
