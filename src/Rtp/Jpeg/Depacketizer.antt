-- ===== src/Rtp/Jpeg/Depacketizer.antt =====
-- RtpJpegDepacketizer (nxnet/rtp/rtp_jpeg_depacketizer.cpp). `detected_type` is `none` for -1. The
-- detection of the subsampling is that of Codec/Jpeg. No access leaves its span or vector.
use libnx.Common.{
  ℕ, ◌+◌, ◌-◌, ◌*◌, ◌%◌, ◌^◌, ◌==◌, Bool, true, false, not, ◌&&◌, ◌||◌, [], ◌∷◌, ◌++◌, Option, none,
  some, length, get_or, take, drop, replicate, leb, ltb, bit_and, bit_or, if◌then◌else◌,
}
use libnx.Codec.Jpeg.{JpegSubsampling, yuv420, yuv422, word_at, detect_jpeg_subsampling}
use libnx.Rtp.Types.{Bytes, RtpHeaderView}
use libnx.Rtp.Extension.{is_empty}
use libnx.Rtp.Depacketizer.{RtpDepacketizer, report_unknown_nal, reset_error_count}
use libnx.Rtp.H264.Depacketizer.{Output}
use libnx.Rtp.Jpeg.Writing.{
  write_soi, write_eoi, write_dqt, write_sof0, write_dht, write_dri, write_sos,
  make_default_quant_tables,
}

pub record JpegHeader : Type 0 where
  pub type_specific : ℕ
  pub fragment_offset : ℕ
  pub type : ℕ
  pub q : ℕ
  pub width : ℕ
  pub height : ℕ

pub record RestartMarkerHeader : Type 0 where
  pub restart_interval : ℕ
  pub f_l_restart_count : ℕ

pub record RtpJpegDepacketizer : Type 0 where
  pub base : RtpDepacketizer
  pub scan_data : Bytes
  pub quant_tables : Bytes
  pub quant_tables_cached : Bool
  pub cached_q : ℕ
  pub cached_precision : ℕ
  pub current_header : JpegHeader
  pub restart_header : RestartMarkerHeader
  pub has_restart_header : Bool
  pub frame_started : Bool
  pub last_timestamp : ℕ
  pub detected_type : Option ℕ

abbrev pub empty_header : JpegHeader
empty_header = record {
  type_specific = 0;
  fragment_offset = 0;
  type = 0;
  q = 0;
  width = 0;
  height = 0;
}

abbrev pub empty_restart_header : RestartMarkerHeader
empty_restart_header = record { restart_interval = 0; f_l_restart_count = 0 }

unfoldable pub parse_jpeg_header : Bytes → Option JpegHeader
parse_jpeg_header (a ∷ b ∷ c ∷ d ∷ e ∷ f ∷ g ∷ h ∷ rest) = some (record {
  type_specific = a;
  fragment_offset = bit_or (bit_or (b * 2 ^ 16) (c * 2 ^ 8)) d;
  type = e;
  q = f;
  width = g;
  height = h;
})
parse_jpeg_header _ = none

-- Where a part of a packet is missing the call ends; else it goes on with the rest of the payload.
pub data Part : Type 0 where
  missing : Part
  present : RtpJpegDepacketizer → Bytes → Part

-- `if (jpeg_hdr.type >= 64 && jpeg_hdr.type <= 127) { … }`, with `rest` behind the main header.
unfoldable pub read_restart_header : RtpJpegDepacketizer → JpegHeader → Bytes → Part
read_restart_header s hdr rest =
    if leb 64 hdr.type && leb hdr.type 127
    then (if ltb (length rest) 4
        then missing
        else present
            (record s {
              restart_header = record {
                restart_interval = word_at rest 0 % 2 ^ 16;
                f_l_restart_count = word_at rest 2 % 2 ^ 16;
              };
              has_restart_header = true;
            })
            (drop 4 rest))
    else present s rest

-- The tables that the packet brings, `quant_data` in the source.
pub data QuantPart : Type 0 where
  missing_tables : QuantPart
  present_tables : RtpJpegDepacketizer → Bytes → Bytes → QuantPart

-- From `qh.length > 0` on, with `rest` behind the quantization table header.
unfoldable pub read_tables : RtpJpegDepacketizer → ℕ → ℕ → ℕ → Bytes → QuantPart
read_tables s q precision size rest =
    if ltb 0 size
    then (if ltb (length rest) size
        then missing_tables
        else present_tables
            (record s {
              quant_tables = take size rest;
              quant_tables_cached = true;
              cached_q = q;
              cached_precision = precision;
            })
            (take size rest) (drop size rest))
    else present_tables s [] rest

-- `if (jpeg_hdr.q >= 128 && jpeg_hdr.fragment_offset == 0) { … }`
unfoldable pub read_quant_header : RtpJpegDepacketizer → JpegHeader → Bytes → QuantPart
read_quant_header s hdr rest =
    if leb 128 hdr.q && hdr.fragment_offset == 0
    then (if ltb (length rest) 4
        then missing_tables
        else read_tables s hdr.q (get_or rest 1 0) (word_at rest 2 % 2 ^ 16) (drop 4 rest))
    else present_tables s [] rest

-- The first packet of a frame: its header is kept.
unfoldable pub start_frame : RtpJpegDepacketizer → JpegHeader → RtpJpegDepacketizer
start_frame s hdr =
    if hdr.fragment_offset == 0
    then record s { scan_data = []; current_header = hdr; frame_started = true }
    else s

-- The vector is extended with zeros to the end of the fragment, which is then copied into it.
unfoldable pub place : Bytes → ℕ → Bytes → Bytes
place scan offset fragment =
    let extended = scan ++ replicate (offset + length fragment - length scan) 0 in
    take offset extended ++ (fragment ++ drop (offset + length fragment) extended)

unfoldable pub add_scan_data : RtpJpegDepacketizer → JpegHeader → Bytes → RtpJpegDepacketizer
add_scan_data s hdr fragment =
    if is_empty fragment
    then s
    else record s { scan_data = place s.scan_data hdr.fragment_offset fragment }

-- The tables that are written: those of the packet, the cached ones, or none.
unfoldable pub chosen_tables : RtpJpegDepacketizer → Bytes → Bytes
chosen_tables s quant_data =
    if not (is_empty quant_data)
    then quant_data
    else if s.quant_tables_cached && s.current_header.q == s.cached_q
    then s.quant_tables
    else []

abbrev detected : JpegSubsampling → ℕ → ℕ
detected yuv422 restart_bits = bit_or restart_bits 1
detected yuv420 restart_bits = restart_bits

unfoldable pub on_detected : RtpJpegDepacketizer → ℕ → Option ℕ → RtpJpegDepacketizer × ℕ
on_detected s type (some t) = (s, t)
on_detected s type none =
    let t = detected (detect_jpeg_subsampling s.scan_data) (bit_and type 0xc0) in
    (record s { detected_type = some t }, t)

-- The type that the picture seems to have, which is remembered from the first picture on.
unfoldable pub effective_type : RtpJpegDepacketizer → ℕ → RtpJpegDepacketizer × ℕ
effective_type s type =
    if leb (bit_and type 0x3f) 1 then on_detected s type s.detected_type else (s, type)

-- The DQT segments, from the tables of the stream or for the quality factor.
unfoldable pub write_tables : ℕ → ℕ → Bytes → Bytes
write_tables precision q quant_data =
    let luma_16bit = not (bit_and precision 1 == 0) in
    let chroma_16bit = not (bit_and precision 2 == 0) in
    let luma_size = if luma_16bit then 128 else 64 in
    let chroma_size = if chroma_16bit then 128 else 64 in
    let luma = take luma_size quant_data in
    let (default_luma, default_chroma) = make_default_quant_tables q in
    if is_empty quant_data
    then write_dqt 0 default_luma false ++ write_dqt 1 default_chroma false
    else if ltb (length quant_data) luma_size
    then []
    else write_dqt 0 luma luma_16bit
      ++ (if leb (luma_size + chroma_size) (length quant_data)
          then write_dqt 1 (take chroma_size (drop luma_size quant_data)) chroma_16bit
          else write_dqt 1 luma luma_16bit)

-- The scan data without an EOI marker at its end.
unfoldable pub without_eoi : Bytes → Bytes
without_eoi scan =
    let scan_end = length scan in
    if leb 2 scan_end
      && get_or scan (scan_end - 2) 0 == 0xff
      && get_or scan (scan_end - 1) 0 == 0xd9
    then take (scan_end - 2) scan
    else scan

-- The segments behind the SOF0 segment, and the scan.
unfoldable pub write_rest : RtpJpegDepacketizer → Bytes
write_rest s =
    write_dht
    ++ ((if s.has_restart_header && ltb 0 s.restart_header.restart_interval
          then write_dri s.restart_header.restart_interval
          else [])
        ++ (write_sos ++ (without_eoi s.scan_data ++ write_eoi)))

-- The file that is written for a picture with a size; `type` is the effective one.
unfoldable pub write_file : RtpJpegDepacketizer → JpegHeader → ℕ → Bytes → Bytes
write_file s hdr type quant_data =
    write_soi
    ++ (write_tables s.cached_precision hdr.q quant_data
        ++ (write_sof0 (hdr.width * 8) (hdr.height * 8) type ++ write_rest s))

-- The scan data is a whole JPEG file.
abbrev pub is_file : Bytes → Bool
is_file scan = leb 2 (length scan) && get_or scan 0 0 == 0xff && get_or scan 1 0 == 0xd8

-- The state and `out_frame` after the call.
unfoldable pub build_jpeg_frame :
    RtpJpegDepacketizer → JpegHeader → Bytes → Bytes → RtpJpegDepacketizer × Bytes
build_jpeg_frame s hdr quant_data out_frame =
    let (s', type) = effective_type s hdr.type in
    if is_file s.scan_data
    then (record s { scan_data = [] }, s.scan_data)
    else if hdr.width * 8 == 0 || hdr.height * 8 == 0
    then (s, out_frame)
    else (s', write_file s' hdr type quant_data)

abbrev pub incomplete : RtpJpegDepacketizer → Bytes → Bool → RtpJpegDepacketizer × Output
incomplete s out_frame out_keyframe =
    (s, record { complete = false; frame = out_frame; keyframe = out_keyframe })

-- The frame is built, and the state is ready for the next one.
unfoldable pub finish_frame : RtpJpegDepacketizer → Bytes → Bytes → RtpJpegDepacketizer × Output
finish_frame s quant_data out_frame =
    let (s', frame) = build_jpeg_frame s s.current_header (chosen_tables s quant_data) out_frame in
    (
      record s' { scan_data = []; frame_started = false; has_restart_header = false },
      record { complete = true; frame = frame; keyframe = true },
    )

-- From the scan data on.
unfoldable pub take_fragment :
    RtpJpegDepacketizer
    → Bool
    → JpegHeader
    → Bytes
    → Bytes
    → Bytes
    → Bool
    → RtpJpegDepacketizer × Output
take_fragment s marker hdr quant_data fragment out_frame out_keyframe =
    let s' = start_frame s hdr in
    let s'' = add_scan_data s' hdr fragment in
    if not s'.frame_started
    then incomplete s' out_frame out_keyframe
    else if marker
    then finish_frame s'' quant_data out_frame
    else incomplete s'' out_frame out_keyframe

unfoldable pub after_quant_header :
    RtpJpegDepacketizer
    → Bool
    → JpegHeader
    → Bytes
    → Bool
    → QuantPart
    → RtpJpegDepacketizer × Output
after_quant_header s marker hdr out_frame out_keyframe missing_tables =
    incomplete s out_frame out_keyframe
after_quant_header s marker hdr out_frame out_keyframe (present_tables s' quant_data fragment) =
    take_fragment s' marker hdr quant_data fragment out_frame out_keyframe

unfoldable pub after_restart_header :
    RtpJpegDepacketizer → Bool → JpegHeader → Bytes → Bool → Part → RtpJpegDepacketizer × Output
after_restart_header s marker hdr out_frame out_keyframe missing =
    incomplete s out_frame out_keyframe
after_restart_header s marker hdr out_frame out_keyframe (present s' rest) =
    after_quant_header s' marker hdr out_frame out_keyframe (read_quant_header s' hdr rest)

-- A frame that is not complete is thrown away at a new time stamp.
unfoldable pub switch_frame : RtpJpegDepacketizer → ℕ → RtpJpegDepacketizer
switch_frame s timestamp =
    let s' : RtpJpegDepacketizer =
      if not (s.last_timestamp == 0) && not (timestamp == s.last_timestamp) && s.frame_started
      then record s { scan_data = []; frame_started = false; has_restart_header = false }
      else s in
    record s' { last_timestamp = timestamp }

unfoldable pub after_header :
    RtpJpegDepacketizer
    → RtpHeaderView
    → Bytes
    → Bytes
    → Bool
    → Option JpegHeader
    → RtpJpegDepacketizer × Output
after_header s header payload out_frame out_keyframe none =
    incomplete (record s { base = report_unknown_nal s.base header.timestamp }) out_frame
      out_keyframe
after_header s header payload out_frame out_keyframe (some hdr) =
    if ltb 5 (bit_and hdr.type 0x3f)
    then incomplete (record s { base = report_unknown_nal s.base header.timestamp }) out_frame
        out_keyframe
    else after_restart_header s header.marker hdr out_frame out_keyframe
        (read_restart_header s hdr (drop 8 payload))

unfoldable pub process_packet :
    RtpJpegDepacketizer → RtpHeaderView → Bytes → Bytes → Bool → RtpJpegDepacketizer × Output
process_packet s header payload out_frame out_keyframe =
    if ltb (length payload) 8
    then incomplete (record s { base = report_unknown_nal s.base header.timestamp }) out_frame
        out_keyframe
    else after_header (switch_frame s header.timestamp) header payload out_frame out_keyframe
        (parse_jpeg_header payload)

unfoldable pub reset : RtpJpegDepacketizer → RtpJpegDepacketizer
reset s = record {
  base = reset_error_count s.base;
  scan_data = [];
  quant_tables = [];
  quant_tables_cached = false;
  cached_q = 0;
  cached_precision = 0;
  current_header = empty_header;
  restart_header = empty_restart_header;
  has_restart_header = false;
  frame_started = false;
  last_timestamp = 0;
  detected_type = none;
}
