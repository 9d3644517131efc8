-- ===== src/Rtp/H265/Depacketizer.antt =====
-- RtpH265Depacketizer (nxnet/rtp/rtp_h265_depacketizer.cpp). The class has the members of
-- RtpH264Depacketizer, and its `process_packet` sets frames aside and finishes them in the same
-- words, so the state, `set_pending`, `finish_frame` and `switches` are those of the H.264 model. No
-- access of this class leaves its `std::span`, so nothing is undefined. The loop of `handle_ap` recurs
-- on fuel over the bytes from `offset` on; a round takes two bytes at least, so the size of the
-- payload is enough.
pub mod Contribution
pub mod Conservation
pub mod Fragments
mod Tests
use libnx.Common.{
  ℕ, zero, suc, ◌+◌, ◌*◌, ◌/◌, ◌%◌, ◌^◌, ◌==◌, Bool, true, false, not, ◌||◌, [], ◌∷◌, ◌++◌, length,
  take, drop, leb, ltb, bit_and, bit_or, if◌then◌else◌,
}
use libnx.Rtp.Types.{Bytes, RtpHeaderView}
use libnx.Rtp.Depacketizer.{report_unknown_nal, reset_error_count}
use libnx.Rtp.H264.Depacketizer.{
  RtpH264Depacketizer, Output, set_pending, finish_frame, switches, start_code,
}

abbrev pub RtpH265Depacketizer : Type 0
RtpH265Depacketizer = RtpH264Depacketizer

abbrev pub nal_ap : ℕ
nal_ap = 48

abbrev pub nal_fu : ℕ
nal_fu = 49

-- BLA_W_LP, BLA_W_RADL, BLA_N_LP, IDR_W_RADL, IDR_N_LP, CRA and the three parameter sets.
unfoldable pub is_keyframe_nal : ℕ → Bool
is_keyframe_nal nal_type =
    nal_type == 19
    || nal_type == 20
    || nal_type == 21
    || nal_type == 16
    || nal_type == 17
    || nal_type == 18
    || nal_type == 32
    || nal_type == 33
    || nal_type == 34

abbrev pub extract_nal_type : ℕ → ℕ
extract_nal_type first_byte = bit_and (first_byte / 2) 0x3f

abbrev pub append_start_code : Bytes → Bytes
append_start_code buffer = buffer ++ start_code

-- `nal_data.size() >= 2` and the type of the first byte, as `handle_single_nal` and the loop of
-- `handle_ap` test them.
unfoldable pub is_keyframe_unit : Bytes → Bool
is_keyframe_unit (a ∷ b ∷ nal) = is_keyframe_nal (extract_nal_type a)
is_keyframe_unit _ = false

-- The keyframe flag and the NAL unit behind a start code.
unfoldable pub append_unit : RtpH265Depacketizer → Bytes → RtpH265Depacketizer
append_unit s nal = record s {
  frame_has_keyframe = if is_keyframe_unit nal then true else s.frame_has_keyframe;
  frame_buffer = append_start_code s.frame_buffer ++ nal;
}

unfoldable pub handle_single_nal : RtpH265Depacketizer → Bytes → RtpH265Depacketizer
handle_single_nal s payload = if ltb (length payload) 2 then s else append_unit s payload

-- `if (start) { … }`
unfoldable pub start_fragment : RtpH265Depacketizer → ℕ → ℕ → ℕ → RtpH265Depacketizer
start_fragment s byte0 byte1 nal_type = record s {
  accumulator = start_code ++ (bit_or (bit_and byte0 0x81) (nal_type * 2) ∷ byte1 ∷ []);
  in_fragmentation = true;
  frame_has_keyframe = if is_keyframe_nal nal_type then true else s.frame_has_keyframe;
}

-- `if (end) { … }`
unfoldable pub end_fragment : RtpH265Depacketizer → RtpH265Depacketizer
end_fragment s = record s {
  in_fragmentation = false;
  frame_buffer = s.frame_buffer ++ s.accumulator;
  accumulator = [];
}

-- From `if (!m_in_fragmentation)` on.
unfoldable pub add_fragment : Bool → Bytes → RtpH265Depacketizer → RtpH265Depacketizer
unfolding end_fragment
add_fragment is_end fragment s =
    let s' : RtpH265Depacketizer = record s { accumulator = s.accumulator ++ fragment } in
    if not s.in_fragmentation then s else if is_end then end_fragment s' else s'

unfoldable pub handle_fu : RtpH265Depacketizer → Bytes → RtpH265Depacketizer
unfolding start_fragment add_fragment
handle_fu s (byte0 ∷ byte1 ∷ fu_header ∷ fragment) =
    add_fragment (not (bit_and fu_header 0x40 == 0)) fragment (
      if not (bit_and fu_header 0x80 == 0)
      then start_fragment s byte0 byte1 (bit_and fu_header 0x3f)
      else s)
handle_fu s _ = s

unfoldable pub ap_loop : ℕ → Bytes → RtpH265Depacketizer → RtpH265Depacketizer
unfolding append_unit
ap_loop zero rest s = s
ap_loop (suc fuel) (hi ∷ lo ∷ rest) s =
    let nal_size = bit_or (hi * 2 ^ 8) lo % 2 ^ 16 in
    let next = ap_loop fuel (drop nal_size rest) (append_unit s (take nal_size rest)) in
    if ltb (length rest) nal_size then s else next
ap_loop (suc fuel) _ s = s

-- The two header bytes of the packet are skipped.
unfoldable pub handle_ap : RtpH265Depacketizer → Bytes → RtpH265Depacketizer
unfolding ap_loop
handle_ap s payload = ap_loop (length payload) (drop 2 payload) s

unfoldable pub dispatch_nal : RtpH265Depacketizer → Bytes → ℕ → RtpH265Depacketizer
dispatch_nal s (a ∷ b ∷ rest) rtp_timestamp =
    let nal_type = extract_nal_type a in
    if nal_type == nal_fu
    then handle_fu s (a ∷ b ∷ rest)
    else if nal_type == nal_ap
    then handle_ap s (a ∷ b ∷ rest)
    else if leb nal_type 47
    then handle_single_nal s (a ∷ b ∷ rest)
    else record s { base = report_unknown_nal s.base rtp_timestamp }
dispatch_nal s _ rtp_timestamp = s

-- `m_last_timestamp = …; dispatch_nal(…); m_last_seq = …;`
unfoldable pub take_packet : RtpH265Depacketizer → RtpHeaderView → Bytes → RtpH265Depacketizer
take_packet s header payload =
    let s' =
      dispatch_nal (record s { last_timestamp = header.timestamp }) payload header.timestamp in
    record s' { last_seq = header.sequence_number }

unfoldable pub process_packet :
    RtpH265Depacketizer → RtpHeaderView → Bytes → Bytes → Bool → RtpH265Depacketizer × Output
process_packet s header payload out_frame out_keyframe =
    if ltb (length payload) 2
    then (s, record { complete = false; frame = out_frame; keyframe = out_keyframe })
    else if switches s header
    then (
      set_pending header.marker
          (take_packet (record s { frame_buffer = []; frame_has_keyframe = false }) header payload),
      record { complete = true; frame = s.frame_buffer; keyframe = s.frame_has_keyframe },
    )
    else if s.has_pending
    then (
      set_pending header.marker (
          take_packet (record s { pending_frame = out_frame; has_pending = false }) header payload),
      record { complete = true; frame = s.pending_frame; keyframe = s.pending_keyframe },
    )
    else finish_frame header.marker out_frame out_keyframe (take_packet s header payload)

unfoldable pub reset : RtpH265Depacketizer → RtpH265Depacketizer
reset s = record {
  base = reset_error_count s.base;
  accumulator = [];
  frame_buffer = [];
  pending_frame = [];
  last_seq = 0;
  last_timestamp = 0;
  in_fragmentation = false;
  frame_has_keyframe = false;
  has_pending = false;
  pending_keyframe = false;
}
