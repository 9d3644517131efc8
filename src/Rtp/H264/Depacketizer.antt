-- ===== src/Rtp/H264/Depacketizer.antt =====
-- RtpH264Depacketizer (nxnet/rtp/rtp_h264_depacketizer.cpp). `none` is an access past the end of a
-- `std::span`, which C++ leaves undefined. The loop of `handle_stap_a` recurs on fuel over the bytes
-- from `offset` on; a round takes two bytes at least, so the size of the payload is enough.
pub mod Contribution
pub mod Conservation
pub mod Keyframes
pub mod Aggregates
mod Tests
use libnx.Common.{
  ℕ, zero, suc, ◌+◌, ◌*◌, ◌/◌, ◌%◌, ◌^◌, ◌==◌, Bool, true, false, not, ◌&&◌, List, [], ◌∷◌, ◌++◌,
  Option, none, some, length, get_or, take, drop, leb, ltb, bit_and, bit_or, if◌then◌else◌,
}
use libnx.Rtp.Types.{Bytes, RtpHeaderView}
use libnx.Rtp.Extension.{is_empty}
use libnx.Rtp.Depacketizer.{RtpDepacketizer, report_unknown_nal, reset_error_count}

infixl 5 ◌>>=◌
abbrev pub ◌>>=◌ {ℓ κ} : {A : Type ℓ} {B : Type κ} → Option A → (A → Option B) → Option B
none >>= f = none
some a >>= f = f a

pub record RtpH264Depacketizer : Type 0 where
  pub base : RtpDepacketizer
  pub accumulator : Bytes
  pub frame_buffer : Bytes
  pub pending_frame : Bytes
  pub last_seq : ℕ
  pub last_timestamp : ℕ
  pub in_fragmentation : Bool
  pub frame_has_keyframe : Bool
  pub has_pending : Bool
  pub pending_keyframe : Bool

abbrev pub nal_slice_idr : ℕ
nal_slice_idr = 5

abbrev pub nal_stap_a : ℕ
nal_stap_a = 24

abbrev pub nal_fu_a : ℕ
nal_fu_a = 28

abbrev pub start_code : Bytes
start_code = 0 ∷ 0 ∷ 0 ∷ 1 ∷ []

abbrev pub is_keyframe_nal : ℕ → Bool
is_keyframe_nal nal_type = nal_type == nal_slice_idr

-- The keyframe flag and the NAL unit behind a start code: what `handle_single_nal` does, and the
-- body of the loop in `handle_stap_a`.
unfoldable pub handle_single_nal : RtpH264Depacketizer → Bytes → RtpH264Depacketizer
handle_single_nal s nal = record s {
  frame_has_keyframe =
      if is_keyframe_nal (bit_and (get_or nal 0 0) 0x1f) then true else s.frame_has_keyframe;
  frame_buffer = s.frame_buffer ++ (start_code ++ nal);
}

-- `if (start) { … }`
unfoldable pub start_fragment : RtpH264Depacketizer → ℕ → ℕ → RtpH264Depacketizer
start_fragment s fu_indicator nal_type = record s {
  accumulator = start_code ++ (bit_or (bit_and fu_indicator 0xe0) nal_type ∷ []);
  in_fragmentation = true;
  frame_has_keyframe = if is_keyframe_nal nal_type then true else s.frame_has_keyframe;
}

-- `if (end) { … }`
unfoldable pub end_fragment : RtpH264Depacketizer → RtpH264Depacketizer
end_fragment s = record s {
  in_fragmentation = false;
  frame_buffer = s.frame_buffer ++ s.accumulator;
  accumulator = [];
}

-- From `if (!m_in_fragmentation)` on.
unfoldable pub add_fragment : Bool → Bytes → RtpH264Depacketizer → RtpH264Depacketizer
unfolding end_fragment
add_fragment is_end fragment s =
    let s' : RtpH264Depacketizer = record s { accumulator = s.accumulator ++ fragment } in
    if not s.in_fragmentation then s else if is_end then end_fragment s' else s'

unfoldable pub handle_fu_a : RtpH264Depacketizer → Bytes → RtpH264Depacketizer
unfolding start_fragment add_fragment
handle_fu_a s (fu_indicator ∷ fu_header ∷ fragment) =
    add_fragment (not (bit_and fu_header 0x40 == 0)) fragment (
      if not (bit_and fu_header 0x80 == 0)
      then start_fragment s fu_indicator (bit_and fu_header 0x1f)
      else s)
handle_fu_a s _ = s

unfoldable pub stap_loop : ℕ → Bytes → RtpH264Depacketizer → Option RtpH264Depacketizer
unfolding handle_single_nal
stap_loop zero rest s = some s
stap_loop (suc fuel) (hi ∷ lo ∷ rest) s =
    let nal_size = bit_or (hi * 2 ^ 8) lo % 2 ^ 16 in
    let nal = take nal_size rest in
    let next = stap_loop fuel (drop nal_size rest) (handle_single_nal s nal) in
    if ltb (length rest) nal_size then some s else if is_empty nal then none else next
stap_loop (suc fuel) _ s = some s

-- The header byte of the packet is skipped.
unfoldable pub handle_stap_a : RtpH264Depacketizer → Bytes → Option RtpH264Depacketizer
unfolding stap_loop
handle_stap_a s payload = stap_loop (length payload) (drop 1 payload) s

unfoldable pub dispatch_nal : RtpH264Depacketizer → Bytes → ℕ → Option RtpH264Depacketizer
dispatch_nal s [] rtp_timestamp = some s
dispatch_nal s (b ∷ rest) rtp_timestamp =
    let nal_type = bit_and b 0x1f in
    if leb 1 nal_type && leb nal_type 23
    then some (handle_single_nal s (b ∷ rest))
    else if nal_type == nal_fu_a
    then some (handle_fu_a s (b ∷ rest))
    else if nal_type == nal_stap_a
    then handle_stap_a s (b ∷ rest)
    else some (record s { base = report_unknown_nal s.base rtp_timestamp })

-- The result of a call: its value, and the out parameters.
pub record Output : Type 0 where
  pub complete : Bool
  pub frame : Bytes
  pub keyframe : Bool

-- `m_last_timestamp = …; dispatch_nal(…); m_last_seq = …;`
unfoldable pub take_packet :
    RtpH264Depacketizer → RtpHeaderView → Bytes → Option RtpH264Depacketizer
take_packet s header payload = do
  s' ← dispatch_nal (record s { last_timestamp = header.timestamp }) payload header.timestamp
  some (record s' { last_seq = header.sequence_number })

-- `if (header.marker && !m_frame_buffer.empty()) { m_pending_frame.swap(m_frame_buffer); … }`
unfoldable pub set_pending : Bool → RtpH264Depacketizer → RtpH264Depacketizer
set_pending marker s =
    if marker && not (is_empty s.frame_buffer)
    then record s {
      pending_frame = s.frame_buffer;
      pending_keyframe = s.frame_has_keyframe;
      frame_buffer = [];
      frame_has_keyframe = false;
      has_pending = true;
    }
    else s

-- The last part: no older frame is waiting, and the marker completes the current one.
unfoldable pub finish_frame :
    Bool → Bytes → Bool → RtpH264Depacketizer → RtpH264Depacketizer × Output
finish_frame marker out_frame out_keyframe s =
    if marker && not (is_empty s.frame_buffer)
    then (
      record s { frame_buffer = []; frame_has_keyframe = false },
      record { complete = true; frame = s.frame_buffer; keyframe = s.frame_has_keyframe },
    )
    else (s, record { complete = false; frame = out_frame; keyframe = out_keyframe })

-- The time stamp has moved on while a frame is being put together.
abbrev pub switches : RtpH264Depacketizer → RtpHeaderView → Bool
switches s header =
    not (s.last_timestamp == 0)
    && (not (header.timestamp == s.last_timestamp) && not (is_empty s.frame_buffer))

unfoldable pub process_packet :
    RtpH264Depacketizer
    → RtpHeaderView
    → Bytes
    → Bytes
    → Bool
    → Option (RtpH264Depacketizer × Output)
process_packet s header payload out_frame out_keyframe =
    if is_empty payload
    then some (s, record { complete = false; frame = out_frame; keyframe = out_keyframe })
    else if switches s header
    then (do
      s' ← take_packet (record s { frame_buffer = []; frame_has_keyframe = false }) header payload
      some (
        set_pending header.marker s',
        record { complete = true; frame = s.frame_buffer; keyframe = s.frame_has_keyframe },
      ))
    else if s.has_pending
    then (do
      s' ← take_packet (record s { pending_frame = out_frame; has_pending = false }) header payload
      some (
        set_pending header.marker s',
        record { complete = true; frame = s.pending_frame; keyframe = s.pending_keyframe },
      ))
    else (do
      s' ← take_packet s header payload
      some (finish_frame header.marker out_frame out_keyframe s'))

unfoldable pub reset : RtpH264Depacketizer → RtpH264Depacketizer
reset s = record {
  base = reset_error_count s.base;
  accumulator = [];
  frame_buffer = [];
  pending_frame = [];
  last_seq = 0;
  last_timestamp = 0;
  in_fragmentation = false;
  frame_has_keyframe = false;
  has_pending = false;
  pending_keyframe = false;
}
