-- ===== src/Rtp/Packetizer.antt =====
-- What the three packetizers share: the members of the class and `write_rtp_header`, which
-- nxnet/rtp/rtp_h264_packetizer.cpp, rtp_g711_packetizer.cpp and rtp_raw_packetizer.cpp hold in the
-- same words. `m_current_ext` is an optional builder; the pointer is set for one call only.
pub mod Header
pub mod Parse
pub mod RoundTrip
use libnx.Common.{
  ℕ, suc, ◌+◌, ◌-◌, ◌*◌, ◌/◌, ◌%◌, ◌^◌, Bool, true, false, not, List, [], ◌∷◌, ◌++◌, Option, none,
  some, bit_and, bit_or, ltb, if◌then◌else◌,
}
use libnx.Rtp.Types.{Bytes}
use libnx.Rtp.Extension.{RtpHeaderExtensionBuilder, empty, serialize, serialized_size}
use libnx.Rtp.FrameBuffer.{RtpFrameBuffer, append}

pub record RtpPacketizer : Type 0 where
  pub ssrc : ℕ
  pub payload_type : ℕ
  pub sequence_number : ℕ
  pub max_payload_size : ℕ
  pub current_ext : Option RtpHeaderExtensionBuilder

-- `m_current_ext && !m_current_ext->empty()`
abbrev pub has_ext : Option RtpHeaderExtensionBuilder → Bool
has_ext none = false
has_ext (some b) = not (empty b)

-- `m_current_ext->serialize(output.data)` where there is one.
abbrev pub serialize_ext : Option RtpHeaderExtensionBuilder → Bytes → Bytes
serialize_ext none packet = packet
serialize_ext (some b) packet = serialize b packet

-- `static_cast<uint16_t>(m_current_ext->serialized_size())`
abbrev pub ext_size : Option RtpHeaderExtensionBuilder → ℕ
ext_size none = 0
ext_size (some b) = serialized_size b % 2 ^ 16

-- The array `hdr`.
unfoldable pub header_bytes : RtpPacketizer → Bool → ℕ → Bytes
header_bytes p marker timestamp =
    (if has_ext p.current_ext then bit_or 0x80 0x10 else 0x80)
    ∷ (if marker then bit_or (bit_and p.payload_type 0x7f) 0x80 else bit_and p.payload_type 0x7f)
    ∷ p.sequence_number / 2 ^ 8 % 256
    ∷ bit_and p.sequence_number 0xff % 256
    ∷ timestamp / 2 ^ 24 % 256
    ∷ timestamp / 2 ^ 16 % 256
    ∷ timestamp / 2 ^ 8 % 256
    ∷ bit_and timestamp 0xff % 256
    ∷ p.ssrc / 2 ^ 24 % 256
    ∷ p.ssrc / 2 ^ 16 % 256
    ∷ p.ssrc / 2 ^ 8 % 256
    ∷ bit_and p.ssrc 0xff % 256
    ∷ []

unfoldable pub write_rtp_header :
    RtpPacketizer → RtpFrameBuffer → Bool → ℕ → RtpPacketizer × RtpFrameBuffer
write_rtp_header p output marker timestamp =
    let output' = append output (header_bytes p marker timestamp) in
    (
      record p { sequence_number = (p.sequence_number + 1) % 2 ^ 16 },
      if has_ext p.current_ext
          then record output' { bytes = serialize_ext p.current_ext output'.bytes }
          else output',
    )

-- The setters. `set_max_packet_size` is that of the H.264 and G.711 classes.
abbrev pub reset : RtpPacketizer → RtpPacketizer
reset p = record p { sequence_number = 0 }

abbrev pub set_ssrc : RtpPacketizer → ℕ → RtpPacketizer
set_ssrc p ssrc = record p { ssrc = ssrc }

abbrev pub set_payload_type : RtpPacketizer → ℕ → RtpPacketizer
set_payload_type p pt = record p { payload_type = pt }

abbrev pub rtp_header_size : ℕ
rtp_header_size = 12

unfoldable pub set_max_packet_size : RtpPacketizer → ℕ → RtpPacketizer
set_max_packet_size p size = record p {
  max_payload_size = if ltb rtp_header_size size then size - rtp_header_size else 1;
}

-- The constructor: `uint16_t` arithmetic, so that a size below 12 wraps.
unfoldable pub construct : ℕ → RtpPacketizer
construct max_packet_size = record {
  ssrc = 0;
  payload_type = 96;
  sequence_number = 0;
  max_payload_size = (max_packet_size + 2 ^ 16 - rtp_header_size) % 2 ^ 16;
  current_ext = none;
}
