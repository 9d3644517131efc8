-- ===== src/Rtp/Samples.antt =====
-- The packetizers that cut a frame into equal pieces: nxnet/rtp/rtp_raw_packetizer.cpp and
-- nxnet/rtp/rtp_g711_packetizer.cpp. The loop `while (offset < frame_data.size())` takes fuel, and
-- `none` means that it ran out; a piece has a byte at least where the payload limit is not 0, so the
-- size of the frame is enough.
pub mod Stream
pub mod Delivery
pub mod Stuck
mod Tests
use libnx.Common.{
  ℕ, zero, suc, ◌+◌, ◌-◌, ◌%◌, ◌^◌, Bool, true, false, List, Option, none, some, min, length, ltb,
  leb, if◌then◌else◌,
}
use libnx.Rtp.Types.{Bytes}
use libnx.Rtp.Packet.{subspan}
use libnx.Rtp.Extension.{RtpHeaderExtensionBuilder, empty, is_empty}
use libnx.Rtp.FrameBuffer.{RtpFrameBuffer, begin_packet, append, finalize}
use libnx.Rtp.Packetizer.{RtpPacketizer, has_ext, ext_size, write_rtp_header, rtp_header_size}

abbrev pub Sent : Type 0
Sent = Option (RtpPacketizer × RtpFrameBuffer)

-- `payload_limit`, the room that the extension leaves.
unfoldable pub payload_limit : RtpPacketizer → ℕ
payload_limit p =
    if has_ext p.current_ext
    then if ltb (ext_size p.current_ext) p.max_payload_size
      then p.max_payload_size - ext_size p.current_ext
      else 1
    else p.max_payload_size

unfoldable pub raw_loop : ℕ → RtpPacketizer → RtpFrameBuffer → Bytes → ℕ → ℕ → ℕ → Sent
raw_loop zero p output frame limit timestamp offset =
    if ltb offset (length frame) then none else some (p, output)
raw_loop (suc fuel) p output frame limit timestamp offset =
    let chunk_size = min limit (length frame - offset) in
    let is_last = leb (length frame) (offset + chunk_size) in
    let next =
      let (p', output') = write_rtp_header p (begin_packet output) is_last timestamp in
      raw_loop fuel p' (append output' (subspan frame offset (offset + chunk_size))) frame limit
        timestamp (offset + chunk_size) in
    if ltb offset (length frame) then next else some (p, output)

-- The G.711 loop moves the time stamp on by the bytes that it sent.
unfoldable pub g711_loop : ℕ → RtpPacketizer → RtpFrameBuffer → Bytes → ℕ → ℕ → ℕ → Sent
g711_loop zero p output frame limit timestamp offset =
    if ltb offset (length frame) then none else some (p, output)
g711_loop (suc fuel) p output frame limit timestamp offset =
    let chunk_size = min limit (length frame - offset) in
    let is_last = leb (length frame) (offset + chunk_size) in
    let next =
      let (p', output') = write_rtp_header p (begin_packet output) is_last timestamp in
      g711_loop fuel p' (append output' (subspan frame offset (offset + chunk_size))) frame limit
        ((timestamp + chunk_size % 2 ^ 32) % 2 ^ 32) (offset + chunk_size) in
    if ltb offset (length frame) then next else some (p, output)

-- `output.finalize()` behind a loop that ended.
abbrev pub finalized : Sent → Sent
finalized none = none
finalized (some (p, output)) = some (p, finalize output)

unfoldable pub raw_packetize : RtpPacketizer → Bytes → ℕ → RtpFrameBuffer → Sent
raw_packetize p frame timestamp output =
    if is_empty frame
    then some (p, output)
    else finalized (raw_loop (length frame) p output frame (payload_limit p) timestamp 0)

unfoldable pub g711_packetize : RtpPacketizer → Bytes → ℕ → RtpFrameBuffer → Sent
g711_packetize p frame timestamp output =
    if is_empty frame
    then some (p, output)
    else finalized (g711_loop (length frame) p output frame (payload_limit p) timestamp 0)

-- The overload with an extension: `m_current_ext` is set for the call, and cleared behind it.
abbrev pub with_ext : RtpHeaderExtensionBuilder → (RtpPacketizer → Sent) → RtpPacketizer → Sent
with_ext ext call p =
    elim (call (record p { current_ext = if empty ext then none else some ext })) [
      | none ↦ none
      | some (p', output) ↦ some (record p' { current_ext = none }, output)
    ]

unfoldable pub raw_packetize_ext :
    RtpPacketizer → Bytes → ℕ → RtpHeaderExtensionBuilder → RtpFrameBuffer → Sent
raw_packetize_ext p frame timestamp ext output =
    with_ext ext (λ q. raw_packetize q frame timestamp output) p

unfoldable pub g711_packetize_ext :
    RtpPacketizer → Bytes → ℕ → RtpHeaderExtensionBuilder → RtpFrameBuffer → Sent
g711_packetize_ext p frame timestamp ext output =
    with_ext ext (λ q. g711_packetize q frame timestamp output) p

-- `RtpRawPacketizer::set_max_packet_size` has no guard: `uint16_t` arithmetic wraps below 12.
unfoldable pub raw_set_max_packet_size : RtpPacketizer → ℕ → RtpPacketizer
raw_set_max_packet_size p size = record p {
  max_payload_size = (size + 2 ^ 16 - rtp_header_size) % 2 ^ 16;
}
