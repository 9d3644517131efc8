-- ===== src/Rtp/H264/Packetizer.antt =====
-- RtpH264Packetizer (nxnet/rtp/rtp_h264_packetizer.cpp): NAL extraction, single NAL units, FU-A and
-- STAP-A packets, and `packetize`. Spans are byte lists; reserving capacity has no effect on the
-- result, but its estimate divides by the payload limit. The loops of `send_fu_a` and of the NAL
-- extraction take fuel; `none` means that it ran out, or the undefined division.
pub mod StartCode
pub mod Aggregate
pub mod Stuck
pub mod Termination
mod Tests
use libnx.Common.{
  ℕ, zero, suc, ◌+◌, ◌-◌, ◌%◌, ◌^◌, ◌==◌, Bool, true, false, not, ◌&&◌, List, [], ◌∷◌, ◌++◌, Option,
  none, some, length, get_or, take, drop, min, leb, ltb, bit_and, bit_or, if◌then◌else◌,
}
use libnx.Rtp.Types.{Bytes}
use libnx.Rtp.Packet.{subspan}
use libnx.Rtp.Extension.{RtpHeaderExtensionBuilder, empty, is_empty}
use libnx.Rtp.FrameBuffer.{
  RtpFrameBuffer, begin_packet, append, append_byte, append_u16_be, finalize,
}
use libnx.Rtp.Packetizer.{RtpPacketizer, has_ext, ext_size, write_rtp_header}

abbrev pub Sent : Type 0
Sent = Option (RtpPacketizer × RtpFrameBuffer)

abbrev pub nal_stap_a : ℕ
nal_stap_a = 24

abbrev pub nal_fu_a : ℕ
nal_fu_a = 28

unfoldable pub send_single_nal :
    RtpPacketizer → RtpFrameBuffer → Bytes → ℕ → Bool → RtpPacketizer × RtpFrameBuffer
send_single_nal p output nal timestamp marker =
    let (p', output') = write_rtp_header p (begin_packet output) marker timestamp in
    (p', append output' nal)

-- `uint16_t max_fragment_size`: the subtraction wraps below 2.
unfoldable pub max_fragment_size : RtpPacketizer → ℕ
max_fragment_size p =
    if has_ext p.current_ext
    then if ltb (ext_size p.current_ext + 2) p.max_payload_size
      then p.max_payload_size - ext_size p.current_ext - 2
      else 1
    else (p.max_payload_size + 2 ^ 16 - 2) % 2 ^ 16

-- The FU header: start bit, end bit and the type of the unit.
unfoldable pub fu_header : ℕ → Bool → Bool → ℕ
fu_header nal_type is_first is_last =
    let started = if is_first then bit_or nal_type 0x80 else nal_type in
    if is_last then bit_or started 0x40 else started

unfoldable pub fu_a_loop :
    ℕ → RtpPacketizer → RtpFrameBuffer → Bytes → ℕ → ℕ → ℕ → ℕ → Bool → ℕ → Bool → Sent
fu_a_loop zero p output payload limit nal_ref_idc nal_type timestamp marker offset is_first =
    if ltb offset (length payload) then none else some (p, output)
fu_a_loop (suc fuel) p output payload limit nal_ref_idc nal_type timestamp marker offset is_first =
    let fragment_size = min limit (length payload - offset) in
    let is_last = leb (length payload) (offset + fragment_size) in
    let next =
      let (p', o1) = write_rtp_header p (begin_packet output) (is_last && marker) timestamp in
      let o2 = append_byte o1 (bit_or nal_ref_idc nal_fu_a) in
      let o3 = append_byte o2 (fu_header nal_type is_first is_last) in
      let o4 = append o3 (subspan payload offset (offset + fragment_size)) in
      fu_a_loop fuel p' o4 payload limit nal_ref_idc nal_type timestamp marker
        (offset + fragment_size) false in
    if ltb offset (length payload) then next else some (p, output)

unfoldable pub send_fu_a : RtpPacketizer → RtpFrameBuffer → Bytes → ℕ → Bool → Sent
send_fu_a p output [] timestamp marker = some (p, output)
send_fu_a p output (nal_header ∷ payload) timestamp marker =
    fu_a_loop (length payload) p output payload (max_fragment_size p) (bit_and nal_header 0x60)
      (bit_and nal_header 0x1f) timestamp marker 0 true

-- The loop for the largest NRI of the units.
unfoldable pub max_nri : ℕ → List Bytes → ℕ
max_nri best [] = best
max_nri best ([] ∷ nals) = max_nri best nals
max_nri best ((b ∷ bs) ∷ nals) =
    max_nri (if ltb best (bit_and b 0x60) then bit_and b 0x60 else best) nals

unfoldable pub append_nals : RtpFrameBuffer → List Bytes → RtpFrameBuffer
append_nals output [] = output
append_nals output (nal ∷ nals) =
    append_nals (append (append_u16_be output (length nal % 2 ^ 16)) nal) nals

unfoldable pub send_stap_a :
    RtpPacketizer → RtpFrameBuffer → List Bytes → ℕ → Bool → RtpPacketizer × RtpFrameBuffer
send_stap_a p output [] timestamp marker = (p, output)
send_stap_a p output (nal ∷ nals) timestamp marker =
    let (p', output') = write_rtp_header p (begin_packet output) marker timestamp in
    (
      p',
      append_nals (append_byte output' (bit_or (max_nri 0 (nal ∷ nals)) nal_stap_a)) (nal ∷ nals),
    )

-- `find_start_code` from `start` on: the position of the code and its length, or the size and 0. The
-- bytes are those from `start` on.
unfoldable pub find_start_code : Bytes → ℕ → ℕ × ℕ
find_start_code [] start = (start, 0)
find_start_code (a ∷ rest) start =
    let later = find_start_code rest (start + 1) in
    if leb 2 (length rest) && (a == 0 && get_or rest 0 0 == 0)
    then if get_or rest 1 0 == 1
      then (start, 3)
      else if leb 3 (length rest) && (get_or rest 1 0 == 0 && get_or rest 2 0 == 1)
      then (start, 4)
      else later
    else later

-- `push_back` in front of what the later rounds push.
abbrev pub add_nal : Bytes → Option (List Bytes) → Option (List Bytes)
add_nal nal none = none
add_nal nal (some nals) = some (nal ∷ nals)

-- The loop `while (pos < size)`. A round passes a start code, so the size is enough fuel.
unfoldable pub nal_loop : ℕ → Bytes → ℕ → Option (List Bytes)
nal_loop zero frame pos = if ltb pos (length frame) then none else some []
nal_loop (suc fuel) frame pos =
    let (next_pos, next_len) = find_start_code (drop pos frame) pos in
    let others = nal_loop fuel frame (next_pos + next_len) in
    let rest = if next_len == 0 then some [] else others in
    if ltb pos (length frame)
    then if ltb pos next_pos then add_nal (subspan frame pos next_pos) rest else rest
    else some []

unfoldable pub extract_nal_units : Bytes → Option (List Bytes)
extract_nal_units frame =
    let (first_pos, first_len) = find_start_code frame 0 in
    if first_len == 0
    then if is_empty frame then some [] else some (frame ∷ [])
    else nal_loop (length frame) frame (first_pos + first_len)

-- The candidates: one alone goes out as a single unit, several as an aggregate.
unfoldable pub send_candidates :
    RtpPacketizer → RtpFrameBuffer → List Bytes → ℕ → Bool → RtpPacketizer × RtpFrameBuffer
send_candidates p output [] timestamp marker = (p, output)
send_candidates p output (nal ∷ []) timestamp marker = send_single_nal p output nal timestamp marker
send_candidates p output (nal ∷ more ∷ nals) timestamp marker =
    send_stap_a p output (nal ∷ more ∷ nals) timestamp marker

-- The loop of `packetize`, over the units still to come, with `stap_candidates` and
-- `stap_total_size`. The sums are `uint32_t`, and far below its limit.
unfoldable pub packetize_loop :
    RtpPacketizer → RtpFrameBuffer → ℕ → List Bytes → ℕ → List Bytes → Sent
packetize_loop p output timestamp candidates total [] =
    some (send_candidates p output candidates timestamp true)
packetize_loop p output timestamp candidates total (nal ∷ nals) =
    let nal_stap_size = length nal + 2 in
    let new_size = if total == 0 then total + nal_stap_size + 1 else total + nal_stap_size in
    let flushed = send_candidates p output candidates timestamp false in
    let joins = packetize_loop p output timestamp (candidates ++ (nal ∷ [])) new_size nals in
    let starts = packetize_loop flushed.0 flushed.1 timestamp (nal ∷ []) (nal_stap_size + 1) nals in
    let fragments : Sent = elim (send_fu_a flushed.0 flushed.1 nal timestamp (is_empty nals)) [
      | none ↦ none
      | some (p', output') ↦ packetize_loop p' output' timestamp [] 0 nals
    ] in
    if leb (length nal) p.max_payload_size
    then if leb new_size p.max_payload_size && not (is_empty candidates) then joins else starts
    else fragments

-- The packets of the units that were found. `frame_data.size() / m_max_payload_size` is undefined where
-- the limit is 0.
unfoldable pub packetize_nals : RtpPacketizer → ℕ → RtpFrameBuffer → Option (List Bytes) → Sent
packetize_nals p timestamp output none = none
packetize_nals p timestamp output (some nals) =
    let sent : Sent = elim (packetize_loop p output timestamp [] 0 nals) [
      | none ↦ none
      | some (p', output') ↦ some (p', finalize output')
    ] in
    if is_empty nals then some (p, output) else if p.max_payload_size == 0 then none else sent

unfoldable pub packetize : RtpPacketizer → Bytes → ℕ → RtpFrameBuffer → Sent
unfolding packetize_nals
packetize p frame timestamp output =
    let sent = packetize_nals p timestamp output (extract_nal_units frame) in
    if is_empty frame then some (p, output) else sent

-- The overload with an extension.
unfoldable pub packetize_ext :
    RtpPacketizer → Bytes → ℕ → RtpHeaderExtensionBuilder → RtpFrameBuffer → Sent
packetize_ext p frame timestamp ext output =
    elim (packetize (record p { current_ext = if empty ext then none else some ext }) frame
      timestamp output) [
        | none ↦ none
        | some (p', output') ↦ some (record p' { current_ext = none }, output')
      ]
