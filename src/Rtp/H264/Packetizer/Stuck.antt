-- ===== src/Rtp/H264/Packetizer/Stuck.antt =====
-- Limits with no room for a fragment: the loop of `send_fu_a` never ends.
use libnx.Common.{
  ℕ, zero, suc, ◌-◌, ◌<◌, ◌≡◌, refl, ◌∷◌, Bool, false, none, arith, length, lt→ltb, min,
}
use libnx.Rtp.Types.{Bytes}
use libnx.Rtp.FrameBuffer.{RtpFrameBuffer}
use libnx.Rtp.Packetizer.{RtpPacketizer, has_ext, set_max_packet_size}
use libnx.Rtp.H264.Packetizer.{fu_a_loop, max_fragment_size}

stuck_loop :
    (n : ℕ) (p : RtpPacketizer) (output : RtpFrameBuffer) (payload : Bytes)
    (nri nal_type timestamp : ℕ) (marker is_first : Bool)
    → 0 < length payload
    → fu_a_loop n p output payload 0 nri nal_type timestamp marker 0 is_first ≡ none
unfolding fu_a_loop
stuck_loop zero p output payload nri nal_type timestamp marker is_first long =
    rw (lt→ltb 0 (length payload) long) refl
stuck_loop (suc n) p output payload nri nal_type timestamp marker is_first long =
    let nothing : min 0 (length payload - 0) ≡ 0 = omega arith in
    rw (lt→ltb 0 (length payload) long, nothing)
      (stuck_loop n _ _ payload nri nal_type timestamp marker false long)

-- After `set_max_packet_size(14)`, and without an extension, `send_fu_a` fragments with a size of 0:
-- over a unit with a byte behind its header the loop runs out of any fuel, whatever the rest of the
-- state. The C++ loop never ends.
pub fu_a_loop_stuck :
    (fuel : ℕ) (p : RtpPacketizer) (output : RtpFrameBuffer) (b : ℕ) (payload : Bytes)
    (nri nal_type timestamp : ℕ) (marker is_first : Bool)
    → has_ext p.current_ext ≡ false
    → fu_a_loop fuel p output
        (b ∷ payload)
        (max_fragment_size (set_max_packet_size p 14))
        nri
        nal_type
        timestamp
        marker
        0
        is_first
      ≡ none
unfolding max_fragment_size set_max_packet_size
fu_a_loop_stuck fuel p output b payload nri nal_type timestamp marker is_first plain =
    rw plain
      (stuck_loop fuel p output (b ∷ payload) nri nal_type timestamp marker is_first (omega arith))
