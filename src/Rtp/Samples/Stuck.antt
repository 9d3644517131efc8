-- ===== src/Rtp/Samples/Stuck.antt =====
-- A payload limit of 0 stops the packetizers' loops from ending.
use libnx.Common.{ℕ, zero, suc, ◌-◌, ◌<◌, ◌≡◌, refl, none, arith, length, lt→ltb, min, false}
use libnx.Rtp.Types.{Bytes}
use libnx.Rtp.FrameBuffer.{RtpFrameBuffer}
use libnx.Rtp.Packetizer.{RtpPacketizer, has_ext}
use libnx.Rtp.Samples.{raw_loop, payload_limit, raw_set_max_packet_size}

-- `set_max_packet_size(12)` of the raw packetizer leaves no room for payload, and then the loop of
-- `packetize` over a non-empty frame runs out of any fuel, whatever the rest of the state: the C++
-- loop never ends.
raw_loop_stuck :
    (fuel : ℕ) (p : RtpPacketizer) (output : RtpFrameBuffer) (frame : Bytes) (timestamp : ℕ)
    → 0 < length frame
    → has_ext p.current_ext ≡ false
    → raw_loop fuel p output frame (payload_limit (raw_set_max_packet_size p 12)) timestamp 0 ≡ none
unfolding raw_loop payload_limit raw_set_max_packet_size
raw_loop_stuck fuel p output frame timestamp long plain = rw plain (zero_limit fuel p output)
  where
    zero_limit :
        (n : ℕ) (q : RtpPacketizer) (out : RtpFrameBuffer)
        → raw_loop n q out frame 0 timestamp 0 ≡ none
    zero_limit zero q out = rw (lt→ltb 0 (length frame) long) refl
    zero_limit (suc n) q out =
        let nothing : min 0 (length frame - 0) ≡ 0 = omega arith in
        rw (lt→ltb 0 (length frame) long, nothing) (zero_limit n _ _)
