-- ===== src/Rtp/H264/Packetizer/Tests.antt =====
-- Annex B data and a packetizer for the theorems on the H.264 packetizer.
use libnx.Common.{◌≡◌, refl, [], ◌∷◌, none, some, true, false, bit_or, arith}
use libnx.Rtp.Types.{Bytes}
use libnx.Rtp.FrameBuffer.{cleared}
use libnx.Rtp.Packetizer.{RtpPacketizer}
use libnx.Rtp.H264.Packetizer.{
  send_stap_a, max_nri, packetize, find_start_code, max_fragment_size, extract_nal_units, nal_loop,
}
use libnx.Rtp.FrameBuffer.Packets.{emit}
use libnx.Rtp.Packetizer.Header.{packet_bytes}
use libnx.Rtp.H264.Depacketizer.{RtpH264Depacketizer, dispatch_nal}
use libnx.Rtp.H264.Depacketizer.Contribution.{Grows}
use libnx.Rtp.H264.Packetizer.Aggregate.{aggregate, annex_b, send_stap_a-Grows}
use libnx.Rtp.H264.Packetizer.StartCode.{IsFirstCode, find_start_code-IsFirstCode}
use libnx.Rtp.H264.Packetizer.Termination.{Ends, packetize-Ends}

abbrev sender : RtpPacketizer
sender = record {
  ssrc = 7;
  payload_type = 96;
  sequence_number = 1;
  max_payload_size = 1400;
  current_ext = none;
}

-- Two units, behind a code of four bytes and one of three.
abbrev two_units : Bytes
two_units = 0 ∷ 0 ∷ 0 ∷ 1 ∷ 0x67 ∷ 9 ∷ 0 ∷ 0 ∷ 1 ∷ 0x65 ∷ 8 ∷ []

extract_two : extract_nal_units two_units ≡ some ((0x67 ∷ 9 ∷ []) ∷ (0x65 ∷ 8 ∷ []) ∷ [])
unfolding extract_nal_units find_start_code nal_loop
extract_two = refl

find_start_code-IsFirstCode_example : IsFirstCode two_units 0 (find_start_code two_units 0)
find_start_code-IsFirstCode_example = find_start_code-IsFirstCode two_units 0

packetize-Ends_example : Ends (max_fragment_size sender) (packetize sender two_units 90000 cleared)
packetize-Ends_example =
    packetize-Ends sender two_units 90000 cleared (omega arith)
      (unfold max_fragment_size in omega arith)

-- A depacketizer that gathers nothing yet.
abbrev idle : RtpH264Depacketizer
idle = record {
  base = record {
    has_callback = false;
    consecutive_errors = 0;
    error_frame_count = 0;
    last_error_timestamp = 0;
    mismatch_reported = false;
    reports = [];
  };
  accumulator = [];
  frame_buffer = [];
  pending_frame = [];
  last_seq = 0;
  last_timestamp = 0;
  in_fragmentation = false;
  frame_has_keyframe = false;
  has_pending = false;
  pending_keyframe = false;
}

send_stap_a-Grows_example :
    ((send_stap_a sender cleared ((0x67 ∷ 9 ∷ []) ∷ (0x68 ∷ []) ∷ []) 90000 true).1
      ≡ emit cleared (
          packet_bytes sender true 90000 (
            bit_or (max_nri 0 ((0x67 ∷ 9 ∷ []) ∷ (0x68 ∷ []) ∷ [])) 24
            ∷ aggregate ((0x67 ∷ 9 ∷ []) ∷ (0x68 ∷ []) ∷ []))))
    × ((s : RtpH264Depacketizer) × (dispatch_nal idle
            (bit_or (max_nri 0 ((0x67 ∷ 9 ∷ []) ∷ (0x68 ∷ []) ∷ [])) 24
              ∷ aggregate ((0x67 ∷ 9 ∷ []) ∷ (0x68 ∷ []) ∷ []))
            90000
          ≡ some s)
        × Grows idle s (annex_b ((0x67 ∷ 9 ∷ []) ∷ (0x68 ∷ []) ∷ [])))
send_stap_a-Grows_example =
    send_stap_a-Grows sender cleared (0x67 ∷ 9 ∷ []) ((0x68 ∷ []) ∷ []) 90000 true idle
      ((omega arith, omega arith), ((omega arith, omega arith), tt))
      ((omega arith, (omega arith, tt)), ((omega arith, tt), tt))
