-- ===== src/Rtp/H265/Depacketizer/Tests.antt =====
-- States and packets for the theorems on the H.265 depacketizer.
use libnx.Common.{◌≡◌, refl, [], ◌∷◌, ◌++◌, arith, true, false}
use libnx.Rtp.Types.{RtpHeaderView}
use libnx.Rtp.H264.Depacketizer.{start_code}
use libnx.Rtp.H265.Depacketizer.{RtpH265Depacketizer, append_unit, process_packet}
use libnx.Rtp.H265.Depacketizer.Contribution.{contribution}
use libnx.Rtp.H265.Depacketizer.Conservation.{Conserves, h265-process_packet-Conserves}
use libnx.Rtp.H265.Depacketizer.Fragments.{fu_packet, later_packets, dispatch_all, fragments-whole}

-- A unit of the frame at 100 was gathered, and a fragment is open.
abbrev gathering : RtpH265Depacketizer
gathering = record {
  base = record {
    has_callback = false;
    consecutive_errors = 0;
    error_frame_count = 0;
    last_error_timestamp = 0;
    mismatch_reported = false;
    reports = [];
  };
  accumulator = 0 ∷ 0 ∷ 0 ∷ 1 ∷ 0x26 ∷ 1 ∷ 9 ∷ [];
  frame_buffer = start_code ++ (0x02 ∷ 1 ∷ 7 ∷ []);
  pending_frame = [];
  last_seq = 4;
  last_timestamp = 100;
  in_fragmentation = true;
  frame_has_keyframe = false;
  has_pending = false;
  pending_keyframe = false;
}

-- The marker, and a new time stamp.
abbrev last : RtpHeaderView
last = record {
  version = 2;
  padding = false;
  extension = false;
  marker = true;
  payload_type = 97;
  sequence_number = 5;
  timestamp = 200;
  ssrc = 7;
}

h265-process_packet-Conserves_example :
    Conserves gathering
      (process_packet gathering last (0x62 ∷ 1 ∷ 0x53 ∷ 8 ∷ []) [] false)
      (contribution true gathering.accumulator (0x62 ∷ 1 ∷ 0x53 ∷ 8 ∷ []))
h265-process_packet-Conserves_example =
    h265-process_packet-Conserves gathering last (0x62 ∷ 1 ∷ 0x53 ∷ 8 ∷ []) [] false (ground arith)

-- What the last fragment of an IDR unit adds.
last_fragment :
    contribution true gathering.accumulator (0x62 ∷ 1 ∷ 0x53 ∷ 8 ∷ [])
    ≡ start_code ++ (0x26 ∷ 1 ∷ 9 ∷ 8 ∷ [])
unfolding contribution
last_fragment = refl

fragments-whole_example :
    dispatch_all gathering
      (fu_packet 0x26 1 0x80 (5 ∷ []) ∷ later_packets 0x26 1 ((6 ∷ 7 ∷ []) ∷ []) (8 ∷ []))
      100
    ≡ record (append_unit gathering (0x26 ∷ 1 ∷ 5 ∷ 6 ∷ 7 ∷ 8 ∷ [])) {
      in_fragmentation = false;
      accumulator = [];
    }
fragments-whole_example =
    fragments-whole 0x26 1 (5 ∷ []) ((6 ∷ 7 ∷ []) ∷ []) (8 ∷ []) 100 gathering (omega arith)
