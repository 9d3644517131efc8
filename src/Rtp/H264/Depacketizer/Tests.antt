-- ===== src/Rtp/H264/Depacketizer/Tests.antt =====
-- States and packets for the theorems on the H.264 depacketizer.
use libnx.Common.{◌≡◌, refl, [], ◌∷◌, none, arith, true, false}
use libnx.Rtp.Types.{RtpHeaderView}
use libnx.Rtp.H264.Depacketizer.{RtpH264Depacketizer, process_packet}
use libnx.Rtp.H264.Depacketizer.Contribution.{contribution}
use libnx.Rtp.H264.Depacketizer.Conservation.{IsOrderly, Conserves, process_packet-Conserves}
use libnx.Rtp.H264.Depacketizer.Aggregates.{process_packet-empty_unit}

abbrev idle : RtpH264Depacketizer
idle = record {
  base = record {
    has_callback = false;
    consecutive_errors = 0;
    error_frame_count = 0;
    last_error_timestamp = 0;
    mismatch_reported = false;
    reports = [];
  };
  accumulator = [];
  frame_buffer = [];
  pending_frame = [];
  last_seq = 0;
  last_timestamp = 0;
  in_fragmentation = false;
  frame_has_keyframe = false;
  has_pending = false;
  pending_keyframe = false;
}

-- A unit of the frame at 100 was gathered.
abbrev gathering : RtpH264Depacketizer
gathering = record idle { frame_buffer = 0 ∷ 0 ∷ 0 ∷ 1 ∷ 0x41 ∷ []; last_timestamp = 100 }

abbrev middle : RtpHeaderView
middle = record {
  version = 2;
  padding = false;
  extension = false;
  marker = false;
  payload_type = 96;
  sequence_number = 5;
  timestamp = 200;
  ssrc = 7;
}

abbrev last : RtpHeaderView
last = record middle { marker = true; sequence_number = 7; timestamp = 300 }

gathering-IsOrderly : IsOrderly gathering
gathering-IsOrderly e = ground arith

process_packet-Conserves_example :
    Conserves gathering
      (process_packet gathering last (0x65 ∷ 9 ∷ []) [] false)
      (contribution false [] (0x65 ∷ 9 ∷ []))
process_packet-Conserves_example =
    process_packet-Conserves gathering last (0x65 ∷ 9 ∷ []) [] false gathering-IsOrderly

process_packet-empty_unit_example :
    process_packet gathering last (0x78 ∷ 0 ∷ 0 ∷ 9 ∷ []) [] false ≡ none
process_packet-empty_unit_example =
    process_packet-empty_unit gathering last 0x78 (9 ∷ []) [] false gathering-IsOrderly refl
