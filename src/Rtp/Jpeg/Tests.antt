-- ===== src/Rtp/Jpeg/Tests.antt =====
-- A picture, a state and packets for the theorems on the JPEG depacketizer.
use libnx.Common.{◌≡◌, refl, [], ◌∷◌, arith, true, false, none}
use libnx.Rtp.Types.{RtpHeaderView}
use libnx.Rtp.Jpeg.Depacketizer.{RtpJpegDepacketizer, empty_header, empty_restart_header}
use libnx.Rtp.Jpeg.Fragments.{Picture, packets_from, receive}
use libnx.Rtp.Jpeg.Delivery.{IsPicture, receive-IsPicture, receive-no_width}

-- A frame at 100 was begun.
abbrev begun : RtpJpegDepacketizer
begun = record {
  base = record {
    has_callback = false;
    consecutive_errors = 0;
    error_frame_count = 0;
    last_error_timestamp = 0;
    mismatch_reported = false;
    reports = [];
  };
  scan_data = 1 ∷ 2 ∷ [];
  quant_tables = [];
  quant_tables_cached = false;
  cached_q = 0;
  cached_precision = 0;
  current_header = empty_header;
  restart_header = empty_restart_header;
  has_restart_header = false;
  frame_started = true;
  last_timestamp = 100;
  detected_type = none;
}

abbrev header : RtpHeaderView
header = record {
  version = 2;
  padding = false;
  extension = false;
  marker = false;
  payload_type = 26;
  sequence_number = 5;
  timestamp = 200;
  ssrc = 7;
}

-- 640 by 480.
abbrev picture : Picture
picture = record { type = 1; q = 80; width = 80; height = 60 }

receive-IsPicture_example :
    IsPicture 640 480
      (receive begun header (packets_from picture 0 ((7 ∷ 8 ∷ []) ∷ (9 ∷ []) ∷ [])) [] false).1
receive-IsPicture_example =
    receive-IsPicture picture begun header (7 ∷ 8 ∷ []) ((9 ∷ []) ∷ []) [] false (omega arith)
      (omega arith) (omega arith) (omega arith) (omega arith) (omega arith) (omega arith)
      (cc, (cc, tt)) refl

receive-no_width_example :
    (receive begun header
      (packets_from (record picture { width = 0 }) 0 ((7 ∷ 8 ∷ []) ∷ (9 ∷ []) ∷ []))
      (1 ∷ [])
      false).1
    ≡ record { complete = true; frame = 1 ∷ []; keyframe = true }
receive-no_width_example =
    receive-no_width (record picture { width = 0 }) begun header (7 ∷ 8 ∷ []) ((9 ∷ []) ∷ [])
      (1 ∷ []) false (omega arith) (omega arith) refl (omega arith) (cc, (cc, tt)) refl
