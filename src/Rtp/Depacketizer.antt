-- ===== src/Rtp/Depacketizer.antt =====
-- The base class of the depacketizers (nxnet/rtp/rtp_depacketizer.h): the count of frames with
-- unknown NAL units, and the callback on a codec mismatch. `reports` lists the calls made of it.
pub mod Reports
mod Tests
use libnx.Common.{ℕ, ◌+◌, ◌%◌, ◌^◌, ◌==◌, Bool, true, false, not, ◌&&◌, List, [], ◌∷◌, ◌++◌, leb}
use libnx.Common.{if◌then◌else◌}

pub record RtpDepacketizer : Type 0 where
  pub has_callback : Bool
  pub consecutive_errors : ℕ
  pub error_frame_count : ℕ
  pub last_error_timestamp : ℕ
  pub mismatch_reported : Bool
  pub reports : List ℕ

abbrev pub mismatch_frame_threshold : ℕ
mismatch_frame_threshold = 3

abbrev pub set_codec_mismatch_callback : RtpDepacketizer → RtpDepacketizer
set_codec_mismatch_callback d = record d { has_callback = true }

-- The counters are `uint32_t`.
unfoldable pub report_unknown_nal : RtpDepacketizer → ℕ → RtpDepacketizer
report_unknown_nal d rtp_timestamp =
    let frames =
      if rtp_timestamp == d.last_error_timestamp
      then d.error_frame_count
      else (d.error_frame_count + 1) % 2 ^ 32 in
    let d' : RtpDepacketizer = record d {
      consecutive_errors = (d.consecutive_errors + 1) % 2 ^ 32;
      error_frame_count = frames;
      last_error_timestamp = rtp_timestamp;
    } in
    if not d.mismatch_reported && leb mismatch_frame_threshold frames && d.has_callback
    then record d' { mismatch_reported = true; reports = d.reports ++ (frames ∷ []) }
    else d'

unfoldable pub reset_error_count : RtpDepacketizer → RtpDepacketizer
reset_error_count d = record d {
  consecutive_errors = 0;
  error_frame_count = 0;
  last_error_timestamp = 0;
  mismatch_reported = false;
}
