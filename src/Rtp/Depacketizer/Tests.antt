-- ===== src/Rtp/Depacketizer/Tests.antt =====
-- A depacketizer with a callback, and four frames of unknown units.
use libnx.Common.{refl, true, false, [], arith}
use libnx.Rtp.Depacketizer.{RtpDepacketizer}
use libnx.Rtp.Depacketizer.Reports.{ReportsMismatch}

abbrev fresh : RtpDepacketizer
fresh = record {
  has_callback = true;
  consecutive_errors = 0;
  error_frame_count = 0;
  last_error_timestamp = 0;
  mismatch_reported = false;
  reports = [];
}

fresh-ReportsMismatch : ReportsMismatch fresh
fresh-ReportsMismatch = record { fresh = λ e. refl; once = omega arith; enough = tt }
