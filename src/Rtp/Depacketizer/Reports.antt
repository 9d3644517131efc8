-- ===== src/Rtp/Depacketizer/Reports.antt =====
-- The report of a codec mismatch.
use libnx.Common.{ℕ, ◌≤◌, ◌≡◌, false, List, [], ◌∷◌, arith, length, All}
use libnx.Rtp.Depacketizer.{RtpDepacketizer, report_unknown_nal}

-- The calls for a run of unknown NAL units, by their time stamps.
unfoldable pub report_all : RtpDepacketizer → List ℕ → RtpDepacketizer
report_all d [] = d
report_all d (t ∷ ts) = report_all (report_unknown_nal d t) ts

-- One report at most, none before the flag is set, and each of three frames at least.
pub record ReportsMismatch (d : RtpDepacketizer) : Type 0 where
  pub fresh : d.mismatch_reported ≡ false → d.reports ≡ []
  pub once : length d.reports ≤ 1
  pub enough : All (λ (n : ℕ). 3 ≤ n) d.reports

report-ReportsMismatch :
    (d : RtpDepacketizer) (t : ℕ) → ReportsMismatch d → ReportsMismatch (report_unknown_nal d t)
unfolding report_unknown_nal
report-ReportsMismatch d t v = ground (arith, v.fresh, v.once, v.enough)

-- Over any run of unknown NAL units the mismatch callback is called once at most, and then for three
-- frames at least.
pub report_all-ReportsMismatch :
    (d : RtpDepacketizer) (ts : List ℕ) → ReportsMismatch d → ReportsMismatch (report_all d ts)
unfolding report_all
report_all-ReportsMismatch d [] v = v
report_all-ReportsMismatch d (t ∷ ts) v =
    report_all-ReportsMismatch (report_unknown_nal d t) ts (report-ReportsMismatch d t v)
