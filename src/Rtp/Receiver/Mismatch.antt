-- ===== src/Rtp/Receiver/Mismatch.antt =====
-- The report of an unexpected payload type.
use libnx.Common.{
  ℕ, ◌≡◌, ◌≤◌, Bool, false, List, [], ◌∷◌, Option, none, some, arith, length, Bool-cases,
  Option-cases, inl, inr,
}
use libnx.Rtp.Types.{Bytes, ok, unexpected, RtpHeaderView}
use libnx.Rtp.Packet.{parse_header_and_payload}
use libnx.Rtp.H264.Depacketizer.{Output, ◌>>=◌}
use libnx.Rtp.Receiver.{
  RtpReceiver, mismatches, note_mismatch, track_sequence, count_packet, call_frame_callback,
  depacketize, receive, handle_rtp_packet, handle_all,
}

-- No report before the flag is set, and one at most after.
abbrev pub ReportsOnce : {D : Type 0} → RtpReceiver D → Type 0
ReportsOnce r =
    (r.pt_mismatch_reported ≡ false → r.mismatch_reports ≡ []) × (length r.mismatch_reports ≤ 1)

module _ {D : Type 0} where
  note_mismatch-ReportsOnce :
      (r : RtpReceiver D) (header : RtpHeaderView)
      → ReportsOnce r
      → ReportsOnce (note_mismatch r header)
  unfolding note_mismatch
  note_mismatch-ReportsOnce r header (fresh, once) = ground arith

  track_sequence-reports :
      (r : RtpReceiver D) (size seq : ℕ)
      → let r' = track_sequence (count_packet r size) seq in
        (r'.mismatch_reports ≡ r.mismatch_reports)
        × (r'.pt_mismatch_reported ≡ r.pt_mismatch_reported)
  unfolding track_sequence count_packet
  track_sequence-reports r size seq = ground arith

-- `none` is a call whose depacketizer has undefined behaviour.
abbrev pub Returns : {D : Type 0} → (RtpReceiver D → Type 0) → Option (RtpReceiver D) → Type 0
Returns P none = Unit {0}
Returns P (some r) = P r

Returns-bind :
    {D : Type 0} {P : RtpReceiver D → Type 0} (o : Option (RtpReceiver D))
    (f : RtpReceiver D → Option (RtpReceiver D))
    → Returns P o
    → ((r : RtpReceiver D) → P r → Returns P (f r))
    → Returns P (o >>= f)
Returns-bind none f h k = tt
Returns-bind (some r) f h k = k r h

module _ {D : Type 0}
    (process_packet : D → RtpHeaderView → Bytes → Bytes → Bool → Option (D × Output)) where
  depacketize-ReportsOnce :
      (r : RtpReceiver D) (d : Option D) (header : RtpHeaderView) (payload : Bytes)
      → ReportsOnce r
      → Returns ReportsOnce (depacketize process_packet r d header payload)
  unfolding depacketize call_frame_callback
  depacketize-ReportsOnce r none header payload once = once
  depacketize-ReportsOnce r (some d) header payload once =
      elim (Option-cases (process_packet d header payload [] false)) [
        | inl e ↦ rw e tt
        | inr ((d', o), e) ↦ elim (Bool-cases o.complete) [
          | inl c ↦ rw (e, c) once
          | inr c ↦ rw (e, c) once
        ]
      ]

  receive-ReportsOnce :
      (r : RtpReceiver D) (size : ℕ) (header : RtpHeaderView) (payload : Bytes)
      → ReportsOnce r
      → Returns ReportsOnce (receive process_packet r size header payload)
  unfolding receive
  receive-ReportsOnce r size header payload once =
      let (reports, reported) = track_sequence-reports r size header.sequence_number in
      let r' = track_sequence (count_packet r size) header.sequence_number in
      let once' : ReportsOnce r' = rw (reports, reported) once in
      elim (Bool-cases (mismatches r header)) [
        | inl e ↦ rw e (note_mismatch-ReportsOnce r header once)
        | inr e ↦ elim (Bool-cases r'.has_frame_callback) [
          | inl c ↦ rw (e, c) (depacketize-ReportsOnce r' r'.depacketizer header payload once')
          | inr c ↦ rw (e, c) once'
        ]
      ]

  -- Over any packets, well formed or not, a receiver on which one mismatch at most was reported, and
  -- none before its flag was set, stays so; the depacketizer's undefined behaviour is excepted.
  pub handle_all-ReportsOnce :
      (r : RtpReceiver D) (packets : List Bytes)
      → ReportsOnce r
      → Returns ReportsOnce (handle_all process_packet r packets)
  unfolding handle_all handle_rtp_packet
  handle_all-ReportsOnce r [] once = once
  handle_all-ReportsOnce r (packet ∷ packets) once =
      elim (parse_header_and_payload packet)
        as (λ x. Returns ReportsOnce (
          (elim x [
            | ok (header, payload) ↦ receive process_packet r (length packet) header payload
            | unexpected e ↦ some r
          ])
          >>= λ r'. handle_all process_packet r' packets)) [
            | ok (header, payload) ↦
                Returns-bind (receive process_packet r (length packet) header payload) _
                  (receive-ReportsOnce r (length packet) header payload once)
                  (λ r' h. handle_all-ReportsOnce r' packets h)
            | unexpected e ↦ handle_all-ReportsOnce r packets once
          ]
