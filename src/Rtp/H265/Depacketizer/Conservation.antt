-- ===== src/Rtp/H265/Depacketizer/Conservation.antt =====
-- No byte of a frame is lost, doubled or reordered on its way through `process_packet`.
use libnx.Common.{
  ◌≡◌, refl, sym, ap, ◌∙◌, Bool, true, false, [], ◌∷◌, ◌++◌, arith, append_assoc, append-nil,
  if◌then◌else◌, Bool-cases, inl, inr,
}
use libnx.Rtp.Types.{Bytes, RtpHeaderView}
use libnx.Rtp.H264.Depacketizer.{Output, set_pending, finish_frame, switches}
use libnx.Rtp.H264.Depacketizer.Contribution.{Grows}
use libnx.Rtp.H264.Depacketizer.Conservation.{
  held, delivered, IsOrderly, set_pending-held, finish_frame-held, not_pending,
}
use libnx.Rtp.H265.Depacketizer.{RtpH265Depacketizer, take_packet, process_packet}
use libnx.Rtp.H265.Depacketizer.Contribution.{contribution, dispatch-Grows, has_two_bytes}

-- The call delivers what it should and leaves an orderly state.
abbrev pub Conserves : RtpH265Depacketizer → RtpH265Depacketizer × Output → Bytes → Type 0
Conserves s r new = let (s', o) = r in (delivered o ++ held s' ≡ held s ++ new) × IsOrderly s'

take_packet-Grows :
    (s : RtpH265Depacketizer) (header : RtpHeaderView) (payload : Bytes)
    → Grows s (take_packet s header payload) (contribution s.in_fragmentation s.accumulator payload)
unfolding take_packet
take_packet-Grows s header payload =
    let g =
      dispatch-Grows (record s { last_timestamp = header.timestamp }) payload header.timestamp in
    record {
      frame_grown = g.frame_grown;
      same_flag = g.same_flag;
      same_pending = g.same_pending;
      same_keyframe = g.same_keyframe;
    }

-- The three ways through a call with a payload.
module _ (s : RtpH265Depacketizer) (header : RtpHeaderView) (payload : Bytes) where
  abbrev new_bytes : Bytes
  new_bytes = contribution s.in_fragmentation s.accumulator payload

  -- A new time stamp delivers the frame that was being put together.
  switch-Conserves :
      s.has_pending ≡ false
      → Conserves s
          (
            set_pending header.marker (
                take_packet
                  (record s { frame_buffer = []; frame_has_keyframe = false })
                  header
                  payload),
            record { complete = true; frame = s.frame_buffer; keyframe = s.frame_has_keyframe },
          )
          new_bytes
  switch-Conserves h =
      let clear : RtpH265Depacketizer = record s {
        frame_buffer = [];
        frame_has_keyframe = false;
      } in
      let g = take_packet-Grows clear header payload in
      let (kept, orderly) =
        set_pending-held header.marker (take_packet clear header payload) (g.same_flag ∙ h) in
      (
        ap (λ t. s.frame_buffer ++ t) (kept ∙ g.frame_grown)
            ∙ ap (λ w. ((if w then s.pending_frame else []) ++ s.frame_buffer) ++ new_bytes)
                (sym h),
        orderly,
      )

  -- A waiting frame is delivered.
  pending-Conserves :
      (f : Bytes)
      → s.has_pending ≡ true
      → s.frame_buffer ≡ []
      → Conserves s
          (
            set_pending header.marker
                (take_packet (record s { pending_frame = f; has_pending = false }) header payload),
            record { complete = true; frame = s.pending_frame; keyframe = s.pending_keyframe },
          )
          new_bytes
  pending-Conserves f h clear =
      let free : RtpH265Depacketizer = record s { pending_frame = f; has_pending = false } in
      let g = take_packet-Grows free header payload in
      let (kept, orderly) =
        set_pending-held header.marker (take_packet free header payload) g.same_flag in
      (
        ap (λ t. s.pending_frame ++ t) (kept ∙ g.frame_grown)
            ∙ rw h (sym (append_assoc s.pending_frame s.frame_buffer new_bytes)),
        orderly,
      )

  -- Nothing waits, and the frame goes on.
  plain-Conserves :
      (f : Bytes) (k : Bool)
      → s.has_pending ≡ false
      → Conserves s (finish_frame header.marker f k (take_packet s header payload)) new_bytes
  plain-Conserves f k h =
      let g = take_packet-Grows s header payload in
      let (kept, orderly) =
        finish_frame-held header.marker f k (take_packet s header payload) (g.same_flag ∙ h) in
      (kept ∙ g.frame_grown ∙ rw h refl, orderly)

nothing-Conserves :
    (s : RtpH265Depacketizer) (f : Bytes) (k : Bool)
    → IsOrderly s
    → Conserves s (s, record { complete = false; frame = f; keyframe = k }) []
nothing-Conserves s f k orderly = (sym (append-nil (held s)), orderly)

-- From an orderly state, for any packet and out parameters, `process_packet` returns; what it delivers
-- and what it then holds, in this order, is what it held before and the payload's contribution behind
-- it, and the state is orderly again.
pub h265-process_packet-Conserves :
    (s : RtpH265Depacketizer) (header : RtpHeaderView) (payload out_frame : Bytes)
    (out_keyframe : Bool)
    → IsOrderly s
    → Conserves s
        (process_packet s header payload out_frame out_keyframe)
        (contribution s.in_fragmentation s.accumulator payload)
unfolding process_packet
h265-process_packet-Conserves s header [] f k orderly =
    unfold contribution in nothing-Conserves s f k orderly
h265-process_packet-Conserves s header (a ∷ []) f k orderly =
    unfold contribution in nothing-Conserves s f k orderly
h265-process_packet-Conserves s header (a ∷ b ∷ rest) f k orderly =
    elim (Bool-cases (switches s header)) [
      | inl switch ↦
          rw (has_two_bytes rest, switch)
            (switch-Conserves s header (a ∷ b ∷ rest) (not_pending s orderly (ground arith)))
      | inr stay ↦ elim (Bool-cases s.has_pending) [
        | inl waits ↦
            rw (has_two_bytes rest, stay, waits)
              (rw waits at (pending-Conserves s header (a ∷ b ∷ rest) f waits (orderly waits)))
        | inr no_wait ↦
            simp (has_two_bytes rest, stay, no_wait)
              (simp no_wait at (plain-Conserves s header (a ∷ b ∷ rest) f k no_wait))
      ]
    ]
