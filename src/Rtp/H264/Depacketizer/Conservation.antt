-- ===== src/Rtp/H264/Depacketizer/Conservation.antt =====
-- No byte of a frame is lost, doubled or reordered on its way through `process_packet`.
use libnx.Common.{
  ◌≡◌, refl, sym, ap, ◌∙◌, Bool, true, false, [], ◌∷◌, ◌++◌, Option, none, some, arith,
  append_assoc, append-nil, if◌then◌else◌, Bool-cases, ◌⊎◌, inl, inr,
}
use libnx.Rtp.Types.{Bytes, RtpHeaderView}
use libnx.Rtp.Extension.{is_empty}
use libnx.Rtp.H264.Depacketizer.{
  RtpH264Depacketizer, Output, ◌>>=◌, take_packet, set_pending, finish_frame, process_packet,
  switches,
}
use libnx.Rtp.H264.Depacketizer.Contribution.{contribution, Follows, dispatch-Follows}

-- What was received and not yet delivered, oldest first.
abbrev pub held : RtpH264Depacketizer → Bytes
held s = (if s.has_pending then s.pending_frame else []) ++ s.frame_buffer

abbrev pub delivered : Output → Bytes
delivered o = if o.complete then o.frame else []

-- While a frame waits, no other is being put together.
abbrev pub IsOrderly : RtpH264Depacketizer → Type 0
IsOrderly s = s.has_pending ≡ true → s.frame_buffer ≡ []

-- The call returns, delivers what it should and leaves an orderly state; or it fails with `c`.
abbrev pub Conserves :
    RtpH264Depacketizer → Option (RtpH264Depacketizer × Output) → Option Bytes → Type 0
Conserves s r c =
    ((r ≡ none) × (c ≡ none))
    ⊎ ((s' : RtpH264Depacketizer) × (o : Output) × (new : Bytes) × (r ≡ some (s', o))
        × (c ≡ some new)
        × (delivered o ++ held s' ≡ held s ++ new)
        × IsOrderly s')

take_packet-Follows :
    (s : RtpH264Depacketizer) (header : RtpHeaderView) (payload : Bytes)
    → Follows s
        (take_packet s header payload)
        (contribution s.in_fragmentation s.accumulator payload)
unfolding take_packet
take_packet-Follows s header payload =
    elim (dispatch-Follows (record s { last_timestamp = header.timestamp }) payload
      header.timestamp) [
        | inl (a, b) ↦ inl (rw a refl, b)
        | inr (s', new, a, b, g) ↦
            inr (record s' { last_seq = header.sequence_number }, new, rw a refl, b, ground arith)
      ]

pub set_pending-held :
    (marker : Bool) (s : RtpH264Depacketizer)
    → s.has_pending ≡ false
    → (held (set_pending marker s) ≡ s.frame_buffer) × IsOrderly (set_pending marker s)
unfolding set_pending
set_pending-held marker s h = ground (arith, append-nil s.frame_buffer)

pub finish_frame-held :
    (marker : Bool) (f : Bytes) (k : Bool) (s : RtpH264Depacketizer)
    → s.has_pending ≡ false
    → let (s', o) = finish_frame marker f k s in
      (delivered o ++ held s' ≡ s.frame_buffer) × IsOrderly s'
unfolding finish_frame
finish_frame-held marker f k s h = ground (arith, append-nil s.frame_buffer)

-- The three ways through a call with a payload.
module _ (s : RtpH264Depacketizer) (header : RtpHeaderView) (payload : Bytes) where
  abbrev new_bytes : Option Bytes
  new_bytes = contribution s.in_fragmentation s.accumulator payload

  -- A new time stamp delivers the frame that was being put together.
  switch-Conserves :
      s.has_pending ≡ false
      → Conserves s
          (take_packet (record s { frame_buffer = []; frame_has_keyframe = false }) header payload
            >>= λ s'. some (
              set_pending header.marker s',
              record { complete = true; frame = s.frame_buffer; keyframe = s.frame_has_keyframe },
            ))
          new_bytes
  switch-Conserves h =
      elim (take_packet-Follows (record s { frame_buffer = []; frame_has_keyframe = false }) header
        payload) [
          | inl (a, b) ↦ inl (rw a refl, b)
          | inr (s', new, a, b, g) ↦
              let (kept, orderly) = set_pending-held header.marker s' (g.same_flag ∙ h) in
              rw a (
                inr (
                  _,
                  _,
                  new,
                  refl,
                  b,
                  rw h (ap (λ t. s.frame_buffer ++ t) (kept ∙ g.frame_grown)),
                  orderly,
                ))
        ]

  -- A waiting frame is delivered.
  pending-Conserves :
      (f : Bytes)
      → s.has_pending ≡ true
      → s.frame_buffer ≡ []
      → Conserves s
          (take_packet (record s { pending_frame = f; has_pending = false }) header payload
            >>= λ s'. some (
              set_pending header.marker s',
              record { complete = true; frame = s.pending_frame; keyframe = s.pending_keyframe },
            ))
          new_bytes
  pending-Conserves f h clear =
      elim (take_packet-Follows (record s { pending_frame = f; has_pending = false }) header
        payload) [
          | inl (a, b) ↦ inl (rw a refl, b)
          | inr (s', new, a, b, g) ↦
              let (kept, orderly) = set_pending-held header.marker s' g.same_flag in
              rw a (
                inr (
                  _,
                  _,
                  new,
                  refl,
                  b,
                  ap (λ t. s.pending_frame ++ t) (kept ∙ g.frame_grown)
                      ∙ rw h (sym (append_assoc s.pending_frame s.frame_buffer new)),
                  orderly,
                ))
        ]

  -- Nothing waits, and the frame goes on.
  plain-Conserves :
      (f : Bytes) (k : Bool)
      → s.has_pending ≡ false
      → Conserves s
          (take_packet s header payload >>= λ s'. some (finish_frame header.marker f k s'))
          new_bytes
  plain-Conserves f k h = elim (take_packet-Follows s header payload) [
    | inl (a, b) ↦ inl (rw a refl, b)
    | inr (s', new, a, b, g) ↦
        let (kept, orderly) = finish_frame-held header.marker f k s' (g.same_flag ∙ h) in
        rw a (inr (_, _, new, refl, b, kept ∙ g.frame_grown ∙ rw h refl, orderly))
  ]

pub not_pending :
    (s : RtpH264Depacketizer)
    → IsOrderly s
    → is_empty s.frame_buffer ≡ false
    → s.has_pending ≡ false
not_pending s orderly full = elim (Bool-cases s.has_pending) [
  | inr no_wait ↦ no_wait
  | inl waits ↦ cc (ap is_empty (orderly waits))
]

-- From an orderly state, for any packet and out parameters: the call is undefined exactly when the
-- payload's contribution is; otherwise what it delivers and what it then holds, in this order, is what
-- it held before and the payload's contribution behind it, and the state is orderly again.
pub process_packet-Conserves :
    (s : RtpH264Depacketizer) (header : RtpHeaderView) (payload out_frame : Bytes)
    (out_keyframe : Bool)
    → IsOrderly s
    → Conserves s
        (process_packet s header payload out_frame out_keyframe)
        (contribution s.in_fragmentation s.accumulator payload)
unfolding process_packet
process_packet-Conserves s header [] f k orderly =
    unfold contribution in inr (s, _, [], refl, refl, sym (append-nil (held s)), orderly)
process_packet-Conserves s header (b ∷ rest) f k orderly = elim (Bool-cases (switches s header)) [
  | inl switch ↦
      rw switch (switch-Conserves s header (b ∷ rest) (not_pending s orderly (ground arith)))
  | inr stay ↦ elim (Bool-cases s.has_pending) [
    | inl waits ↦
        rw (stay, waits)
          (rw waits at (pending-Conserves s header (b ∷ rest) f waits (orderly waits)))
    | inr no_wait ↦
        simp (stay, no_wait) (simp no_wait at (plain-Conserves s header (b ∷ rest) f k no_wait))
  ]
]
