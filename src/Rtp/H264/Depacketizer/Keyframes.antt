-- ===== src/Rtp/H264/Depacketizer/Keyframes.antt =====
-- The keyframe flag of a delivered frame, where the fragments of an IDR picture were lost.
use libnx.Common.{
  ℕ, ◌≡◌, refl, Bool, true, false, [], ◌∷◌, ◌++◌, Option, some, arith, bit_and, bit_or,
}
use libnx.Rtp.Types.{Bytes, RtpHeaderView}
use libnx.Rtp.H264.Depacketizer.{
  RtpH264Depacketizer, Output, ◌>>=◌, dispatch_nal, handle_fu_a, start_fragment, add_fragment,
  handle_single_nal, take_packet, finish_frame, process_packet, switches, start_code,
}

-- Two packets in a row, the second with what the first leaves.
unfoldable pub process_two :
    RtpH264Depacketizer
    → RtpHeaderView
    → Bytes
    → RtpHeaderView
    → Bytes
    → Option (RtpH264Depacketizer × Output)
process_two s header payload header' payload' = do
  (s', o) ← process_packet s header payload [] false
  process_packet s' header' payload' [] false

process_idle :
    (s : RtpH264Depacketizer) (header : RtpHeaderView) (b : ℕ) (rest out_frame : Bytes)
    (out_keyframe : Bool)
    → s.frame_buffer ≡ []
    → s.has_pending ≡ false
    → process_packet s header (b ∷ rest) out_frame out_keyframe ≡ (do
      s' ← take_packet s header (b ∷ rest)
      some (finish_frame header.marker out_frame out_keyframe s'))
unfolding process_packet
process_idle s header b rest f k e p = rw (idle, p) refl
  where
    idle : switches s header ≡ false
    idle = rw e (ground arith)

open_fragment :
    (s : RtpH264Depacketizer) (header : RtpHeaderView) (indicator fu_header : ℕ) (fragment : Bytes)
    → bit_and indicator 0x1f ≡ 28
    → bit_and fu_header 0x80 ≡ 0x80
    → bit_and fu_header 0x40 ≡ 0
    → bit_and fu_header 0x1f ≡ 5
    → take_packet s header (indicator ∷ fu_header ∷ fragment)
      ≡ some (record s {
        accumulator = start_code ++ (bit_or (bit_and indicator 0xe0) 5 ∷ fragment);
        in_fragmentation = true;
        frame_has_keyframe = true;
        last_timestamp = header.timestamp;
        last_seq = header.sequence_number;
      })
unfolding take_packet dispatch_nal handle_fu_a start_fragment add_fragment
open_fragment s header i f fragment hi hs he ht = rw (hi, hs, he, ht) refl

whole_unit :
    (s : RtpH264Depacketizer) (header : RtpHeaderView) (b : ℕ) (rest : Bytes)
    → s.frame_buffer ≡ []
    → bit_and b 0x1f ≡ 1
    → take_packet s header (b ∷ rest)
      ≡ some (record s {
        frame_buffer = start_code ++ (b ∷ rest);
        last_timestamp = header.timestamp;
        last_seq = header.sequence_number;
      })
unfolding take_packet dispatch_nal handle_single_nal
whole_unit s header b rest e hb = rw (hb, e) refl

-- From a state with no frame under way: a packet that opens an IDR fragment and does not close it, and
-- then a whole unit of type 1 with the marker, at any time stamp. The frame that comes out is that
-- unit alone, and it is reported as a keyframe.
pub stale_keyframe :
    (s : RtpH264Depacketizer) (first second : RtpHeaderView) (indicator fu_header b : ℕ)
    (fragment rest : Bytes)
    → s.frame_buffer ≡ []
    → s.has_pending ≡ false
    → bit_and indicator 0x1f ≡ 28
    → bit_and fu_header 0x80 ≡ 0x80
    → bit_and fu_header 0x40 ≡ 0
    → bit_and fu_header 0x1f ≡ 5
    → bit_and b 0x1f ≡ 1
    → first.marker ≡ false
    → second.marker ≡ true
    → (s' : RtpH264Depacketizer) × (process_two s first
          (indicator ∷ fu_header ∷ fragment)
          second
          (b ∷ rest)
        ≡ some (s', record { complete = true; frame = start_code ++ (b ∷ rest); keyframe = true }))
unfolding process_two finish_frame
stale_keyframe s first second i f b fragment rest e p hi hs he ht hb m1 m2 =
    let opened : RtpH264Depacketizer = record s {
      accumulator = start_code ++ (bit_or (bit_and i 0xe0) 5 ∷ fragment);
      in_fragmentation = true;
      frame_has_keyframe = true;
      last_timestamp = first.timestamp;
      last_seq = first.sequence_number;
    } in
    rw
      (
        process_idle s first i (f ∷ fragment) [] false e p,
        open_fragment s first i f fragment hi hs he ht,
        m1,
        process_idle opened second b rest [] false e p,
        whole_unit opened second b rest e hb,
        m2,
      )
      (_, refl)
