-- ===== src/Rtp/Samples/Delivery.antt =====
-- Every packet of a raw or G.711 frame reaches the receiver's parser whole.
use libnx.Common.{
  ℕ, zero, suc, ◌+◌, ◌-◌, ◌%◌, ◌^◌, ◌≤◌, ◌<◌, ◌≡◌, ◌≢◌, refl, ap, sym, [], ◌∷◌, ◌++◌, some, arith,
  length, min, drop, ltb, leb, ltb→lt, ltb_false→le, le→ltb_false, inl, inr, Bool-cases,
  take-append-drop, length-take, length-drop, drop-add, drop_all,
}
use libnx.Rtp.Types.{Bytes}
use libnx.Rtp.Packet.{subspan}
use libnx.Rtp.Extension.{is_empty}
use libnx.Rtp.FrameBuffer.{RtpFrameBuffer, cleared}
use libnx.Rtp.Packetizer.{RtpPacketizer, write_rtp_header}
use libnx.Rtp.Packetizer.Header.{IsPacketizer}
use libnx.Rtp.Samples.{
  Sent, payload_limit, raw_loop, g711_loop, finalized, raw_packetize, g711_packetize,
}
use libnx.Rtp.Samples.Stream.{
  Delivers, Delivery, Delivers-rest, Delivers-none, Delivers-cons, next_packet,
  next_packet-IsPacketizer,
}

-- One round cuts `drop offset frame` into the piece it sends and what is behind it.
module _ (frame : Bytes) (limit offset : ℕ) (here : offset < length frame) (room : 1 ≤ limit) where
  abbrev piece_size : ℕ
  piece_size = min limit (length frame - offset)

  abbrev piece : Bytes
  piece = subspan frame offset (offset + piece_size)

  length-piece : length piece ≡ piece_size
  length-piece = omega (
    arith,
    length-take (offset + piece_size - offset) (drop offset frame),
    length-drop offset frame,
  )

  piece-append : piece ++ drop (offset + piece_size) frame ≡ drop offset frame
  piece-append =
      let same : offset + piece_size - offset ≡ piece_size = omega arith in
      rw (same, drop-add offset piece_size frame) (take-append-drop piece_size (drop offset frame))

  last_piece :
      leb (length frame) (offset + piece_size) ≡ is_empty (drop (offset + piece_size) frame)
  last_piece =
      is_empty-drop (drop (offset + piece_size) frame) (length-drop (offset + piece_size) frame)
    where
      is_empty-drop :
          (rest : Bytes)
          → length rest ≡ length frame - (offset + piece_size)
          → leb (length frame) (offset + piece_size) ≡ is_empty rest
      is_empty-drop [] e = ground arith
      is_empty-drop (b ∷ bs) e = ground arith

at_end : (frame : Bytes) (offset : ℕ) → length frame ≤ offset → [] ≡ drop offset frame
at_end frame offset h = sym (drop_all frame offset h)

abbrev pub same_time : ℕ → ℕ → ℕ
same_time timestamp sent = timestamp

abbrev pub sample_time : ℕ → ℕ → ℕ
sample_time timestamp sent = (timestamp + sent % 2 ^ 32) % 2 ^ 32

module _ (frame : Bytes) (limit : ℕ) (room : 1 ≤ limit) where
  raw_loop_over :
      (fuel : ℕ) (p : RtpPacketizer) (output : RtpFrameBuffer) (timestamp offset : ℕ)
      → length frame ≤ offset
      → raw_loop fuel p output frame limit timestamp offset ≡ some (p, output)
  unfolding raw_loop
  raw_loop_over zero p output timestamp offset h = rw (le→ltb_false offset (length frame) h) refl
  raw_loop_over (suc fuel) p output timestamp offset h =
      rw (le→ltb_false offset (length frame) h) refl

  raw_loop-done :
      (fuel : ℕ) (p : RtpPacketizer) (output : RtpFrameBuffer) (timestamp offset : ℕ)
      → IsPacketizer p
      → length frame ≤ offset
      → Delivers same_time limit p timestamp
          (drop offset frame)
          output
          (raw_loop fuel p output frame limit timestamp offset)
  raw_loop-done fuel p output timestamp offset v over =
      Delivers-rest refl (at_end frame offset over) (
        Delivers-none same_time limit p timestamp output _ v.sequence_fits
          (raw_loop_over fuel p output timestamp offset over))

  raw_loop-Delivers :
      (fuel : ℕ) (p : RtpPacketizer) (output : RtpFrameBuffer) (timestamp offset : ℕ)
      → IsPacketizer p
      → timestamp < 2 ^ 32
      → length frame - offset ≤ fuel
      → Delivers same_time limit p timestamp
          (drop offset frame)
          output
          (raw_loop fuel p output frame limit timestamp offset)
  unfolding raw_loop write_rtp_header
  raw_loop-Delivers zero p output timestamp offset v h enough =
      raw_loop-done zero p output timestamp offset v (omega arith)
  raw_loop-Delivers (suc fuel) p output timestamp offset v h enough =
      elim (Bool-cases (ltb offset (length frame))) [
        | inr over ↦ raw_loop-done (suc fuel) p output timestamp offset v (ltb_false→le _ _ over)
        | inl inside ↦
            let here = ltb→lt offset (length frame) inside in
            let sized = length-piece frame limit offset here room in
            rw inside (
              Delivers-rest refl (piece-append frame limit offset here room) (
                Delivers-cons same_time limit p timestamp output _
                  (piece frame limit offset here room) _ _ v h (omega arith) (omega arith)
                  (last_piece frame limit offset here room)
                  (raw_loop-Delivers fuel (next_packet p) _ timestamp _ (next_packet-IsPacketizer v)
                    h (omega arith))))
      ]

  g711_loop_over :
      (fuel : ℕ) (p : RtpPacketizer) (output : RtpFrameBuffer) (timestamp offset : ℕ)
      → length frame ≤ offset
      → g711_loop fuel p output frame limit timestamp offset ≡ some (p, output)
  unfolding g711_loop
  g711_loop_over zero p output timestamp offset h = rw (le→ltb_false offset (length frame) h) refl
  g711_loop_over (suc fuel) p output timestamp offset h =
      rw (le→ltb_false offset (length frame) h) refl

  g711_loop-done :
      (fuel : ℕ) (p : RtpPacketizer) (output : RtpFrameBuffer) (timestamp offset : ℕ)
      → IsPacketizer p
      → length frame ≤ offset
      → Delivers sample_time limit p timestamp
          (drop offset frame)
          output
          (g711_loop fuel p output frame limit timestamp offset)
  g711_loop-done fuel p output timestamp offset v over =
      Delivers-rest refl (at_end frame offset over) (
        Delivers-none sample_time limit p timestamp output _ v.sequence_fits
          (g711_loop_over fuel p output timestamp offset over))

  g711_loop-Delivers :
      (fuel : ℕ) (p : RtpPacketizer) (output : RtpFrameBuffer) (timestamp offset : ℕ)
      → IsPacketizer p
      → timestamp < 2 ^ 32
      → length frame - offset ≤ fuel
      → Delivers sample_time limit p timestamp
          (drop offset frame)
          output
          (g711_loop fuel p output frame limit timestamp offset)
  unfolding g711_loop write_rtp_header
  g711_loop-Delivers zero p output timestamp offset v h enough =
      g711_loop-done zero p output timestamp offset v (omega arith)
  g711_loop-Delivers (suc fuel) p output timestamp offset v h enough =
      elim (Bool-cases (ltb offset (length frame))) [
        | inr over ↦ g711_loop-done (suc fuel) p output timestamp offset v (ltb_false→le _ _ over)
        | inl inside ↦
            let here = ltb→lt offset (length frame) inside in
            let sized = length-piece frame limit offset here room in
            rw inside (
              Delivers-rest refl (piece-append frame limit offset here room) (
                Delivers-cons sample_time limit p timestamp output _
                  (piece frame limit offset here room) _ _ v h (omega arith) (omega arith)
                  (last_piece frame limit offset here room)
                  (Delivers-rest (ap (sample_time timestamp) (sym sized)) refl (
                    g711_loop-Delivers fuel (next_packet p) _ _ _ (next_packet-IsPacketizer v)
                      (omega arith) (omega arith)))))
      ]

module _ (p : RtpPacketizer) (timestamp b : ℕ) (bs : Bytes) where
  whole_call :
      {advance : ℕ → ℕ → ℕ} {limit : ℕ} {sent : Sent}
      → Delivers advance limit p timestamp (b ∷ bs) cleared sent
      → Delivery advance limit p timestamp (b ∷ bs) (finalized sent)
  whole_call d = record {
    packets = d.packets;
    views = d.views;
    result = rw (d.emitted, d.counted) refl;
    read = d.read;
    stream = d.stream;
    carried = d.carried;
  }

-- Where the payload limit is 1 at least and no extension is beyond its length field,
-- `RtpRawPacketizer::packetize` of a non-empty frame ends and fills the cleared buffer with packets that
-- the receiver's parser reads: their payloads, of 1 to `payload_limit` bytes, join to the frame, the
-- sequence number counts on by one, the time stamp is the frame's, the marker is on the last only.
pub raw_packetize-delivers :
    (p : RtpPacketizer) (frame : Bytes) (timestamp : ℕ)
    → IsPacketizer p
    → timestamp < 2 ^ 32
    → 1 ≤ payload_limit p
    → frame ≢ []
    → Delivery same_time
        (payload_limit p)
        p
        timestamp
        frame
        (raw_packetize p frame timestamp cleared)
unfolding raw_packetize
raw_packetize-delivers p [] timestamp v h room some_bytes = absurd (some_bytes refl)
raw_packetize-delivers p (b ∷ bs) timestamp v h room some_bytes = whole_call p timestamp b bs (
    raw_loop-Delivers (b ∷ bs) (payload_limit p) room (length (b ∷ bs)) p cleared timestamp 0 v h
      (omega arith))

-- Under the same conditions `RtpG711Packetizer::packetize` of a non-empty frame ends with such packets,
-- but each packet's time stamp is the one before it plus the bytes of that packet's payload, modulo
-- 2 ^ 32.
pub g711_packetize-delivers :
    (p : RtpPacketizer) (frame : Bytes) (timestamp : ℕ)
    → IsPacketizer p
    → timestamp < 2 ^ 32
    → 1 ≤ payload_limit p
    → frame ≢ []
    → Delivery sample_time
        (payload_limit p)
        p
        timestamp
        frame
        (g711_packetize p frame timestamp cleared)
unfolding g711_packetize
g711_packetize-delivers p [] timestamp v h room some_bytes = absurd (some_bytes refl)
g711_packetize-delivers p (b ∷ bs) timestamp v h room some_bytes = whole_call p timestamp b bs (
    g711_loop-Delivers (b ∷ bs) (payload_limit p) room (length (b ∷ bs)) p cleared timestamp 0 v h
      (omega arith))
