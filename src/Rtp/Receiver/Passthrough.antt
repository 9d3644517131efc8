-- ===== src/Rtp/Receiver/Passthrough.antt =====
-- A receiver without a depacketizer hands on what a packetizer sent.
use libnx.Common.{
  ℕ, ◌+◌, ◌%◌, ◌^◌, ◌==◌, ◌≡◌, ◌≤◌, ◌<◌, ◌≢◌, refl, sym, ap, subst, ◌∙◌, Bool, true, false, not,
  ◌&&◌, List, [], ◌∷◌, ◌++◌, Option, none, some, arith, length, append_assoc, append-nil, inl, inr,
}
use libnx.Rtp.Types.{Bytes, Expected, ok, unexpected, RtpHeaderView}
use libnx.Rtp.Packet.{parse_header_and_payload}
use libnx.Rtp.Packet.Agreement.{view_of, Expected-cases}
use libnx.Rtp.Extension.{is_empty}
use libnx.Rtp.FrameBuffer.{cleared}
use libnx.Rtp.FrameBuffer.Packets.{finished}
use libnx.Rtp.Packetizer.{RtpPacketizer}
use libnx.Rtp.Packetizer.Header.{IsPacketizer, packet_read}
use libnx.Rtp.Samples.{g711_packetize, payload_limit}
use libnx.Rtp.Samples.Stream.{
  Views, read_stream, joined, next_packet, IsStream, next_packet-IsPacketizer,
}
use libnx.Rtp.Samples.Delivery.{g711_packetize-delivers, sample_time}
use libnx.Rtp.H264.Depacketizer.{Output}
use libnx.Rtp.Receiver.{
  RtpReceiver, mismatches, count_packet, call_frame_callback, depacketize, receive,
  handle_rtp_packet, handle_all,
}
use libnx.Rtp.Receiver.Tracking.{Awaits, track_expected}

-- The calls of the frame callback that a stream of packets leads to.
unfoldable pub frames_of : Views → List (Bytes × ℕ × Bool)
frames_of [] = []
frames_of ((h, payload) ∷ vs) = (payload, h.timestamp, false) ∷ frames_of vs

-- No depacketizer, a frame callback, and no other payload type expected than `p` sends.
pub record IsPassthrough {D : Type 0} (p : RtpPacketizer) (r : RtpReceiver D) : Type 0 where
  pub passes : r.depacketizer ≡ none
  pub listens : r.has_frame_callback ≡ true
  pub accepts : (r.pt_initialized && not (p.payload_type % 128 == r.expected_pt)) ≡ false
  pub awaits : Awaits p.sequence_number r

-- What the buffer holds after the calls.
unfoldable pub last_payload : Option Bytes → Views → Option Bytes
last_payload buffer [] = buffer
last_payload buffer ((h, payload) ∷ vs) = last_payload (some payload) vs

-- `r'` is `r` after `vs` was handed on: no packet counts as lost or out of order, and the buffer that
-- all calls were given is left with the last payload.
pub record HandedOn {D : Type 0} (r : RtpReceiver D) (vs : Views) (r' : RtpReceiver D)
    : Type 0 where
  pub framed : r'.frames ≡ r.frames ++ frames_of vs
  pub none_lost : r'.statistics.packets_lost ≡ r.statistics.packets_lost
  pub in_order : r'.statistics.packets_out_of_order ≡ r.statistics.packets_out_of_order
  pub overwritten : r'.passthrough_buffer ≡ last_payload r.passthrough_buffer vs

-- What one packet of the stream makes of the receiver.
abbrev handed : {D : Type 0} → RtpReceiver D → ℕ → RtpHeaderView → Bytes → RtpReceiver D
handed r size h payload =
    let s = r.statistics in
    record r {
      statistics = record s {
        packets_received = (s.packets_received + 1) % 2 ^ 64;
        bytes_received = (s.bytes_received + size) % 2 ^ 64;
      };
      seq_initialized = true;
      expected_seq = (h.sequence_number + 1) % 2 ^ 16;
      frames = r.frames ++ ((payload, h.timestamp, false) ∷ []);
      passthrough_buffer = some payload;
    }

read_stream-nil : (views : Views) → read_stream [] ≡ ok views → views ≡ []
unfolding read_stream
read_stream-nil views e = ground arith

read_stream-cons :
    (k : Bytes) (ks : List Bytes) (views : Views)
    → read_stream (k ∷ ks) ≡ ok views
    → (h : RtpHeaderView) × (payload : Bytes) × (vs : Views) × (parse_header_and_payload k
        ≡ ok (h, payload))
      × (read_stream ks ≡ ok vs)
      × (views ≡ (h, payload) ∷ vs)
unfolding read_stream
read_stream-cons k ks views e = elim (Expected-cases (parse_header_and_payload k)) [
  | inl (c, f) ↦ let clash : unexpected c ≡ ok views = simp (f) at e in ground arith
  | inr ((h, payload), f) ↦ elim (Expected-cases (read_stream ks)) [
    | inl (c, g) ↦ let clash : unexpected c ≡ ok views = simp (f, g) at e in ground arith
    | inr (vs, g) ↦ (
      h,
      payload,
      vs,
      f,
      g,
      let found : ok ((h, payload) ∷ vs) ≡ ok views = simp (f, g) at e in ground arith,
    )
  ]
]

module _ {D : Type 0}
    (process_packet : D → RtpHeaderView → Bytes → Bytes → Bool → Option (D × Output)) where
  receive-handed :
      (r : RtpReceiver D) (size : ℕ) (h : RtpHeaderView) (payload : Bytes)
      → r.depacketizer ≡ none
      → r.has_frame_callback ≡ true
      → mismatches r h ≡ false
      → Awaits h.sequence_number r
      → h.sequence_number < 2 ^ 16
      → receive process_packet r size h payload ≡ some (handed r size h payload)
  unfolding receive depacketize call_frame_callback count_packet
  receive-handed r size h payload passes listens accepts awaits small =
      rw
        (
          accepts,
          track_expected (count_packet r size) h.sequence_number awaits small,
          listens,
          passes,
        )
        refl

  handle_rtp_packet-handed :
      (p : RtpPacketizer) (last : Bool) (timestamp : ℕ) (r : RtpReceiver D) (k : Bytes)
      (h : RtpHeaderView) (payload : Bytes)
      → IsPacketizer p
      → IsPassthrough p r
      → parse_header_and_payload k ≡ ok (h, payload)
      → h ≡ (view_of (packet_read p last timestamp payload)).0
      → handle_rtp_packet process_packet r k ≡ some (handed r (length k) h payload)
  unfolding handle_rtp_packet
  handle_rtp_packet-handed p last timestamp r k h payload v q here same =
      ap
        (λ (x : Expected (RtpHeaderView × Bytes)). elim x [
          | ok (h, payload) ↦ receive process_packet r (length k) h payload
          | unexpected e ↦ some r
        ])
        here
      ∙ receive-handed r (length k) h payload q.passes q.listens accepts awaits small
    where
      accepts : mismatches r h ≡ false
      accepts = ap (λ (v : RtpHeaderView). mismatches r v) same ∙ q.accepts

      numbered : h.sequence_number ≡ p.sequence_number
      numbered = ap (λ (v : RtpHeaderView). v.sequence_number) same

      awaits : Awaits h.sequence_number r
      awaits = λ started. q.awaits started ∙ sym numbered

      small : h.sequence_number < 2 ^ 16
      small = rw numbered v.sequence_fits

  still_passes :
      (p : RtpPacketizer) (r : RtpReceiver D) (size : ℕ) (h : RtpHeaderView) (payload : Bytes)
      → IsPassthrough p r
      → h.sequence_number ≡ p.sequence_number
      → IsPassthrough (next_packet p) (handed r size h payload)
  still_passes p r size h payload q numbered = record {
    passes = q.passes;
    listens = q.listens;
    accepts = q.accepts;
    awaits = λ started. ap (λ (n : ℕ). (n + 1) % 2 ^ 16) numbered;
  }

  handle_all-stream :
      (advance : ℕ → ℕ → ℕ) (limit : ℕ) (p : RtpPacketizer) (timestamp : ℕ) (packets : List Bytes)
      (views : Views) (r : RtpReceiver D)
      → IsPacketizer p
      → read_stream packets ≡ ok views
      → IsStream advance limit p timestamp views
      → IsPassthrough p r
      → (r' : RtpReceiver D) × (handle_all process_packet r packets ≡ some r') × HandedOn r views r'
  unfolding handle_all frames_of last_payload
  handle_all-stream advance limit p timestamp [] views r v e s q = rw (read_stream-nil views e) (
    r,
    refl,
    record {
      framed = sym (append-nil r.frames);
      none_lost = refl;
      in_order = refl;
      overwritten = refl;
    },
  )
  handle_all-stream advance limit p timestamp (k ∷ ks) views r v e s q =
      let (h, payload, vs, here, later, shape) = read_stream-cons k ks views e in
      let (same, low, high, s') = subst (IsStream advance limit p timestamp) shape s in
      let numbered = ap (λ (v : RtpHeaderView). v.sequence_number) same in
      let now = handle_rtp_packet-handed p (is_empty vs) timestamp r k h payload v q here same in
      let (r', run, given) =
        handle_all-stream advance limit (next_packet p) (advance timestamp (length payload)) ks vs
          (handed r (length k) h payload) (next_packet-IsPacketizer v) later s'
          (still_passes p r (length k) h payload q numbered) in
      rw (now, run, shape)
        (
          r',
          refl,
          record {
            framed =
                given.framed
                ∙ append_assoc r.frames ((payload, h.timestamp, false) ∷ []) (frames_of vs);
            none_lost = given.none_lost;
            in_order = given.in_order;
            overwritten = given.overwritten;
          },
        )

  -- What `RtpG711Packetizer::packetize` sends of a non-empty frame, given packet by packet to a
  -- receiver, comes out of the frame callback as payloads that join to the frame; no packet is counted
  -- as lost or late. The payload limit is 1 at least, and no extension is beyond its length field. The
  -- receiver has a frame callback and no
  -- depacketizer, accepts the packetizer's payload type, and awaits its sequence number or has seen no
  -- packet. All calls are given the same buffer: a frame is what it holds at its call, and it is left
  -- with the last payload.
  pub g711_packetize-received :
      (p : RtpPacketizer) (frame : Bytes) (timestamp : ℕ) (r : RtpReceiver D)
      → IsPacketizer p
      → timestamp < 2 ^ 32
      → 1 ≤ payload_limit p
      → frame ≢ []
      → IsPassthrough p r
      → (packets : List Bytes) × (views : Views) × (p' : RtpPacketizer) × (r' : RtpReceiver D)
        × (g711_packetize p frame timestamp cleared ≡ some (p', finished packets))
        × (handle_all process_packet r packets ≡ some r')
        × HandedOn r views r'
        × (joined views ≡ frame)
  g711_packetize-received p frame timestamp r v h room some_bytes q =
      let d = g711_packetize-delivers p frame timestamp v h room some_bytes in
      let (r', run, given) =
        handle_all-stream sample_time (payload_limit p) p timestamp d.packets d.views r v d.read
          d.stream q in
      (d.packets, d.views, _, r', d.result, run, given, d.carried)
