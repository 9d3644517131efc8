-- ===== src/Rtp/Samples/Stream.antt =====
-- What a run of packets is to a receiver: headers that count on, and payloads that join to the frame.
use libnx.Common.{
  ℕ, ◌+◌, ◌%◌, ◌^◌, ◌≤◌, ◌<◌, ◌≡◌, refl, ap, sym, subst₂, ◌∙◌, Bool, List, [], ◌∷◌, ◌++◌, Option,
  some, arith, length,
}
use libnx.Rtp.Types.{Bytes, Expected, ok, ◌>>=◌, map_ok, RtpHeaderView}
use libnx.Rtp.Packet.{parse_header_and_payload}
use libnx.Rtp.Packet.Agreement.{view_of, parse-agrees}
use libnx.Rtp.Extension.{is_empty}
use libnx.Rtp.FrameBuffer.{RtpFrameBuffer, append, begin_packet}
use libnx.Rtp.FrameBuffer.Packets.{emit_all, finished}
use libnx.Rtp.Packetizer.{RtpPacketizer, write_rtp_header}
use libnx.Rtp.Packetizer.Header.{packet_bytes, packet_read, IsPacketizer, write_rtp_header-emit}
use libnx.Rtp.Packetizer.RoundTrip.{parse-packet_bytes}

abbrev pub Views : Type 0
Views = List (RtpHeaderView × Bytes)

-- Every packet through the receiver's parser.
unfoldable pub read_stream : List Bytes → Expected Views
read_stream [] = ok []
read_stream (k ∷ ks) = do v ← parse_header_and_payload k; vs ← read_stream ks; ok (v ∷ vs)

unfoldable pub joined : Views → Bytes
joined [] = []
joined ((h, payload) ∷ vs) = payload ++ joined vs

abbrev pub next_packet : RtpPacketizer → RtpPacketizer
next_packet p = record p { sequence_number = (p.sequence_number + 1) % 2 ^ 16 }

-- The headers are those of `p` with the sequence number counting on; `advance` gives the time stamp
-- behind a payload; the marker stands on the last packet alone; a payload has 1 to `limit` bytes.
abbrev pub IsStream : (ℕ → ℕ → ℕ) → ℕ → RtpPacketizer → ℕ → Views → Type 0
IsStream advance limit p timestamp [] = Unit {0}
IsStream advance limit p timestamp ((h, payload) ∷ vs) =
    (h ≡ (view_of (packet_read p (is_empty vs) timestamp payload)).0)
    × (1 ≤ length payload)
    × (length payload ≤ limit)
    × IsStream advance limit (next_packet p) (advance timestamp (length payload)) vs

-- A call that appended packets which carry `rest`.
pub record Delivers (advance : ℕ → ℕ → ℕ) (limit : ℕ) (p : RtpPacketizer) (timestamp : ℕ)
    (rest : Bytes) (output : RtpFrameBuffer) (sent : Option (RtpPacketizer × RtpFrameBuffer))
    : Type 0 where
  pub packets : List Bytes
  pub views : Views
  pub final : RtpPacketizer
  pub emitted : sent ≡ some (final, emit_all output packets)
  pub read : read_stream packets ≡ ok views
  pub stream : IsStream advance limit p timestamp views
  pub carried : joined views ≡ rest
  pub counted : final ≡ record p { sequence_number = (p.sequence_number + length packets) % 2 ^ 16 }

pub Delivers-rest :
    {advance : ℕ → ℕ → ℕ} {limit : ℕ} {p : RtpPacketizer} {timestamp timestamp' : ℕ}
    {rest rest' : Bytes} {output : RtpFrameBuffer} {sent : Option (RtpPacketizer × RtpFrameBuffer)}
    → timestamp ≡ timestamp'
    → rest ≡ rest'
    → Delivers advance limit p timestamp rest output sent
    → Delivers advance limit p timestamp' rest' output sent
Delivers-rest {advance} {limit} {p} {output = output} {sent = sent} same_time same_rest d =
    subst₂ (λ t r. Delivers advance limit p t r output sent) same_time same_rest d

-- A whole call: the finished buffer holds packets that carry the frame, and the sequence number has
-- moved on by their count.
pub record Delivery (advance : ℕ → ℕ → ℕ) (limit : ℕ) (p : RtpPacketizer) (timestamp : ℕ)
    (frame : Bytes) (sent : Option (RtpPacketizer × RtpFrameBuffer)) : Type 0 where
  pub packets : List Bytes
  pub views : Views
  pub result :
      sent
      ≡ some (
        record p { sequence_number = (p.sequence_number + length packets) % 2 ^ 16 },
        finished packets,
      )
  pub read : read_stream packets ≡ ok views
  pub stream : IsStream advance limit p timestamp views
  pub carried : joined views ≡ frame

pub next_packet-IsPacketizer : {p : RtpPacketizer} → IsPacketizer p → IsPacketizer (next_packet p)
next_packet-IsPacketizer v = record {
  ssrc_fits = v.ssrc_fits;
  sequence_fits = omega arith;
  payload_fits = v.payload_fits;
  ext_fits = v.ext_fits;
}

-- Payloads are not empty, so only the empty stream joins to nothing.
is_empty-joined :
    (advance : ℕ → ℕ → ℕ) (limit : ℕ) (p : RtpPacketizer) (timestamp : ℕ) (vs : Views)
    → IsStream advance limit p timestamp vs
    → is_empty vs ≡ is_empty (joined vs)
unfolding joined
is_empty-joined advance limit p timestamp [] s = refl
is_empty-joined advance limit p timestamp ((h, []) ∷ vs) s = absurd (omega arith)
is_empty-joined advance limit p timestamp ((h, b ∷ bs) ∷ vs) s = refl

read-packet_bytes :
    (p : RtpPacketizer) (marker : Bool) (timestamp : ℕ) (payload : Bytes)
    → IsPacketizer p
    → timestamp < 2 ^ 32
    → parse_header_and_payload (packet_bytes p marker timestamp payload)
      ≡ ok (view_of (packet_read p marker timestamp payload))
read-packet_bytes p marker timestamp payload v h =
    sym (parse-agrees (packet_bytes p marker timestamp payload))
    ∙ ap (map_ok view_of) (parse-packet_bytes p marker timestamp payload v h)

module _ (advance : ℕ → ℕ → ℕ) (limit : ℕ) (p : RtpPacketizer) (timestamp : ℕ)
    (output : RtpFrameBuffer) (sent : Option (RtpPacketizer × RtpFrameBuffer)) where
  -- A loop that is over has sent nothing.
  pub Delivers-none :
      p.sequence_number < 2 ^ 16
      → sent ≡ some (p, output)
      → Delivers advance limit p timestamp [] output sent
  unfolding read_stream joined emit_all
  Delivers-none small e = record {
    packets = [];
    views = [];
    final = p;
    emitted = e;
    read = refl;
    stream = tt;
    carried = refl;
    counted = ap (λ (n : ℕ). record p { sequence_number = n }) (omega arith);
  }

  -- One packet in front of what the rest of the loop sends.
  pub Delivers-cons :
      (chunk rest : Bytes) (last : Bool)
      → IsPacketizer p
      → timestamp < 2 ^ 32
      → 1 ≤ length chunk
      → length chunk ≤ limit
      → last ≡ is_empty rest
      → Delivers advance limit
          (next_packet p)
          (advance timestamp (length chunk))
          rest
          (append (write_rtp_header p (begin_packet output) last timestamp).1 chunk)
          sent
      → Delivers advance limit p timestamp (chunk ++ rest) output sent
  unfolding read_stream joined emit_all
  Delivers-cons chunk rest last v h some_bytes fits e d = record {
    packets = packet_bytes p last timestamp chunk ∷ d.packets;
    views = ((view_of (packet_read p last timestamp chunk)).0, chunk) ∷ d.views;
    final = d.final;
    emitted =
        d.emitted
        ∙ ap (λ t. some (d.final, emit_all t d.packets))
            (write_rtp_header-emit p output last timestamp chunk).1;
    read = rw (read-packet_bytes p last timestamp chunk v h, d.read) refl;
    stream = (
      ap (λ (m : Bool). (view_of (packet_read p m timestamp chunk)).0) marked,
      some_bytes,
      fits,
      d.stream,
    );
    carried = ap (λ t. chunk ++ t) d.carried;
    counted = d.counted ∙ ap (λ (n : ℕ). record p { sequence_number = n }) (omega arith);
  }
    where
      marked : last ≡ is_empty d.views
      marked =
          e
          ∙ ap is_empty (sym d.carried)
          ∙ sym (
              is_empty-joined advance limit (next_packet p) (advance timestamp (length chunk))
                d.views d.stream)
