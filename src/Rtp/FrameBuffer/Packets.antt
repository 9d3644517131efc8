-- ===== src/Rtp/FrameBuffer/Packets.antt =====
-- The buffer as the list of the packets written to it.
use libnx.Common.{
  ℕ, zero, suc, ◌+◌, ◌%◌, ◌^◌, ◌<◌, ◌≡◌, refl, ap, List, [], ◌∷◌, ◌++◌, arith, length,
  length-append, get_or, cut_middle, append_assoc, append-nil,
}
use libnx.Rtp.Types.{Bytes}
use libnx.Rtp.FrameBuffer.{
  RtpFrameBuffer, cleared, packet_count, packet, begin_packet, finalize, append,
}

-- One whole packet.
unfoldable pub emit : RtpFrameBuffer → Bytes → RtpFrameBuffer
emit b p = append (begin_packet b) p

unfoldable pub emit_all : RtpFrameBuffer → List Bytes → RtpFrameBuffer
emit_all b [] = b
emit_all b (p ∷ ps) = emit_all (emit b p) ps

pub emit_all-append :
    (b : RtpFrameBuffer) (ps qs : List Bytes) → emit_all b (ps ++ qs) ≡ emit_all (emit_all b ps) qs
unfolding emit_all
emit_all-append b [] qs = refl
emit_all-append b (p ∷ ps) qs = emit_all-append (emit b p) ps qs

unfoldable pub concat : List Bytes → Bytes
concat [] = []
concat (p ∷ ps) = p ++ concat ps

-- The start of each packet, from `base` on.
starts : ℕ → List Bytes → List ℕ
starts base [] = []
starts base (p ∷ ps) = base % 2 ^ 32 ∷ starts (base + length p) ps

emit_all-eq :
    (b : RtpFrameBuffer) (ps : List Bytes)
    → emit_all b ps ≡ record {
      bytes = b.bytes ++ concat ps;
      packet_offsets = b.packet_offsets ++ starts (length b.bytes) ps;
    }
unfolding emit_all concat starts
emit_all-eq b [] = rw (append-nil b.bytes, append-nil b.packet_offsets)
emit_all-eq b (p ∷ ps) = rw (emit_all-eq (emit b p) ps) (
    unfold emit append begin_packet in
    rw
      (
        length-append b.bytes p,
        append_assoc b.bytes p (concat ps),
        append_assoc b.packet_offsets (length b.bytes % 2 ^ 32 ∷ [])
            (starts (length b.bytes + length p) ps),
      )
      refl)

-- The offsets of finished packets behind `pre`, with the end of the last.
packet_at :
    (pre : Bytes) (ps : List Bytes) (i : ℕ)
    → length (pre ++ concat ps) < 2 ^ 32
    → i < length ps
    → packet
        (record {
          bytes = pre ++ concat ps;
          packet_offsets = starts (length pre) ps ++ (length (pre ++ concat ps) % 2 ^ 32 ∷ []);
        })
        i
      ≡ get_or ps i []
unfolding packet concat starts
packet_at pre [] i small h = absurd (omega arith)
packet_at pre (p ∷ []) zero small h =
    cut_middle pre p [] _ _ (omega (arith, length-append pre (p ++ [])))
      (omega (arith, length-append pre (p ++ []), length-append p []))
packet_at pre (p ∷ q ∷ ps) zero small h =
    cut_middle pre p (q ++ concat ps) _ _ (omega (arith, length-append pre (p ++ (q ++ concat ps))))
      (omega (arith, length-append pre (p ++ (q ++ concat ps)), length-append p (q ++ concat ps)))
packet_at pre (p ∷ ps) (suc i) small h =
    rw (length-append pre p, append_assoc pre p (concat ps)) at
      (packet_at (pre ++ p) ps i (rw (append_assoc pre p (concat ps)) small) (omega arith))

abbrev pub finished : List Bytes → RtpFrameBuffer
finished ps = finalize (emit_all cleared ps)

-- A finished buffer below 4 GB hands out, as packet `i`, the `i`-th packet written to it.
pub packet-finished :
    (ps : List Bytes) (i : ℕ)
    → length (concat ps) < 2 ^ 32
    → i < length ps
    → packet (finished ps) i ≡ get_or ps i []
unfolding finalize
packet-finished ps i small h = rw (emit_all-eq cleared ps) (packet_at [] ps i small h)

length-starts : (base : ℕ) (ps : List Bytes) → length (starts base ps) ≡ length ps
unfolding starts
length-starts base [] = refl
length-starts base (p ∷ ps) = ap suc (length-starts (base + length p) ps)

pub packet_count-finished : (ps : List Bytes) → packet_count (finished ps) ≡ length ps
unfolding packet_count finalize
packet_count-finished ps = rw (emit_all-eq cleared ps) (
    ground
      (arith, length-append (starts 0 ps) (length (concat ps) % 2 ^ 32 ∷ []), length-starts 0 ps))
