-- ===== src/Rtp/H264/Packetizer/Aggregate.antt =====
-- A STAP-A packet on its way to the depacketizer.
use libnx.Common.{
  ℕ, zero, suc, ◌*◌, ◌/◌, ◌%◌, ◌^◌, ◌≤◌, ◌<◌, ◌==◌, ◌≡◌, refl, sym, ap, subst, ◌∙◌, Bool, false,
  List, [], ◌∷◌, ◌++◌, some, arith, length, length-append, append_assoc, append-nil, take-append,
  drop-append, All, ltb, le→ltb_false, bit_and, bit_or, if◌then◌else◌, inl, inr,
}
use libnx.Common.Bits.{bit_or-fields, bit_and-mask, and_0x60, and_0x1f}
use libnx.Rtp.Types.{Bytes, IsBytes}
use libnx.Rtp.FrameBuffer.{RtpFrameBuffer, begin_packet, append, append_byte, append_u16_be}
use libnx.Rtp.FrameBuffer.Packets.{emit}
use libnx.Rtp.Packetizer.{RtpPacketizer, write_rtp_header}
use libnx.Rtp.Packetizer.Header.{packet_bytes, write_rtp_header-emit}
use libnx.Rtp.H264.Packetizer.{max_nri, append_nals, send_stap_a}
use libnx.Rtp.H264.Depacketizer.{RtpH264Depacketizer, dispatch_nal, start_code}
use libnx.Rtp.H264.Depacketizer.Contribution.{contribution, stap_nals, Grows, dispatch-Follows}

-- The units behind their sizes, and behind start codes.
unfoldable pub aggregate : List Bytes → Bytes
aggregate [] = []
aggregate (nal ∷ nals) =
    length nal % 2 ^ 16 / 2 ^ 8 % 256
    ∷ bit_and (length nal % 2 ^ 16) 0xff % 256
    ∷ (nal ++ aggregate nals)

unfoldable pub annex_b : List Bytes → Bytes
annex_b [] = []
annex_b (nal ∷ nals) = start_code ++ (nal ++ annex_b nals)

-- A unit whose size the two bytes hold.
abbrev pub IsUnit : Bytes → Type 0
IsUnit nal = (1 ≤ length nal) × (length nal < 2 ^ 16)

size_read :
    (n : ℕ)
    → n < 2 ^ 16
    → bit_or (n % 2 ^ 16 / 2 ^ 8 % 256 * 2 ^ 8) (bit_and (n % 2 ^ 16) 0xff % 256) % 2 ^ 16 ≡ n
size_read n h =
    let low : bit_and (n % 2 ^ 16) 0xff ≡ n % 2 ^ 16 % 2 ^ 8 = bit_and-mask 8 (n % 2 ^ 16) in
    rw low (
      rw (bit_or-fields 8 (n % 2 ^ 16 / 2 ^ 8 % 256) (n % 2 ^ 16 % 2 ^ 8 % 256) (omega arith))
        (omega arith))

stap_nals-aggregate :
    (fuel : ℕ) (nals : List Bytes)
    → All IsUnit nals
    → length (aggregate nals) ≤ fuel
    → stap_nals fuel (aggregate nals) ≡ some (annex_b nals)
unfolding stap_nals aggregate annex_b
stap_nals-aggregate zero [] h enough = refl
stap_nals-aggregate (suc fuel) [] h enough = refl
stap_nals-aggregate zero (nal ∷ nals) h enough = absurd (omega arith)
stap_nals-aggregate (suc fuel) (nal ∷ nals) h enough =
    let n = length nal in
    let whole : ltb (length (nal ++ aggregate nals)) n ≡ false =
      le→ltb_false (length (nal ++ aggregate nals)) n
        (omega (arith, length-append nal (aggregate nals))) in
    let some_bytes : (n == 0) ≡ false = ground (arith, h.0.0) in
    let rest =
      stap_nals-aggregate fuel nals h.1 (omega (arith, length-append nal (aggregate nals))) in
    rw
      (
        size_read n h.0.1,
        whole,
        some_bytes,
        take-append nal (aggregate nals) n refl,
        drop-append nal (aggregate nals) n refl,
        rest,
      )
      refl

max_nri-high :
    (best : ℕ) (nals : List Bytes) → best % 32 ≡ 0 → All IsBytes nals → max_nri best nals % 32 ≡ 0
unfolding max_nri
max_nri-high best [] h v = h
max_nri-high best ([] ∷ nals) h v = max_nri-high best nals h v.1
max_nri-high best ((b ∷ bs) ∷ nals) h v =
    max_nri-high (if ltb best (bit_and b 0x60) then bit_and b 0x60 else best) nals
      (ground (arith, and_0x60 b v.0.0)) v.1

indicator_type : (m : ℕ) → m % 32 ≡ 0 → bit_and (bit_or m 24) 0x1f ≡ 24
indicator_type m h =
    let shifted : m ≡ m / 32 * 2 ^ 5 = omega arith in
    rw (and_0x1f (bit_or m 24)) (
      ap (λ (n : ℕ). bit_or n 24 % 32) shifted
      ∙ ap (λ (n : ℕ). n % 32) (bit_or-fields 5 (m / 32) 24 (omega arith))
      ∙ omega arith)

append_nals-bytes :
    (output : RtpFrameBuffer) (nals : List Bytes)
    → append_nals output nals ≡ record output { bytes = output.bytes ++ aggregate nals }
unfolding append_nals aggregate append append_u16_be
append_nals-bytes output [] =
    ap (λ (t : Bytes). record output { bytes = t }) (sym (append-nil output.bytes))
append_nals-bytes output (nal ∷ nals) =
    append_nals-bytes (append (append_u16_be output (length nal % 2 ^ 16)) nal) nals
    ∙ ap (λ (t : Bytes). record output { bytes = t })
        (append_assoc (output.bytes ++ size_bytes) nal (aggregate nals)
          ∙ append_assoc output.bytes size_bytes (nal ++ aggregate nals))
  where
    size_bytes : Bytes
    size_bytes = length nal % 2 ^ 16 / 2 ^ 8 % 256 ∷ bit_and (length nal % 2 ^ 16) 0xff % 256 ∷ []

aggregate_read :
    (s : RtpH264Depacketizer) (b : ℕ) (nals : List Bytes) (t : ℕ)
    → bit_and b 0x1f ≡ 24
    → All IsUnit nals
    → (s' : RtpH264Depacketizer) × (dispatch_nal s (b ∷ aggregate nals) t ≡ some s')
      × Grows s s' (annex_b nals)
aggregate_read s b nals t kind units = elim (dispatch-Follows s (b ∷ aggregate nals) t) [
  | inl (r, c) ↦ absurd (ground (arith, c, read))
  | inr (s', new, r, c, grows) ↦
      let same : new ≡ annex_b nals = ground (arith, c, read) in
      (s', r, subst (λ (x : Bytes). Grows s s' x) same grows)
]
  where
    read : contribution s.in_fragmentation s.accumulator (b ∷ aggregate nals) ≡ some (annex_b nals)
    read =
        unfold contribution in
        rw kind (stap_nals-aggregate (suc (length (aggregate nals))) nals units (omega arith))

-- `send_stap_a` writes one packet, and `dispatch_nal` of its payload adds the units to the frame, each
-- behind a start code and in order, for any state of the depacketizer. The units are of 1 to 65535
-- bytes.
pub send_stap_a-Grows :
    (p : RtpPacketizer) (output : RtpFrameBuffer) (nal : Bytes) (nals : List Bytes) (timestamp : ℕ)
    (marker : Bool) (s : RtpH264Depacketizer)
    → All IsUnit (nal ∷ nals)
    → All IsBytes (nal ∷ nals)
    → let payload = bit_or (max_nri 0 (nal ∷ nals)) 24 ∷ aggregate (nal ∷ nals) in
      ((send_stap_a p output (nal ∷ nals) timestamp marker).1
        ≡ emit output (packet_bytes p marker timestamp payload))
      × ((s' : RtpH264Depacketizer) × (dispatch_nal s payload timestamp ≡ some s')
          × Grows s s' (annex_b (nal ∷ nals)))
unfolding send_stap_a append_byte append
send_stap_a-Grows p output nal nals timestamp marker s units octets =
    let b = bit_or (max_nri 0 (nal ∷ nals)) 24 in
    let o = (write_rtp_header p (begin_packet output) marker timestamp).1 in
    let written =
      append_nals-bytes (append_byte o b) (nal ∷ nals)
      ∙ ap (λ (t : Bytes). record o { bytes = t })
          (append_assoc o.bytes (b ∷ []) (aggregate (nal ∷ nals))) in
    (
      written ∙ (write_rtp_header-emit p output marker timestamp (b ∷ aggregate (nal ∷ nals))).1,
      aggregate_read s b (nal ∷ nals) timestamp
          (indicator_type (max_nri 0 (nal ∷ nals)) (max_nri-high 0 (nal ∷ nals) refl octets)) units,
    )
