-- ===== src/Rtp/Packet/Agreement.antt =====
-- The copying parser and the hot-path parser answer alike.
use libnx.Common.{ℕ, zero, suc, ◌+◌, ◌*◌, ◌≤◌, ◌≡◌, refl, Bool, true, false, arith}
use libnx.Common.{
  ◌⊎◌, inl, inr, sym, ◌/◌, ◌==◌, Bool-cases, ltb, ltb_false→le, leb, not, length, get_or, bit_and,
  if◌then◌else◌, [],
}
use libnx.Rtp.Types.{
  Bytes, Expected, RtpErrc, ok, unexpected, ◌>>=◌, ◌>>◌, ensure, map_ok, RtpHeader, RtpHeaderView,
  invalid_header,
}
use libnx.Rtp.Packet.{
  RtpPacket, read_csrcs, parse_extension, skip_extension, payload_end, parse,
  parse_header_and_payload, subspan,
}
use libnx.Rtp.Packet.Bounds.{skip_extension-bounds, payload_end-bounds}

-- What the hot path keeps of a packet.
abbrev pub view_of : RtpPacket → RtpHeaderView × Bytes
view_of p = (
  record {
    version = p.header.version;
    padding = p.header.padding;
    extension = p.header.extension;
    marker = p.header.marker;
    payload_type = p.header.payload_type;
    sequence_number = p.header.sequence_number;
    timestamp = p.header.timestamp;
    ssrc = p.header.ssrc;
  },
  p.payload,
)

read_csrcs-end : (d : Bytes) (offset n : ℕ) → (read_csrcs d offset n).1 ≡ offset + n * 4
unfolding read_csrcs
read_csrcs-end d offset zero = omega arith
read_csrcs-end d offset (suc n) = omega (arith, read_csrcs-end d (offset + 4) n)

parse_extension-skip :
    (x : Bool) (d : Bytes) (offset : ℕ)
    → map_ok (λ r. r.1) (parse_extension x d offset) ≡ skip_extension x d offset
unfolding parse_extension skip_extension
parse_extension-skip false d offset = refl
parse_extension-skip true d offset = ground arith

-- A result and an offset behind it, against the offset alone.
skip_cases {ℓ} :
    {A : Type ℓ} (m : Expected (A × ℕ)) (n : Expected ℕ)
    → map_ok (λ r. r.1) m ≡ n
    → ((e : RtpErrc) × (m ≡ unexpected e) × (n ≡ unexpected e))
      ⊎ ((a : A) × (o : ℕ) × (m ≡ ok (a, o)) × (n ≡ ok o))
skip_cases (ok (a, o)) n h = inr (a, o, refl, sym h)
skip_cases (unexpected e) n h = inl (e, refl, sym h)

pub Expected-cases {ℓ} :
    {A : Type ℓ} (m : Expected A) → ((e : RtpErrc) × (m ≡ unexpected e)) ⊎ ((a : A) × (m ≡ ok a))
Expected-cases (ok a) = inr (a, refl)
Expected-cases (unexpected e) = inl (e, refl)

abbrev packet_of : Bytes → RtpHeader → Bytes → RtpPacket
packet_of d h payload = record { header = h; payload = payload; total_size = length d }

-- The two parsers from the padding block on, at an offset inside the datagram.
padding-agrees :
    (y : Bool) (d : Bytes) (offset : ℕ) (h : RtpHeader)
    → offset ≤ length d
    → map_ok view_of (
        payload_end y d offset >>= λ end.
        ok (packet_of d h (if leb offset end then subspan d offset end else [])))
      ≡ (payload_end y d offset >>= λ end.
          ensure (not (ltb end offset)) invalid_header
          >> ok (view_of (packet_of d h (subspan d offset end))))
padding-agrees y d offset h inside = elim (Expected-cases (payload_end y d offset)) [
  | inl (e, bad) ↦ rw bad refl
  | inr (end, good) ↦
      let bounds = payload_end-bounds y d offset end inside good in
      let over : ltb end offset ≡ false = ground arith in
      let under : leb offset end ≡ true = ground arith in rw (good, over, under) refl
]

-- For every datagram `parse` and `parse_header_and_payload` fail with the same error code, or both
-- succeed with the same header fields and the same payload.
pub parse-agrees : (d : Bytes) → map_ok view_of (parse d) ≡ parse_header_and_payload d
unfolding parse parse_header_and_payload
parse-agrees d = elim (Bool-cases (ltb (length d) 12)) [
  | inl short ↦ rw short refl
  | inr long ↦ elim (Bool-cases (bit_and (get_or d 0 0 / 64) 3 == 2)) [
    | inr other ↦ rw (long, other) refl
    | inl two ↦ elim (Bool-cases (ltb (length d) (12 + bit_and (get_or d 0 0) 15 * 4))) [
      | inl short ↦ rw (long, two, short) refl
      | inr room ↦
          rw (long, two, room, read_csrcs-end)
            (elim (skip_cases
              (parse_extension (not (bit_and (get_or d 0 0 / 16) 1 == 0)) d
                (12 + bit_and (get_or d 0 0) 15 * 4))
              _ (parse_extension-skip _ d _)) [
                | inl (e, bad, bad') ↦ rw (bad, bad') refl
                | inr (ext, offset, good, good') ↦
                    rw (good, good')
                      (padding-agrees _ d offset _
                        (skip_extension-bounds _ d _ offset (ltb_false→le _ _ room) good').1)
              ])
    ]
  ]
]
