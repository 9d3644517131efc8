-- ===== src/Rtp/Packetizer/Header.antt =====
-- Packets as bytes: the numbers of the header read back, one whole packet, and what a receiver is
-- to read of it.
use libnx.Common.{
  ℕ, ◌+◌, ◌-◌, ◌*◌, ◌/◌, ◌%◌, ◌^◌, ◌≤◌, ◌<◌, ◌≡◌, refl, ap, ◌∙◌, sym, Bool, false, [], ◌∷◌, ◌++◌,
  Option, none, some, arith, length, append_assoc, bit_and, bit_or, if◌then◌else◌, append-nil,
  Bool-cases, inl, inr,
}
use libnx.Common.Bits.{and_0xff, bit_or-fields}
use libnx.Rtp.Types.{Bytes, RtpExtension, one_byte_extension_profile}
use libnx.Rtp.Extension.{RtpHeaderExtensionBuilder, empty, serialize, block_content, content_bytes}
use libnx.Rtp.Packet.{RtpPacket, read_u16_be, read_u32_be}
use libnx.Rtp.FrameBuffer.{RtpFrameBuffer, append, begin_packet}
use libnx.Rtp.FrameBuffer.Packets.{emit}
use libnx.Rtp.Packetizer.{RtpPacketizer, has_ext, serialize_ext, header_bytes, write_rtp_header}

-- The bytes of a 16-bit and of a 32-bit number, high byte first.
pub read_u16_be_lem :
    (n : ℕ) (rest : Bytes)
    → n < 2 ^ 16
    → read_u16_be (n / 2 ^ 8 % 256 ∷ bit_and n 0xff % 256 ∷ rest) ≡ n
unfolding read_u16_be
read_u16_be_lem n rest h =
    bit_or-fields 8 (n / 2 ^ 8 % 256) (bit_and n 0xff % 256) (omega arith)
    ∙ omega (arith, and_0xff n)

pub read_u32_be_lem :
    (n : ℕ) (rest : Bytes)
    → n < 2 ^ 32
    → read_u32_be
        (n / 2 ^ 24 % 256 ∷ n / 2 ^ 16 % 256 ∷ n / 2 ^ 8 % 256 ∷ bit_and n 0xff % 256 ∷ rest)
      ≡ n
unfolding read_u32_be
read_u32_be_lem n rest h =
    let b3 = n / 2 ^ 24 % 256 in
    let b2 = n / 2 ^ 16 % 256 in
    let b1 = n / 2 ^ 8 % 256 in
    let b0 = bit_and n 0xff % 256 in
    let high : bit_or (b3 * 2 ^ 24) (b2 * 2 ^ 16) ≡ (b3 * 2 ^ 8 + b2) * 2 ^ 16 =
      bit_or-fields 24 b3 (b2 * 2 ^ 16) (omega arith) ∙ omega arith in
    let middle : bit_or ((b3 * 2 ^ 8 + b2) * 2 ^ 16) (b1 * 2 ^ 8)
        ≡ ((b3 * 2 ^ 8 + b2) * 2 ^ 8 + b1) * 2 ^ 8 =
      bit_or-fields 16 (b3 * 2 ^ 8 + b2) (b1 * 2 ^ 8) (omega arith) ∙ omega arith in
    ap (λ t. bit_or (bit_or t (b1 * 2 ^ 8)) b0) high
    ∙ ap (λ t. bit_or t b0) middle
    ∙ bit_or-fields 8 ((b3 * 2 ^ 8 + b2) * 2 ^ 8 + b1) b0 (omega arith)
    ∙ omega (arith, and_0xff n)

pub read_profile : (rest : Bytes) → read_u16_be (0xbe ∷ 0xde ∷ rest) ≡ one_byte_extension_profile
unfolding read_u16_be
read_profile rest = refl

-- What stands between the fixed header and the payload.
unfoldable pub ext_bytes : Option RtpHeaderExtensionBuilder → Bytes
ext_bytes e = if has_ext e then serialize_ext e [] else []

-- One whole packet.
unfoldable pub packet_bytes : RtpPacketizer → Bool → ℕ → Bytes → Bytes
packet_bytes p marker timestamp payload =
    header_bytes p marker timestamp ++ (ext_bytes p.current_ext ++ payload)

-- The length field of the extension block holds 16 bits.
abbrev pub ExtFits : Option RtpHeaderExtensionBuilder → Type 0
ExtFits none = Unit {0}
ExtFits (some b) = content_bytes b.elements ≤ 2 ^ 18 - 4

-- The members are within their types.
pub record IsPacketizer (p : RtpPacketizer) : Type 0 where
  pub ssrc_fits : p.ssrc < 2 ^ 32
  pub sequence_fits : p.sequence_number < 2 ^ 16
  pub payload_fits : p.max_payload_size < 2 ^ 16
  pub ext_fits : ExtFits p.current_ext

-- The extension that a receiver reads.
abbrev pub ext_read : Option RtpHeaderExtensionBuilder → Option RtpExtension
ext_read none = none
ext_read (some b) =
    if empty b
    then none
    else some (record { profile = one_byte_extension_profile; content = block_content b.elements })

abbrev pub packet_read : RtpPacketizer → Bool → ℕ → Bytes → RtpPacket
packet_read p marker timestamp payload = record {
  header = record {
    version = 2;
    padding = false;
    extension = has_ext p.current_ext;
    csrc_count = 0;
    marker = marker;
    payload_type = p.payload_type % 128;
    sequence_number = p.sequence_number;
    timestamp = timestamp;
    ssrc = p.ssrc;
    csrc_list = [];
    ext_header = ext_read p.current_ext;
  };
  payload = payload;
  total_size = length (packet_bytes p marker timestamp payload);
}

serialize-append :
    (b : RtpHeaderExtensionBuilder) (packet : Bytes) → serialize b packet ≡ packet ++ serialize b []
unfolding serialize
serialize-append b packet = elim (Bool-cases (empty b)) [
  | inl bare ↦ rw bare (sym (append-nil packet))
  | inr used ↦ rw used refl
]

serialize_ext-append :
    (e : Option RtpHeaderExtensionBuilder) (packet : Bytes)
    → serialize_ext e packet ≡ packet ++ serialize_ext e []
serialize_ext-append none packet = sym (append-nil packet)
serialize_ext-append (some b) packet = serialize-append b packet

-- `write_rtp_header` behind `begin_packet`, and the payload behind it, make one packet of the buffer.
pub write_rtp_header-emit :
    (p : RtpPacketizer) (output : RtpFrameBuffer) (marker : Bool) (timestamp : ℕ) (payload : Bytes)
    → let (p', output') = write_rtp_header p (begin_packet output) marker timestamp in
      (p' ≡ record p { sequence_number = (p.sequence_number + 1) % 2 ^ 16 })
      × (append output' payload ≡ emit output (packet_bytes p marker timestamp payload))
unfolding write_rtp_header append begin_packet emit packet_bytes ext_bytes
write_rtp_header-emit p output marker timestamp payload = (
  refl,
  elim (Bool-cases (has_ext p.current_ext)) [
    | inr plain ↦ rw plain (ap (framed) (append_assoc output.bytes hdr payload))
    | inl used ↦
        rw (used, serialize_ext-append p.current_ext (output.bytes ++ hdr))
          (ap framed (
            append_assoc (output.bytes ++ hdr) (serialize_ext p.current_ext []) payload
            ∙ append_assoc output.bytes hdr (serialize_ext p.current_ext [] ++ payload)))
  ],
)
  where
    hdr : Bytes
    hdr = header_bytes p marker timestamp

    framed : Bytes → RtpFrameBuffer
    framed bytes = record {
      bytes = bytes;
      packet_offsets = output.packet_offsets ++ (length output.bytes % 2 ^ 32 ∷ []);
    }
