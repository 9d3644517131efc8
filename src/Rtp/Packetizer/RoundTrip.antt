-- ===== src/Rtp/Packetizer/RoundTrip.antt =====
-- A packet that `write_rtp_header` begins is read back field by field.
use libnx.Common.{
  ℕ, ◌-◌, ◌/◌, ◌%◌, ◌^◌, ◌≤◌, ◌<◌, ◌≡◌, refl, ◌∙◌, subst, Bool, true, false, [], Option, none, some,
  arith, bit_and, Bool-cases, inl, inr,
}
use libnx.Rtp.Types.{Bytes, ok, RtpExtension}
use libnx.Rtp.Extension.{
  RtpHeaderExtensionBuilder, empty, serialize, block_header, block_content, content_bytes, padded,
}
use libnx.Rtp.Extension.Builder.{padded_lem, length-block_content}
use libnx.Rtp.Packet.{parse}
use libnx.Rtp.Packetizer.{RtpPacketizer, header_bytes}
use libnx.Rtp.Packetizer.Header.{
  read_u16_be_lem, read_u32_be_lem, read_profile, ext_bytes, packet_bytes, ExtFits, IsPacketizer,
  packet_read,
}
use libnx.Rtp.Packetizer.Parse.{
  marker_byte, marker_byte-type, marker_byte-marker, header_of, parse-fixed, parse-extended,
}

module _ (p : RtpPacketizer) (marker : Bool) (timestamp : ℕ) (v : IsPacketizer p)
    (h : timestamp < 2 ^ 32) where
  -- The header that the twelve written bytes stand for, whatever follows them.
  header_of-written :
      (tail : Bytes) (x : Bool) (ext : Option RtpExtension)
      → header_of
          (marker_byte marker p.payload_type)
          (p.sequence_number / 2 ^ 8 % 256)
          (bit_and p.sequence_number 0xff % 256)
          (timestamp / 2 ^ 24 % 256)
          (timestamp / 2 ^ 16 % 256)
          (timestamp / 2 ^ 8 % 256)
          (bit_and timestamp 0xff % 256)
          (p.ssrc / 2 ^ 24 % 256)
          (p.ssrc / 2 ^ 16 % 256)
          (p.ssrc / 2 ^ 8 % 256)
          (bit_and p.ssrc 0xff % 256)
          tail
          x
          ext
        ≡ record {
          version = 2;
          padding = false;
          extension = x;
          csrc_count = 0;
          marker = marker;
          payload_type = p.payload_type % 128;
          sequence_number = p.sequence_number;
          timestamp = timestamp;
          ssrc = p.ssrc;
          csrc_list = [];
          ext_header = ext;
        }
  header_of-written tail x ext =
      rw
        (
          marker_byte-marker marker p.payload_type,
          marker_byte-type marker p.payload_type,
          read_u16_be_lem p.sequence_number _ v.sequence_fits,
          read_u32_be_lem timestamp _ h,
          read_u32_be_lem p.ssrc tail v.ssrc_fits,
        )
        refl

  parse-packet_none :
      (payload : Bytes)
      → p.current_ext ≡ none
      → parse (packet_bytes p marker timestamp payload)
        ≡ ok (packet_read p marker timestamp payload)
  unfolding packet_bytes header_bytes ext_bytes
  parse-packet_none payload e =
      rw e
        (parse-fixed _ _ _ _ _ _ _ _ _ _ _ payload ∙ rw (header_of-written payload false none) refl)

  parse-packet_bare :
      (payload : Bytes) (b : RtpHeaderExtensionBuilder)
      → p.current_ext ≡ some b
      → empty b ≡ true
      → parse (packet_bytes p marker timestamp payload)
        ≡ ok (packet_read p marker timestamp payload)
  unfolding packet_bytes header_bytes ext_bytes
  parse-packet_bare payload b e bare =
      rw (e, bare)
        (parse-fixed _ _ _ _ _ _ _ _ _ _ _ payload ∙ rw (header_of-written payload false none) refl)

  parse-packet_used :
      (payload : Bytes) (b : RtpHeaderExtensionBuilder)
      → p.current_ext ≡ some b
      → empty b ≡ false
      → content_bytes b.elements ≤ 2 ^ 18 - 4
      → parse (packet_bytes p marker timestamp payload)
        ≡ ok (packet_read p marker timestamp payload)
  unfolding packet_bytes header_bytes ext_bytes serialize block_header
  parse-packet_used payload b e used small =
      rw (e, used)
        (parse-extended _ _ _ _ _ _ _ _ _ _ _ 0xbe 0xde _ _ (block_content b.elements) payload (
            rw (read_u16_be_lem (padded (content_bytes b.elements) / 4 % 2 ^ 16) _ (omega arith)) (
              omega (
                arith,
                length-block_content b.elements (omega arith),
                padded_lem (content_bytes b.elements) (omega arith),
              )))
          ∙ rw (header_of-written _ true _, read_profile _) refl)

-- The bytes of a packet, parsed: every header field as it was set, the extension block and the
-- payload, for members and a time stamp within their types.
pub parse-packet_bytes :
    (p : RtpPacketizer) (marker : Bool) (timestamp : ℕ) (payload : Bytes)
    → IsPacketizer p
    → timestamp < 2 ^ 32
    → parse (packet_bytes p marker timestamp payload) ≡ ok (packet_read p marker timestamp payload)
parse-packet_bytes p marker timestamp payload v h = by_ext p.current_ext refl
  where
    by_ext :
        (e : Option RtpHeaderExtensionBuilder)
        → p.current_ext ≡ e
        → parse (packet_bytes p marker timestamp payload)
          ≡ ok (packet_read p marker timestamp payload)
    by_ext none e = parse-packet_none p marker timestamp v h payload e
    by_ext (some b) e = elim (Bool-cases (empty b)) [
      | inl bare ↦ parse-packet_bare p marker timestamp v h payload b e bare
      | inr used ↦
          parse-packet_used p marker timestamp v h payload b e used (subst ExtFits e v.ext_fits)
    ]
