-- ===== src/Rtp/Packet.antt =====
-- RtpPacket::parse and RtpPacket::parse_header_and_payload (nxnet/rtp/rtp_packet.cpp). A read
-- `data[i]` is `get_or data i 0`; each stands behind the size check that the source makes first.
pub mod Agreement
pub mod Bounds
mod Tests
use libnx.Common.{
  ℕ, zero, suc, ◌+◌, ◌-◌, ◌*◌, ◌/◌, ◌^◌, ◌==◌, Bool, true, false, not, ◌||◌, List, [], ◌∷◌, ◌++◌,
  Option, none, some, length, get_or, get_last_or, take, drop, leb, ltb, bit_and, bit_or,
  if◌then◌else◌,
}
use libnx.Rtp.Types.{
  Expected, ok, unexpected, ◌>>=◌, ◌>>◌, ensure, packet_too_short, invalid_version, invalid_header,
  Bytes, RtpHeader, RtpHeaderView, RtpExtension,
}

-- `data` points at the first byte: the byte list is what `&data[i]` leaves.
unfoldable pub read_u16_be : Bytes → ℕ
read_u16_be d = bit_or (get_or d 0 0 * 2 ^ 8) (get_or d 1 0)

unfoldable pub read_u32_be : Bytes → ℕ
read_u32_be d =
    bit_or (bit_or (bit_or (get_or d 0 0 * 2 ^ 24) (get_or d 1 0 * 2 ^ 16)) (get_or d 2 0 * 2 ^ 8))
      (get_or d 3 0)

-- `data[from .. to)`
abbrev pub subspan : Bytes → ℕ → ℕ → Bytes
subspan d from to = take (to - from) (drop from d)

abbrev pub min_header_size : ℕ
min_header_size = 12

pub record RtpPacket : Type 0 where
  pub header : RtpHeader
  pub payload : Bytes
  pub total_size : ℕ

-- The loop over the CSRC list, with the offset behind it.
unfoldable pub read_csrcs : Bytes → ℕ → ℕ → List ℕ × ℕ
read_csrcs d offset zero = ([], offset)
read_csrcs d offset (suc n) =
    let (rest, end) = read_csrcs d (offset + 4) n in (read_u32_be (drop offset d) ∷ rest, end)

-- `if (header.extension) { … }` of `parse`.
unfoldable pub parse_extension : Bool → Bytes → ℕ → Expected (Option RtpExtension × ℕ)
parse_extension false d offset = ok (none, offset)
parse_extension true d offset = do
  ensure (not (ltb (length d) (offset + 4))) packet_too_short
  let ext_bytes = read_u16_be (drop (offset + 2) d) * 4
  ensure (not (ltb (length d) (offset + 4 + ext_bytes))) packet_too_short
  ok (
    some (record {
      profile = read_u16_be (drop offset d);
      content = subspan d (offset + 4) (offset + 4 + ext_bytes);
    }),
    offset + 4 + ext_bytes,
  )

-- `if (out_header.extension) { … }` of `parse_header_and_payload`.
unfoldable pub skip_extension : Bool → Bytes → ℕ → Expected ℕ
skip_extension false d offset = ok offset
skip_extension true d offset = do
  ensure (not (ltb (length d) (offset + 4))) packet_too_short
  let ext_bytes = read_u16_be (drop (offset + 2) d) * 4
  ensure (not (ltb (length d) (offset + 4 + ext_bytes))) packet_too_short
  ok (offset + 4 + ext_bytes)

-- The padding block, the same in both parsers: where the payload ends.
unfoldable pub payload_end : Bool → Bytes → ℕ → Expected ℕ
payload_end false d offset = ok (length d)
payload_end true d offset = do
  ensure (not (length d == 0)) invalid_header
  let padding_length = get_last_or d 0
  ensure (not (padding_length == 0 || ltb (length d - offset) padding_length)) invalid_header
  ok (length d - padding_length)

unfoldable pub parse : Bytes → Expected RtpPacket
parse d = do
  ensure (not (ltb (length d) min_header_size)) packet_too_short
  let byte0 = get_or d 0 0
  let padding = not (bit_and (byte0 / 2 ^ 5) 0x01 == 0)
  let extension = not (bit_and (byte0 / 2 ^ 4) 0x01 == 0)
  let csrc_count = bit_and byte0 0x0f
  ensure (bit_and (byte0 / 2 ^ 6) 0x03 == 2) invalid_version
  let byte1 = get_or d 1 0
  ensure (not (ltb (length d) (min_header_size + csrc_count * 4))) packet_too_short
  let csrcs = read_csrcs d min_header_size csrc_count
  (ext, offset) ← parse_extension extension d csrcs.1
  end ← payload_end padding d offset
  ok (record {
    header = record {
      version = bit_and (byte0 / 2 ^ 6) 0x03;
      padding = padding;
      extension = extension;
      csrc_count = csrc_count;
      marker = not (bit_and (byte1 / 2 ^ 7) 0x01 == 0);
      payload_type = bit_and byte1 0x7f;
      sequence_number = read_u16_be (drop 2 d);
      timestamp = read_u32_be (drop 4 d);
      ssrc = read_u32_be (drop 8 d);
      csrc_list = csrcs.0;
      ext_header = ext;
    };
    payload = if leb offset end then subspan d offset end else [];
    total_size = length d;
  })

-- The out parameters are the result; on an error the callers read neither.
unfoldable pub parse_header_and_payload : Bytes → Expected (RtpHeaderView × Bytes)
parse_header_and_payload d = do
  ensure (not (ltb (length d) min_header_size)) packet_too_short
  let byte0 = get_or d 0 0
  let padding = not (bit_and (byte0 / 2 ^ 5) 0x01 == 0)
  let extension = not (bit_and (byte0 / 2 ^ 4) 0x01 == 0)
  let csrc_count = bit_and byte0 0x0f
  ensure (bit_and (byte0 / 2 ^ 6) 0x03 == 2) invalid_version
  let byte1 = get_or d 1 0
  let csrc_size = csrc_count * 4
  ensure (not (ltb (length d) (min_header_size + csrc_size))) packet_too_short
  offset ← skip_extension extension d (min_header_size + csrc_size)
  end ← payload_end padding d offset
  ensure (not (ltb end offset)) invalid_header
  ok (
    record {
      version = bit_and (byte0 / 2 ^ 6) 0x03;
      padding = padding;
      extension = extension;
      marker = not (bit_and (byte1 / 2 ^ 7) 0x01 == 0);
      payload_type = bit_and byte1 0x7f;
      sequence_number = read_u16_be (drop 2 d);
      timestamp = read_u32_be (drop 4 d);
      ssrc = read_u32_be (drop 8 d);
    },
    subspan d offset end,
  )
