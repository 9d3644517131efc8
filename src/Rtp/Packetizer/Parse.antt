-- ===== src/Rtp/Packetizer/Parse.antt =====
-- `parse` on a packet in the form that the packetizers write.
use libnx.Common.{
  ℕ, ◌+◌, ◌-◌, ◌*◌, ◌/◌, ◌%◌, ◌^◌, ◌<◌, ◌≡◌, refl, ◌∙◌, Bool, true, false, [], ◌∷◌, ◌++◌, Option,
  none, some, arith, length, length-append, take-append, drop-append, bit_and, bit_or, not, ◌==◌,
  ltb, leb, if◌then◌else◌, take_all, drop-add,
}
use libnx.Common.Bits.{and_0x01, and_0x7f, bit_or-fields, bit_or_comm}
use libnx.Rtp.Types.{Bytes, ok, RtpHeader, RtpExtension}
use libnx.Rtp.Packet.{parse, read_u16_be, read_u32_be, read_csrcs, parse_extension, payload_end}

abbrev pub marker_byte : Bool → ℕ → ℕ
marker_byte m pt = if m then bit_or (bit_and pt 0x7f) 0x80 else bit_and pt 0x7f

or_0x80 : (n : ℕ) → n < 128 → bit_or n 0x80 ≡ n + 128
or_0x80 n h = bit_or_comm n 0x80 ∙ bit_or-fields 7 1 n h ∙ omega arith

-- The second byte keeps the marker and the low seven bits of the payload type.
pub marker_byte-type : (m : Bool) (pt : ℕ) → bit_and (marker_byte m pt) 0x7f ≡ pt % 128
marker_byte-type true pt =
    ground (arith, and_0x7f pt, or_0x80 (pt % 128), and_0x7f (pt % 128 + 128))
marker_byte-type false pt = ground (arith, and_0x7f pt, and_0x7f (pt % 128))

pub marker_byte-marker :
    (m : Bool) (pt : ℕ) → not (bit_and (marker_byte m pt / 2 ^ 7) 0x01 == 0) ≡ m
marker_byte-marker true pt =
    ground (arith, and_0x7f pt, or_0x80 (pt % 128), and_0x01 ((pt % 128 + 128) / 128))
marker_byte-marker false pt = ground (arith, and_0x7f pt, and_0x01 (pt % 128 / 128))

-- `parse` on a packet without CSRCs or padding whose bytes behind the first are whatever they are.
module _ (b1 b2 b3 b4 b5 b6 b7 b8 b9 b10 b11 : ℕ) where
  abbrev pub fixed : Bytes → Bytes
  fixed rest = b1 ∷ b2 ∷ b3 ∷ b4 ∷ b5 ∷ b6 ∷ b7 ∷ b8 ∷ b9 ∷ b10 ∷ b11 ∷ rest

  abbrev pub header_of : Bytes → Bool → Option RtpExtension → RtpHeader
  header_of rest x ext = record {
    version = 2;
    padding = false;
    extension = x;
    csrc_count = 0;
    marker = not (bit_and (b1 / 2 ^ 7) 0x01 == 0);
    payload_type = bit_and b1 0x7f;
    sequence_number = read_u16_be (b2 ∷ b3 ∷ b4 ∷ b5 ∷ b6 ∷ b7 ∷ b8 ∷ b9 ∷ b10 ∷ b11 ∷ rest);
    timestamp = read_u32_be (b4 ∷ b5 ∷ b6 ∷ b7 ∷ b8 ∷ b9 ∷ b10 ∷ b11 ∷ rest);
    ssrc = read_u32_be (b8 ∷ b9 ∷ b10 ∷ b11 ∷ rest);
    csrc_list = [];
    ext_header = ext;
  }

  pub parse-fixed :
      (rest : Bytes)
      → parse (0x80 ∷ fixed rest)
        ≡ ok (record {
          header = header_of rest false none;
          payload = rest;
          total_size = length (0x80 ∷ fixed rest);
        })
  unfolding parse parse_extension payload_end read_csrcs
  parse-fixed rest =
      let long : ltb (length (0x80 ∷ fixed rest)) 12 ≡ false = ground arith in
      let under : leb 12 (length (0x80 ∷ fixed rest)) ≡ true = ground arith in
      rw (long, under, take_all rest (length (0x80 ∷ fixed rest) - 12) (omega arith)) refl

  module _ (w x y z : ℕ) (content payload : Bytes) where
    abbrev pub block : Bytes
    block = w ∷ x ∷ y ∷ z ∷ (content ++ payload)

    pub parse-extended :
        length content ≡ read_u16_be (y ∷ z ∷ (content ++ payload)) * 4
        → parse (0x90 ∷ fixed block)
          ≡ ok (record {
            header =
                header_of block true
                  (some (record { profile = read_u16_be block; content = content }));
            payload = payload;
            total_size = length (0x90 ∷ fixed block);
          })
    unfolding parse parse_extension payload_end read_csrcs
    parse-extended sized =
        let all = length (0x90 ∷ fixed block) in
        let ext = read_u16_be (y ∷ z ∷ (content ++ payload)) * 4 in
        let parts = length-append content payload in
        let long : ltb all 12 ≡ false = ground arith in
        let room : ltb all 16 ≡ false = ground arith in
        let inside : ltb all (16 + ext) ≡ false = ground arith in
        let under : leb (16 + ext) all ≡ true = ground arith in
        rw (long, room, inside)
          (rw
            (
              under,
              drop-add 16 ext (0x90 ∷ fixed block),
              take-append content payload (16 + ext - 16) (omega arith),
              drop-append content payload ext (omega arith),
              take_all payload (all - (16 + ext)) (omega arith),
            )
            refl)
