-- ===== src/Rtp/H265/Depacketizer/Fragments.antt =====
-- Fragments of a NAL unit, made as RFC 7798 (4.4.3) asks, and put together by `dispatch_nal`.
use libnx.Common.{
  ℕ, ◌+◌, ◌*◌, ◌/◌, ◌<◌, ◌≡◌, refl, ap, ◌∙◌, true, false, List, [], ◌∷◌, ◌++◌, if◌then◌else◌, arith,
  append_assoc, bit_and, bit_or,
}
use libnx.Common.Bits.{bit_and-mask, agree_below, agree_below→eq}
use libnx.Rtp.Types.{Bytes}
use libnx.Rtp.H264.Depacketizer.{start_code}
use libnx.Rtp.H265.Depacketizer.{
  RtpH265Depacketizer, append_unit, is_keyframe_nal, is_keyframe_unit, extract_nal_type,
  start_fragment, add_fragment, handle_fu, dispatch_nal,
}

-- A fragment of the unit with the header `h0`, `h1`: its type in the FU header, with `flags` for the
-- start (0x80) and the end (0x40).
abbrev pub fu_packet : ℕ → ℕ → ℕ → Bytes → Bytes
fu_packet h0 h1 flags fragment =
    bit_or (bit_and h0 0x81) 98 ∷ h1 ∷ (flags + extract_nal_type h0) ∷ fragment

-- The fragments behind the first: `middles`, and the last one.
abbrev pub later_packets : ℕ → ℕ → List Bytes → Bytes → List Bytes
later_packets h0 h1 [] last = fu_packet h0 h1 0x40 last ∷ []
later_packets h0 h1 (m ∷ ms) last = fu_packet h0 h1 0 m ∷ later_packets h0 h1 ms last

abbrev pub joined : List Bytes → Bytes → Bytes
joined [] last = last
joined (m ∷ ms) last = m ++ joined ms last

unfoldable pub dispatch_all : RtpH265Depacketizer → List Bytes → ℕ → RtpH265Depacketizer
dispatch_all s [] t = s
dispatch_all s (p ∷ ps) t = dispatch_all (dispatch_nal s p t) ps t

-- What the depacketizer reads of the bytes of such a packet, in tables.
fu_type : (b : ℕ) → b < 256 → extract_nal_type (bit_or (bit_and b 0x81) 98) ≡ 49
unfolding agree_below
fu_type = agree_below→eq _ _ 256 refl

header_restored :
    (b : ℕ)
    → b < 256
    → bit_or (bit_and (bit_or (bit_and b 0x81) 98) 0x81) (extract_nal_type b * 2) ≡ b
unfolding agree_below
header_restored = agree_below→eq _ _ 256 refl

extract_nal_type-bound : (b : ℕ) → extract_nal_type b < 64
extract_nal_type-bound b = omega (arith, bit_and-mask 6 (b / 2))

first_start : (t : ℕ) → t < 64 → bit_and (0x80 + t) 0x80 ≡ 0x80
unfolding agree_below
first_start = agree_below→eq _ _ 64 refl

first_end : (t : ℕ) → t < 64 → bit_and (0x80 + t) 0x40 ≡ 0
unfolding agree_below
first_end = agree_below→eq _ _ 64 refl

first_type : (t : ℕ) → t < 64 → bit_and (0x80 + t) 0x3f ≡ t
unfolding agree_below
first_type = agree_below→eq _ _ 64 refl

middle_start : (t : ℕ) → t < 64 → bit_and (0 + t) 0x80 ≡ 0
unfolding agree_below
middle_start = agree_below→eq _ _ 64 refl

middle_end : (t : ℕ) → t < 64 → bit_and (0 + t) 0x40 ≡ 0
unfolding agree_below
middle_end = agree_below→eq _ _ 64 refl

last_start : (t : ℕ) → t < 64 → bit_and (0x40 + t) 0x80 ≡ 0
unfolding agree_below
last_start = agree_below→eq _ _ 64 refl

last_end : (t : ℕ) → t < 64 → bit_and (0x40 + t) 0x40 ≡ 0x40
unfolding agree_below
last_end = agree_below→eq _ _ 64 refl

module _ (h0 h1 : ℕ) (byte : h0 < 256) (t : ℕ) where
  dispatch-fu_packet :
      (s : RtpH265Depacketizer) (flags : ℕ) (fragment : Bytes)
      → dispatch_nal s (fu_packet h0 h1 flags fragment) t
        ≡ handle_fu s (fu_packet h0 h1 flags fragment)
  unfolding dispatch_nal
  dispatch-fu_packet s flags fragment = rw (fu_type h0 byte) refl

  abbrev nal_type : ℕ
  nal_type = extract_nal_type h0

  first_packet :
      (s : RtpH265Depacketizer) (fragment : Bytes)
      → dispatch_nal s (fu_packet h0 h1 0x80 fragment) t
        ≡ add_fragment false fragment (start_fragment s (bit_or (bit_and h0 0x81) 98) h1 nal_type)
  unfolding handle_fu
  first_packet s fragment =
      let small = extract_nal_type-bound h0 in
      dispatch-fu_packet s 0x80 fragment
      ∙ rw (first_start nal_type small, first_end nal_type small, first_type nal_type small) refl

  middle_packet :
      (s : RtpH265Depacketizer) (fragment : Bytes)
      → dispatch_nal s (fu_packet h0 h1 0 fragment) t ≡ add_fragment false fragment s
  unfolding handle_fu
  middle_packet s fragment =
      let small = extract_nal_type-bound h0 in
      dispatch-fu_packet s 0 fragment
      ∙ rw (middle_start nal_type small, middle_end nal_type small) refl

  last_packet :
      (s : RtpH265Depacketizer) (fragment : Bytes)
      → dispatch_nal s (fu_packet h0 h1 0x40 fragment) t ≡ add_fragment true fragment s
  unfolding handle_fu
  last_packet s fragment =
      let small = extract_nal_type-bound h0 in
      dispatch-fu_packet s 0x40 fragment
      ∙ rw (last_start nal_type small, last_end nal_type small) refl

  -- With a fragment open, the others complete the unit.
  later_packets_complete :
      (ms : List Bytes) (last : Bytes) (s : RtpH265Depacketizer)
      → s.in_fragmentation ≡ true
      → dispatch_all s (later_packets h0 h1 ms last) t ≡ record s {
        in_fragmentation = false;
        frame_buffer = s.frame_buffer ++ (s.accumulator ++ joined ms last);
        accumulator = [];
      }
  unfolding dispatch_all add_fragment
  later_packets_complete [] last s is_open = last_packet s last ∙ rw is_open refl
  later_packets_complete (m ∷ ms) last s is_open =
      ap (λ u. dispatch_all u (later_packets h0 h1 ms last) t) (middle_packet s m ∙ rw is_open refl)
      ∙ later_packets_complete ms last (record s { accumulator = s.accumulator ++ m }) is_open
      ∙ rw (append_assoc s.accumulator m (joined ms last)) refl

-- However a NAL unit is cut into two or more fragments, `dispatch_nal` of its fragments one after the
-- other does to the state what the whole unit in one packet does, and leaves no fragment open. The
-- first byte of the unit is below 256.
pub fragments-whole :
    (h0 h1 : ℕ) (first : Bytes) (middles : List Bytes) (last : Bytes) (t : ℕ)
    (s : RtpH265Depacketizer)
    → h0 < 256
    → dispatch_all s (fu_packet h0 h1 0x80 first ∷ later_packets h0 h1 middles last) t
      ≡ record (append_unit s (h0 ∷ h1 ∷ first ++ joined middles last)) {
        in_fragmentation = false;
        accumulator = [];
      }
unfolding dispatch_all append_unit is_keyframe_unit
fragments-whole h0 h1 first middles last t s byte =
    ap (λ u. dispatch_all u (later_packets h0 h1 middles last) t)
      (first_packet h0 h1 byte t s first ∙ opened)
    ∙ later_packets_complete h0 h1 byte t middles last _ refl
    ∙ rw (append_assoc s.frame_buffer start_code (h0 ∷ h1 ∷ first ++ joined middles last)) refl
  where
    opened :
        add_fragment false first
          (start_fragment s (bit_or (bit_and h0 0x81) 98) h1 (extract_nal_type h0))
        ≡ record s {
          accumulator = start_code ++ (h0 ∷ h1 ∷ first);
          in_fragmentation = true;
          frame_has_keyframe =
              if is_keyframe_nal (extract_nal_type h0) then true else s.frame_has_keyframe;
        }
    opened = unfold add_fragment start_fragment in rw (header_restored h0 byte) refl
