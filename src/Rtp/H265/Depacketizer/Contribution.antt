-- ===== src/Rtp/H265/Depacketizer/Contribution.antt =====
-- What the handlers add to the frame, described from the payload and the open fragment alone.
use libnx.Common.{
  ℕ, zero, suc, ◌*◌, ◌/◌, ◌%◌, ◌^◌, ◌==◌, ◌≡◌, refl, sym, Bool, false, not, ◌||◌, ◌&&◌, [], ◌∷◌,
  ◌++◌, arith, append_assoc, append-nil, length, take, drop, leb, ltb, bit_and, bit_or,
  if◌then◌else◌, Bool-cases, inl, inr,
}
use libnx.Rtp.Types.{Bytes}
use libnx.Rtp.H264.Depacketizer.{start_code}
use libnx.Rtp.H264.Depacketizer.Contribution.{Grows, Grows-refl, Grows-trans}
use libnx.Rtp.H265.Depacketizer.{
  RtpH265Depacketizer, append_unit, handle_single_nal, handle_fu, ap_loop, handle_ap, dispatch_nal,
  nal_ap, nal_fu, extract_nal_type,
}

-- The NAL units of an aggregate, each behind a start code, up to the first that is cut off.
unfoldable pub ap_nals : ℕ → Bytes → Bytes
ap_nals zero rest = []
ap_nals (suc fuel) (hi ∷ lo ∷ rest) =
    let size = bit_or (hi * 2 ^ 8) lo % 2 ^ 16 in
    let others = ap_nals fuel (drop size rest) in
    if ltb (length rest) size then [] else (start_code ++ take size rest) ++ others
ap_nals (suc fuel) _ = []

-- A fragment adds nothing until the last one closes the unit.
unfoldable pub fragment_bytes : Bool → Bytes → Bytes → Bytes
fragment_bytes is_open gathered (a ∷ b ∷ header ∷ fragment) =
    let starts = not (bit_and header 0x80 == 0) in
    let ends = not (bit_and header 0x40 == 0) in
    let unit =
      if starts
      then start_code ++ (bit_or (bit_and a 0x81) (bit_and header 0x3f * 2) ∷ b ∷ [])
      else gathered in
    if (starts || is_open) && ends then unit ++ fragment else []
fragment_bytes is_open gathered _ = []

unfoldable pub contribution : Bool → Bytes → Bytes → Bytes
unfolding fragment_bytes ap_nals
contribution is_open gathered (a ∷ b ∷ rest) =
    let nal_type = extract_nal_type a in
    if nal_type == nal_fu
    then fragment_bytes is_open gathered (a ∷ b ∷ rest)
    else if nal_type == nal_ap
    then ap_nals (length (a ∷ b ∷ rest)) rest
    else if leb nal_type 47
    then start_code ++ (a ∷ b ∷ rest)
    else []
contribution is_open gathered _ = []

unit-Grows :
    (s : RtpH265Depacketizer) (nal : Bytes) → Grows s (append_unit s nal) (start_code ++ nal)
unfolding append_unit
unit-Grows s nal = record {
  frame_grown = append_assoc s.frame_buffer start_code nal;
  same_flag = refl;
  same_pending = refl;
  same_keyframe = refl;
}

fragment-Grows :
    (s : RtpH265Depacketizer) (payload : Bytes)
    → Grows s (handle_fu s payload) (fragment_bytes s.in_fragmentation s.accumulator payload)
unfolding handle_fu fragment_bytes
fragment-Grows s [] = Grows-refl s
fragment-Grows s (a ∷ []) = Grows-refl s
fragment-Grows s (a ∷ b ∷ []) = Grows-refl s
fragment-Grows s (a ∷ b ∷ c ∷ fragment) = ground (arith, append-nil s.frame_buffer)

ap-Grows :
    (fuel : ℕ) (rest : Bytes) (s : RtpH265Depacketizer)
    → Grows s (ap_loop fuel rest s) (ap_nals fuel rest)
unfolding ap_loop ap_nals
ap-Grows zero rest s = Grows-refl s
ap-Grows (suc fuel) [] s = Grows-refl s
ap-Grows (suc fuel) (hi ∷ []) s = Grows-refl s
ap-Grows (suc fuel) (hi ∷ lo ∷ rest) s =
    let size = bit_or (hi * 2 ^ 8) lo % 2 ^ 16 in
    elim (Bool-cases (ltb (length rest) size)) [
      | inl cut ↦ rw cut (Grows-refl s)
      | inr whole ↦ rw whole (
          Grows-trans (unit-Grows s (take size rest))
            (ap-Grows fuel (drop size rest) (append_unit s (take size rest))))
    ]

pub has_two_bytes : (rest : Bytes) → ltb (suc (suc (length rest))) 2 ≡ false
has_two_bytes rest = ground arith

-- Whatever the payload, `dispatch_nal` adds its contribution to the frame, and the frame that waits is
-- left alone.
pub dispatch-Grows :
    (s : RtpH265Depacketizer) (payload : Bytes) (t : ℕ)
    → Grows s (dispatch_nal s payload t) (contribution s.in_fragmentation s.accumulator payload)
unfolding dispatch_nal contribution handle_ap handle_single_nal
dispatch-Grows s [] t = Grows-refl s
dispatch-Grows s (a ∷ []) t = Grows-refl s
dispatch-Grows s (a ∷ b ∷ rest) t = elim (Bool-cases (bit_and (a / 2) 0x3f == 49)) [
  | inl fragment ↦ rw fragment (fragment-Grows s (a ∷ b ∷ rest))
  | inr whole ↦ elim (Bool-cases (bit_and (a / 2) 0x3f == 48)) [
    | inl aggregate ↦ rw (whole, aggregate) (ap-Grows (suc (suc (length rest))) rest s)
    | inr other ↦ elim (Bool-cases (leb (bit_and (a / 2) 0x3f) 47)) [
      | inl single ↦ rw (whole, other, single, has_two_bytes rest) (unit-Grows s (a ∷ b ∷ rest))
      | inr unknown ↦
          rw (whole, other, unknown)
            (record {
              frame_grown = sym (append-nil s.frame_buffer);
              same_flag = refl;
              same_pending = refl;
              same_keyframe = refl;
            })
    ]
  ]
]
