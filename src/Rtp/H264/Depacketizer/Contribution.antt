-- ===== src/Rtp/H264/Depacketizer/Contribution.antt =====
-- What the handlers add to the frame, described from the payload and the open fragment alone.
use libnx.Common.{
  ℕ, zero, suc, ◌*◌, ◌%◌, ◌^◌, ◌≤◌, ◌==◌, ◌≡◌, refl, sym, ap, ◌∙◌, Bool, not, [], ◌∷◌, ◌++◌, Option,
  none, some, arith, append_assoc, append-nil, length, take, drop, leb, ltb, ltb_false→le, bit_and,
  bit_or, ◌&&◌, ◌||◌, if◌then◌else◌, Bool-cases, ◌⊎◌, inl, inr,
}
use libnx.Rtp.Types.{Bytes}
use libnx.Rtp.Extension.{is_empty}
use libnx.Rtp.H264.Depacketizer.{
  RtpH264Depacketizer, handle_single_nal, handle_fu_a, stap_loop, handle_stap_a, dispatch_nal,
  start_code, nal_stap_a, nal_fu_a,
}
use mathlib.Core.Option

-- The NAL units of an aggregate, each behind a start code, up to the first that is cut off; `none`
-- where an empty one stands among them.
unfoldable pub stap_nals : ℕ → Bytes → Option Bytes
stap_nals zero rest = some []
stap_nals (suc fuel) (hi ∷ lo ∷ rest) =
    let size = bit_or (hi * 2 ^ 8) lo % 2 ^ 16 in
    let others =
      Option.map (λ t. start_code ++ (take size rest ++ t)) (stap_nals fuel (drop size rest)) in
    if ltb (length rest) size then some [] else if size == 0 then none else others
stap_nals (suc fuel) _ = some []

-- A fragment adds nothing until the last one closes the unit.
unfoldable pub fragment_bytes : Bool → Bytes → Bytes → Bytes
fragment_bytes is_open gathered (indicator ∷ header ∷ fragment) =
    let starts = not (bit_and header 0x80 == 0) in
    let ends = not (bit_and header 0x40 == 0) in
    let unit =
      if starts
      then start_code ++ (bit_or (bit_and indicator 0xe0) (bit_and header 0x1f) ∷ [])
      else gathered in
    if (starts || is_open) && ends then unit ++ fragment else []
fragment_bytes is_open gathered _ = []

unfoldable pub contribution : Bool → Bytes → Bytes → Option Bytes
unfolding fragment_bytes stap_nals
contribution is_open gathered [] = some []
contribution is_open gathered (b ∷ rest) =
    let nal_type = bit_and b 0x1f in
    if leb 1 nal_type && leb nal_type 23
    then some (start_code ++ (b ∷ rest))
    else if nal_type == nal_fu_a
    then some (fragment_bytes is_open gathered (b ∷ rest))
    else if nal_type == nal_stap_a
    then stap_nals (length (b ∷ rest)) rest
    else some []

-- The frame grows by `new`, and what waits to be delivered is as it was.
pub record Grows (s s' : RtpH264Depacketizer) (new : Bytes) : Type 0 where
  pub frame_grown : s'.frame_buffer ≡ s.frame_buffer ++ new
  pub same_flag : s'.has_pending ≡ s.has_pending
  pub same_pending : s'.pending_frame ≡ s.pending_frame
  pub same_keyframe : s'.pending_keyframe ≡ s.pending_keyframe

abbrev pub Follows : RtpH264Depacketizer → Option RtpH264Depacketizer → Option Bytes → Type 0
Follows s r c =
    ((r ≡ none) × (c ≡ none))
    ⊎ ((s' : RtpH264Depacketizer) × (new : Bytes) × (r ≡ some s') × (c ≡ some new) × Grows s s' new)

single-Grows :
    (s : RtpH264Depacketizer) (nal : Bytes) → Grows s (handle_single_nal s nal) (start_code ++ nal)
unfolding handle_single_nal
single-Grows s nal = record {
  frame_grown = refl;
  same_flag = refl;
  same_pending = refl;
  same_keyframe = refl;
}

fragment-Grows :
    (s : RtpH264Depacketizer) (payload : Bytes)
    → Grows s (handle_fu_a s payload) (fragment_bytes s.in_fragmentation s.accumulator payload)
unfolding handle_fu_a fragment_bytes
fragment-Grows s [] = ground (arith, append-nil s.frame_buffer)
fragment-Grows s (a ∷ []) = ground (arith, append-nil s.frame_buffer)
fragment-Grows s (a ∷ b ∷ fragment) = ground (arith, append-nil s.frame_buffer)

pub Grows-refl : (s : RtpH264Depacketizer) → Grows s s []
Grows-refl s = ground (arith, append-nil s.frame_buffer)

pub Grows-trans :
    {s t u : RtpH264Depacketizer} {a b : Bytes} → Grows s t a → Grows t u b → Grows s u (a ++ b)
Grows-trans {s} {a = a} {b = b} g h = record {
  frame_grown = h.frame_grown ∙ ap (λ f. f ++ b) g.frame_grown ∙ append_assoc s.frame_buffer a b;
  same_flag = h.same_flag ∙ g.same_flag;
  same_pending = h.same_pending ∙ g.same_pending;
  same_keyframe = h.same_keyframe ∙ g.same_keyframe;
}

is_empty-take : (n : ℕ) (xs : Bytes) → n ≤ length xs → is_empty (take n xs) ≡ (n == 0)
is_empty-take zero xs h = refl
is_empty-take (suc n) [] h = absurd (omega arith)
is_empty-take (suc n) (x ∷ xs) h = ground arith

stap-Follows :
    (fuel : ℕ) (rest : Bytes) (s : RtpH264Depacketizer)
    → Follows s (stap_loop fuel rest s) (stap_nals fuel rest)
unfolding stap_loop stap_nals
stap-Follows zero rest s = inr (s, [], refl, refl, Grows-refl s)
stap-Follows (suc fuel) [] s = inr (s, [], refl, refl, Grows-refl s)
stap-Follows (suc fuel) (hi ∷ []) s = inr (s, [], refl, refl, Grows-refl s)
stap-Follows (suc fuel) (hi ∷ lo ∷ rest) s =
    let size = bit_or (hi * 2 ^ 8) lo % 2 ^ 16 in
    elim (Bool-cases (ltb (length rest) size)) [
      | inl cut ↦ rw cut (inr (s, [], refl, refl, Grows-refl s))
      | inr whole ↦
          let same = is_empty-take size rest (ltb_false→le (length rest) size whole) in
          elim (Bool-cases (size == 0)) [
            | inl nothing ↦ rw (whole, same, nothing) (inl (refl, refl))
            | inr something ↦
                elim (stap-Follows fuel (drop size rest) (handle_single_nal s (take size rest))) [
                  | inl (a, b) ↦ rw (whole, same, something, a, b) (inl (refl, refl))
                  | inr (s', new, a, b, g) ↦
                      rw (whole, same, something, a, b)
                        (inr (s', _, refl, refl, Grows-trans (single-Grows s (take size rest)) g))
                ]
          ]
    ]

-- Whatever the payload, `dispatch_nal` adds its contribution to the frame, or fails where that is
-- undefined; the frame that waits is left alone.
pub dispatch-Follows :
    (s : RtpH264Depacketizer) (payload : Bytes) (t : ℕ)
    → Follows s (dispatch_nal s payload t) (contribution s.in_fragmentation s.accumulator payload)
unfolding dispatch_nal contribution handle_stap_a
dispatch-Follows s [] t = inr (s, [], refl, refl, Grows-refl s)
dispatch-Follows s (b ∷ rest) t =
    elim (Bool-cases (leb 1 (bit_and b 0x1f) && leb (bit_and b 0x1f) 23)) [
      | inl single ↦ rw single (inr (_, _, refl, refl, single-Grows s (b ∷ rest)))
      | inr other ↦ elim (Bool-cases (bit_and b 0x1f == 28)) [
        | inl fragment ↦ rw (other, fragment) (inr (_, _, refl, refl, fragment-Grows s (b ∷ rest)))
        | inr large ↦ elim (Bool-cases (bit_and b 0x1f == 24)) [
          | inl aggregate ↦ rw (other, large, aggregate) (stap-Follows (suc (length rest)) rest s)
          | inr unknown ↦
              rw (other, large, unknown)
                (inr (
                  _,
                  [],
                  refl,
                  refl,
                  record {
                    frame_grown = sym (append-nil s.frame_buffer);
                    same_flag = refl;
                    same_pending = refl;
                    same_keyframe = refl;
                  },
                ))
        ]
      ]
    ]
