-- ===== src/Rtp/H264/Depacketizer/Aggregates.antt =====
-- Aggregates: the loop has fuel enough, and an empty unit makes it read past its span.
use libnx.Common.{
  ℕ, zero, suc, ◌≤◌, ◌≡◌, ◌*◌, ◌%◌, ◌^◌, refl, [], ◌∷◌, none, arith, length, length-drop, drop,
  take, bit_and, bit_or, Bool, inl, inr,
}
use libnx.Rtp.Types.{Bytes, RtpHeaderView}
use libnx.Rtp.H264.Depacketizer.{RtpH264Depacketizer, handle_single_nal, stap_loop, process_packet}
use libnx.Rtp.H264.Depacketizer.Contribution.{contribution}
use libnx.Rtp.H264.Depacketizer.Conservation.{IsOrderly, process_packet-Conserves}

-- Any fuel from the number of bytes on gives the same result, so the loop never stops for lack of it.
pub stap_loop-fuel :
    (fuel more : ℕ) (rest : Bytes) (s : RtpH264Depacketizer)
    → length rest ≤ fuel
    → length rest ≤ more
    → stap_loop fuel rest s ≡ stap_loop more rest s
unfolding stap_loop
stap_loop-fuel zero zero rest s h k = refl
stap_loop-fuel zero (suc more) [] s h k = refl
stap_loop-fuel zero (suc more) (a ∷ rest) s h k = absurd (omega arith)
stap_loop-fuel (suc fuel) zero [] s h k = refl
stap_loop-fuel (suc fuel) zero (a ∷ rest) s h k = absurd (omega arith)
stap_loop-fuel (suc fuel) (suc more) [] s h k = refl
stap_loop-fuel (suc fuel) (suc more) (a ∷ []) s h k = refl
stap_loop-fuel (suc fuel) (suc more) (hi ∷ lo ∷ rest) s h k =
    let size = bit_or (hi * 2 ^ 8) lo % 2 ^ 16 in
    rw
      (stap_loop-fuel fuel more (drop size rest) (handle_single_nal s (take size rest))
        (omega (arith, length-drop size rest)) (omega (arith, length-drop size rest)))
      refl

-- A STAP-A packet whose first unit has size 0 makes `process_packet` read the first byte of an empty
-- span, from every orderly state.
pub process_packet-empty_unit :
    (s : RtpH264Depacketizer) (header : RtpHeaderView) (b : ℕ) (rest out_frame : Bytes)
    (out_keyframe : Bool)
    → IsOrderly s
    → bit_and b 0x1f ≡ 24
    → process_packet s header (b ∷ 0 ∷ 0 ∷ rest) out_frame out_keyframe ≡ none
process_packet-empty_unit s header b rest f k orderly aggregate =
    elim (process_packet-Conserves s header (b ∷ 0 ∷ 0 ∷ rest) f k orderly) [
      | inl (bad, e) ↦ bad
      | inr (s', o, new, r, c, kept, orderly') ↦ cc (undefined, c)
    ]
  where
    undefined : contribution s.in_fragmentation s.accumulator (b ∷ 0 ∷ 0 ∷ rest) ≡ none
    undefined = unfold contribution in rw aggregate (ground arith)
