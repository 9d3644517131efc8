-- ===== src/Rtp/H264/Packetizer/Termination.antt =====
-- `packetize` ends where the limits leave room.
use libnx.Common.{
  Option, none, drop, ℕ, zero, suc, ◌+◌, ◌-◌, ◌≤◌, ◌==◌, ◌≡◌, refl, ◌∙◌, Bool, true, false, not,
  ◌&&◌, List, [], ◌∷◌, ◌++◌, some, arith, length, ltb, leb, min, bit_and, if◌then◌else◌, Bool-cases,
  inl, inr,
}
use libnx.Rtp.Types.{Bytes}
use libnx.Rtp.Extension.{is_empty}
use libnx.Rtp.FrameBuffer.{RtpFrameBuffer, finalize}
use libnx.Rtp.Packetizer.{RtpPacketizer, write_rtp_header}
use libnx.Rtp.H264.Packetizer.{
  Sent, max_fragment_size, fu_a_loop, send_fu_a, send_single_nal, send_stap_a, send_candidates,
  packetize_loop, packetize, packetize_nals, extract_nal_units, nal_loop, add_nal, find_start_code,
}

-- The call ends, and the packetizer behind it still has the same room for a fragment.
abbrev pub Ends : ℕ → Sent → Type 0
Ends limit sent =
    (p : RtpPacketizer) × (output : RtpFrameBuffer) × (sent ≡ some (p, output))
    × (max_fragment_size p ≡ limit)

fu_a_loop-Ends :
    (fuel : ℕ) (p : RtpPacketizer) (output : RtpFrameBuffer) (payload : Bytes)
    (limit nri nal_type timestamp : ℕ) (marker : Bool) (offset : ℕ) (is_first : Bool)
    → 1 ≤ limit
    → length payload ≤ offset + fuel
    → Ends
        (max_fragment_size p)
        (fu_a_loop fuel p output payload limit nri nal_type timestamp marker offset is_first)
unfolding fu_a_loop write_rtp_header max_fragment_size
fu_a_loop-Ends zero p output payload limit nri nal_type timestamp marker offset is_first room h =
    let over : ltb offset (length payload) ≡ false = ground arith in rw over (p, output, refl, refl)
fu_a_loop-Ends (suc fuel) p output payload limit nri nal_type timestamp marker offset is_first room
      h =
    elim (Bool-cases (ltb offset (length payload))) [
      | inr over ↦ rw over (p, output, refl, refl)
      | inl more ↦ rw more (
          fu_a_loop-Ends fuel _ _ payload limit nri nal_type timestamp marker
            (offset + min limit (length payload - offset)) false room (ground arith))
    ]

send_fu_a-Ends :
    (p : RtpPacketizer) (output : RtpFrameBuffer) (nal : Bytes) (timestamp : ℕ) (marker : Bool)
    → 1 ≤ max_fragment_size p
    → Ends (max_fragment_size p) (send_fu_a p output nal timestamp marker)
unfolding send_fu_a
send_fu_a-Ends p output [] timestamp marker room = (p, output, refl, refl)
send_fu_a-Ends p output (b ∷ payload) timestamp marker room =
    fu_a_loop-Ends (length payload) p output payload (max_fragment_size p) (bit_and b 0x60)
      (bit_and b 0x1f) timestamp marker 0 true room (omega arith)

candidates-room :
    (p : RtpPacketizer) (output : RtpFrameBuffer) (nals : List Bytes) (timestamp : ℕ)
    (marker : Bool)
    → max_fragment_size (send_candidates p output nals timestamp marker).0 ≡ max_fragment_size p
unfolding send_candidates send_single_nal send_stap_a write_rtp_header max_fragment_size
candidates-room p output [] timestamp marker = refl
candidates-room p output (n ∷ []) timestamp marker = refl
candidates-room p output (n ∷ m ∷ nals) timestamp marker = refl

Ends-same : {n m : ℕ} {sent : Sent} → n ≡ m → Ends n sent → Ends m sent
Ends-same same (p, output, e, room) = (p, output, e, room ∙ same)

packetize_loop-Ends :
    (nals : List Bytes) (p : RtpPacketizer) (output : RtpFrameBuffer) (timestamp : ℕ)
    (candidates : List Bytes) (total : ℕ)
    → 1 ≤ max_fragment_size p
    → Ends (max_fragment_size p) (packetize_loop p output timestamp candidates total nals)
unfolding packetize_loop
packetize_loop-Ends [] p output timestamp candidates total room =
    (_, _, refl, candidates-room p output candidates timestamp true)
packetize_loop-Ends (nal ∷ nals) p output timestamp candidates total room =
    let flushed = send_candidates p output candidates timestamp false in
    let same = candidates-room p output candidates timestamp false in
    let new_size = if total == 0 then total + (length nal + 2) + 1 else total + (length nal + 2) in
    elim (Bool-cases (leb (length nal) p.max_payload_size)) [
      | inl fits ↦
          elim (Bool-cases (leb new_size p.max_payload_size && not (is_empty candidates))) [
            | inl joins ↦
                rw (fits, joins)
                  (packetize_loop-Ends nals p output timestamp (candidates ++ (nal ∷ [])) new_size
                    room)
            | inr starts ↦
                rw (fits, starts)
                  (Ends-same same (
                    packetize_loop-Ends nals flushed.0 flushed.1 timestamp (nal ∷ [])
                      (length nal + 2 + 1) (rw same room)))
          ]
      | inr large ↦
          let (p', output', sent, kept) =
            send_fu_a-Ends flushed.0 flushed.1 nal timestamp (is_empty nals) (rw same room) in
          rw (large, sent)
            (Ends-same (kept ∙ same)
              (packetize_loop-Ends nals p' output' timestamp [] 0 (rw (kept, same) room)))
    ]

-- The code that is found does not lie before the start, and a start code has bytes.
find_start_code-after : (bytes : Bytes) (start : ℕ) → start ≤ (find_start_code bytes start).0
unfolding find_start_code
find_start_code-after [] start = omega arith
find_start_code-after (a ∷ rest) start = ground (arith, find_start_code-after rest (start + 1))

-- The extraction ends.
abbrev Finds : Option (List Bytes) → Type 0
Finds found = (nals : List Bytes) × (found ≡ some nals)

add_nal-Finds :
    (nal : Bytes) (found : Option (List Bytes)) → Finds found → Finds (add_nal nal found)
add_nal-Finds nal none (nals, e) = cc
add_nal-Finds nal (some more) found = (nal ∷ more, refl)

nal_loop-Finds :
    (fuel : ℕ) (frame : Bytes) (pos : ℕ)
    → length frame ≤ pos + fuel
    → Finds (nal_loop fuel frame pos)
unfolding nal_loop
nal_loop-Finds zero frame pos h =
    let over : ltb pos (length frame) ≡ false = ground arith in rw over ([], refl)
nal_loop-Finds (suc fuel) frame pos h = elim (Bool-cases (ltb pos (length frame))) [
  | inr over ↦ rw over ([], refl)
  | inl more ↦
      let (next_pos, next_len) = find_start_code (drop pos frame) pos in
      let rest : Finds
          (if next_len == 0 then some [] else nal_loop fuel frame (next_pos + next_len)) =
        elim (Bool-cases (next_len == 0)) [
          | inl last ↦ rw last ([], refl)
          | inr found ↦ rw found (
              nal_loop-Finds fuel frame (next_pos + next_len)
                (ground (arith, find_start_code-after (drop pos frame) pos)))
        ] in
      rw more (elim (Bool-cases (ltb pos next_pos)) [
        | inl some_bytes ↦ rw some_bytes (add_nal-Finds _ _ rest)
        | inr nothing ↦ rw nothing rest
      ])
]

extract_nal_units-Finds : (frame : Bytes) → Finds (extract_nal_units frame)
unfolding extract_nal_units
extract_nal_units-Finds frame =
    let (first_pos, first_len) = find_start_code frame 0 in
    elim (Bool-cases (first_len == 0)) [
      | inl none_found ↦ rw none_found (elim (Bool-cases (is_empty frame)) [
        | inl nothing ↦ rw nothing ([], refl)
        | inr whole ↦ rw whole (frame ∷ [], refl)
      ])
      | inr found ↦ rw found (nal_loop-Finds (length frame) frame _ (omega arith))
    ]

-- `packetize` of the H.264 packetizer ends for every frame, time stamp and buffer, and is defined, where
-- the payload limit is not 0 and a fragment has room for a byte: a payload limit of 3 bytes at least,
-- or one of 1 byte at least with a header extension.
pub packetize-Ends :
    (p : RtpPacketizer) (frame : Bytes) (timestamp : ℕ) (output : RtpFrameBuffer)
    → 1 ≤ p.max_payload_size
    → 1 ≤ max_fragment_size p
    → Ends (max_fragment_size p) (packetize p frame timestamp output)
unfolding packetize packetize_nals
packetize-Ends p frame timestamp output positive room =
    let (nals, found) = extract_nal_units-Finds frame in
    let defined : p.max_payload_size == 0 ≡ false = ground arith in
    let (p', output', sent, kept) = packetize_loop-Ends nals p output timestamp [] 0 room in
    elim (Bool-cases (is_empty frame)) [
      | inl no_frame ↦ rw no_frame (p, output, refl, refl)
      | inr bytes ↦ elim (Bool-cases (is_empty nals)) [
        | inl nothing ↦ rw (bytes, found, nothing) (p, output, refl, refl)
        | inr units ↦ rw (bytes, found, units, defined, sent) (p', finalize output', refl, kept)
      ]
    ]
