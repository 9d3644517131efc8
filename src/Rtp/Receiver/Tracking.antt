-- ===== src/Rtp/Receiver/Tracking.antt =====
-- The sequence numbers a receiver expects, and what it counts as lost.
use libnx.Common.{
  ℕ, ◌+◌, ◌-◌, ◌%◌, ◌^◌, ◌<◌, ◌≤◌, ◌==◌, ◌≡◌, refl, true, false, arith, ltb, Bool-cases, inl, inr,
}
use libnx.Rtp.Receiver.{RtpReceiver, track_sequence}

-- A receiver that expects `seq`, or has no expectation yet.
abbrev pub Awaits : {D : Type 0} → ℕ → RtpReceiver D → Type 0
Awaits seq r = r.seq_initialized ≡ true → r.expected_seq ≡ seq

module _ {D : Type 0} where
  -- The packet that is expected next changes no count.
  pub track_expected :
      (r : RtpReceiver D) (seq : ℕ)
      → Awaits seq r
      → seq < 2 ^ 16
      → track_sequence r seq
        ≡ record r { seq_initialized = true; expected_seq = (seq + 1) % 2 ^ 16 }
  unfolding track_sequence
  track_expected r seq awaits small = elim (Bool-cases r.seq_initialized) [
    | inl e ↦
        let same : ((seq + 2 ^ 16 - r.expected_seq) % 2 ^ 16 == 0) ≡ true =
          rw (awaits e) (ground arith) in
        rw (same, e) refl
    | inr e ↦ rw e refl
  ]

  -- A packet that is `d` behind arrives, and then the packet that was expected before it: nothing is
  -- missing between them, and `d - 1` packets are counted as lost.
  pub track_late :
      (r : RtpReceiver D) (late d : ℕ)
      → r.seq_initialized ≡ true
      → late < 2 ^ 16
      → 1 ≤ d
      → d ≤ 2 ^ 15
      → r.expected_seq ≡ (late + d) % 2 ^ 16
      → r.statistics.packets_lost + d < 2 ^ 64
      → (track_sequence (track_sequence r late) ((late + d) % 2 ^ 16)).statistics.packets_lost
        ≡ r.statistics.packets_lost + (d - 1)
  unfolding track_sequence
  track_late r late d started small lower upper expects fits =
      rw (started, expects, behind, far, ahead)
        (elim (Bool-cases (d - 1 == 0)) [
          | inl e ↦ rw e (ground arith)
          | inr e ↦ rw (e, near) (ground arith)
        ])
    where
      behind : ((late + 2 ^ 16 - (late + d) % 2 ^ 16) % 2 ^ 16 == 0) ≡ false
      behind = ground arith

      far : ltb ((late + 2 ^ 16 - (late + d) % 2 ^ 16) % 2 ^ 16) (2 ^ 15) ≡ false
      far = ground arith

      ahead : ((late + d) % 2 ^ 16 + 2 ^ 16 - (late + 1) % 2 ^ 16) % 2 ^ 16 ≡ d - 1
      ahead = omega arith

      near : ltb (d - 1) (2 ^ 15) ≡ true
      near = ground arith
