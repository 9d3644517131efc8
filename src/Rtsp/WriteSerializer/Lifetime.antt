-- ===== src/Rtsp/WriteSerializer/Lifetime.antt =====
-- The buffers of a pending write.
use libnx.Common.{◌≡◌, refl, true, [], ◌∷◌}
use libnx.Rtsp.WriteSerializer.{
  WriteEntry, World, close, run_handler, call_close, run_next, step, run,
}

-- `close` while an entry is being written, on a strand with nothing posted: its handler takes the entry
-- out of the queue, and the write is still pending, with buffers that point into it.
pub run-close :
    (w : World) (e : WriteEntry)
    → w.in_flight ≡ e ∷ []
    → w.self.active ≡ true
    → w.posted ≡ []
    → let w' = run w (call_close ∷ run_next ∷ []) in (w'.in_flight ≡ e ∷ []) × (w'.self.queue ≡ [])
unfolding run step close run_handler
run-close w e p on nothing = simp (on, nothing) (p, refl)
