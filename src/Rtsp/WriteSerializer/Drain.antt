-- ===== src/Rtsp/WriteSerializer/Drain.antt =====
-- Everything that was queued is written, once the writes succeed.
use libnx.Common.{
  ℕ, zero, suc, ◌≡◌, ◌≢◌, refl, sym, ap, ◌∙◌, true, false, List, [], ◌∷◌, ◌++◌, arith, length,
  append-nil,
}
use libnx.Rtp.Extension.{is_empty}
use libnx.Rtsp.WriteSerializer.{
  WriteEntry, World, pop_front, front, on_written, do_write, Event, written, step, run,
}
use libnx.Rtsp.WriteSerializer.Order.{IsOrdered, step-IsOrdered}

-- `n` writes that end without an error.
unfoldable pub successes : ℕ → List Event
successes zero = []
successes (suc n) = written false ∷ successes n

front_full : (q : List WriteEntry) → is_empty q ≡ false → front q ≢ []
front_full [] h = cc
front_full (e ∷ q) h = λ p. cc

success_step :
    (w : World)
    → w.self.active ≡ true
    → w.failures ≡ 0
    → is_empty w.self.queue ≡ false
    → IsOrdered w
    → let w' = step w (written false) in
      (w'.self.active ≡ true)
      × (w'.failures ≡ 0)
      × (w'.accepted ≡ w.accepted)
      × (w'.self.queue ≡ pop_front w.self.queue)
unfolding step on_written do_write
success_step w on clean full v = ended w.in_flight refl
  where
    ended :
        (o : List WriteEntry)
        → w.in_flight ≡ o
        → let w' : World = elim o [ [] ↦ w | e ∷ rest ↦ on_written false e w ] in
          (w'.self.active ≡ true)
          × (w'.failures ≡ 0)
          × (w'.accepted ≡ w.accepted)
          × (w'.self.queue ≡ pop_front w.self.queue)
    ended [] p = absurd (ground (arith, v.closing, v.flight, v.idle, front_full w.self.queue))
    ended (e ∷ rest) p = ground arith

drain_loop :
    (q : List WriteEntry) (w : World)
    → w.self.queue ≡ q
    → w.self.active ≡ true
    → w.failures ≡ 0
    → IsOrdered w
    → let w' = run w (successes (length q)) in (w'.self.queue ≡ []) × (w'.sent ≡ w.accepted)
unfolding run successes
drain_loop [] w p on clean v = (
  p,
  sym (append-nil w.sent) ∙ ap (λ (t : List WriteEntry). w.sent ++ t) (sym p) ∙ v.order on clean,
)
drain_loop (e ∷ q) w p on clean v =
    let (on', clean', kept, rest) = success_step w on clean (ap is_empty p) v in
    let (empty', all_sent) =
      drain_loop q (step w (written false)) (rest ∙ ap pop_front p) on' clean'
        (step-IsOrdered w (written false) v) in
    (empty', all_sent ∙ kept)

-- From any state in order, active, with no failed write: as many successful writes as entries are
-- queued leave the queue empty, and every entry that was ever queued is written, in order.
pub run-successes :
    (w : World)
    → w.self.active ≡ true
    → w.failures ≡ 0
    → IsOrdered w
    → let w' = run w (successes (length w.self.queue)) in
      (w'.self.queue ≡ []) × (w'.sent ≡ w.accepted)
run-successes w on clean v = drain_loop w.self.queue w refl on clean v
