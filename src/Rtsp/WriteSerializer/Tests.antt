-- ===== src/Rtsp/WriteSerializer/Tests.antt =====
-- A serializer with nothing queued, and one that writes.
use libnx.Common.{◌≡◌, refl, [], ◌∷◌, true, false, arith}
use libnx.Rtsp.WriteSerializer.{
  World, construct, inline_entry, call_submit, call_close, run_next, written, run,
}
use libnx.Rtsp.WriteSerializer.Order.{IsOrdered, run-IsOrdered}
use libnx.Rtsp.WriteSerializer.Drain.{successes, run-successes}

abbrev idle : World
idle = record {
  self = construct 4;
  posted = [];
  in_flight = [];
  sent = [];
  accepted = [];
  failures = 0;
  cleared = false;
}

abbrev busy : World
busy = record idle {
  self = record (construct 4) {
    queue = inline_entry (1 ∷ []) ∷ inline_entry (2 ∷ []) ∷ [];
    writing = true;
    queued_count = 2;
  };
  in_flight = inline_entry (1 ∷ []) ∷ [];
  accepted = inline_entry (1 ∷ []) ∷ inline_entry (2 ∷ []) ∷ [];
}

idle-IsOrdered : IsOrdered idle
idle-IsOrdered = ground arith

busy-IsOrdered : IsOrdered busy
busy-IsOrdered = ground arith

run-IsOrdered_example : IsOrdered (
    run idle
      (call_submit (1 ∷ []) ∷ run_next ∷ call_submit (2 ∷ []) ∷ written false ∷ call_close ∷ []))
run-IsOrdered_example =
    run-IsOrdered idle
      (call_submit (1 ∷ []) ∷ run_next ∷ call_submit (2 ∷ []) ∷ written false ∷ call_close ∷ [])
      idle-IsOrdered

run-successes_example :
    ((run busy (successes 2)).self.queue ≡ []) × ((run busy (successes 2)).sent ≡ busy.accepted)
run-successes_example = run-successes busy refl refl busy-IsOrdered
