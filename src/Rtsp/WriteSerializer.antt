-- ===== src/Rtsp/WriteSerializer.antt =====
-- TcpWriteSerializer (nxnet/rtsp/tcp_write_serializer.cpp). `World` adds what is outside of the object:
-- the handlers posted to its strand, in order; the entries of the `async_write`s that were started and
-- have not ended, whose buffers point into the queue; the entries written in full; and, for the theorems, every entry that was
-- queued, the number of failed writes, and whether a handler of `close` ran. The strand runs one handler
-- at a time, so each is one step.
pub mod Order
pub mod Drain
pub mod Lifetime
mod Tests
use libnx.Common.{
  ℕ, zero, suc, ◌+◌, ◌-◌, Bool, true, false, not, ◌&&◌, ◌||◌, List, [], ◌∷◌, ◌++◌, Option, none,
  some, map, length, ltb, leb, if◌then◌else◌,
}
use libnx.Rtp.Types.{Bytes}
use libnx.Rtp.Extension.{is_empty}
use libnx.Rtp.FrameBuffer.{RtpFrameBuffer, packet, packet_count}

pub record WriteEntry : Type 0 where
  pub inline_data : Bytes
  pub frame_ref : Option RtpFrameBuffer
  pub headers : List Bytes

-- The packets of a frame from `i` on, each behind its header; `none` is a header that is not there.
unfoldable pub frame_buffers : ℕ → ℕ → RtpFrameBuffer → List Bytes → Option (List Bytes)
frame_buffers zero i frame headers = some []
frame_buffers (suc count) i frame [] = none
frame_buffers (suc count) i frame (header ∷ headers) =
    elim (frame_buffers count (i + 1) frame headers) [
      | none ↦ none
      | some rest ↦ some (header ∷ packet frame i ∷ rest)
    ]

unfoldable pub to_buffers : WriteEntry → Option (List Bytes)
unfolding frame_buffers
to_buffers e = elim e.frame_ref [
  | some frame ↦ frame_buffers (packet_count frame) 0 frame e.headers
  | none ↦ some (e.inline_data ∷ [])
]

pub record TcpWriteSerializer : Type 0 where
  pub queue : List WriteEntry
  pub writing : Bool
  pub max_queue_size : ℕ
  pub queued_count : ℕ
  pub overflow_count : ℕ
  pub active : Bool
  pub socket_open : Bool

abbrev pub construct : ℕ → TcpWriteSerializer
construct max_queue_size = record {
  queue = [];
  writing = false;
  max_queue_size = max_queue_size;
  queued_count = 0;
  overflow_count = 0;
  active = true;
  socket_open = true;
}

-- The handlers that the methods post.
pub data Handler : Type 0 where
  push_frame : WriteEntry → Handler
  push_batch : List Bytes → Handler
  clear : Handler

pub record World : Type 0 where
  pub self : TcpWriteSerializer
  pub posted : List Handler
  pub in_flight : List WriteEntry
  pub sent : List WriteEntry
  pub accepted : List WriteEntry
  pub failures : ℕ
  pub cleared : Bool

abbrev pub inline_entry : Bytes → WriteEntry
inline_entry bytes = record { inline_data = bytes; frame_ref = none; headers = [] }

abbrev pub post : Handler → World → World
post h w = record w { posted = w.posted ++ (h ∷ []) }

unfoldable pub submit_frame : WriteEntry → World → World
submit_frame e w = if not w.self.active then w else post (push_frame e) w

unfoldable pub submit : Bytes → World → World
unfolding submit_frame
submit bytes w =
    if not w.self.active || is_empty bytes then w else submit_frame (inline_entry bytes) w

unfoldable pub submit_batch : List Bytes → World → World
submit_batch batch w = if not w.self.active || is_empty batch then w else post (push_batch batch) w

unfoldable pub close : World → World
close w =
    let s = w.self in
    if not s.active then w else post clear (record w { self = record s { active = false } })

unfoldable pub is_active : TcpWriteSerializer → Bool
is_active s = s.active && s.socket_open

-- The front entry, where there is one.
abbrev pub front : List WriteEntry → List WriteEntry
front [] = []
front (e ∷ rest) = e ∷ []

-- A new `async_write`, behind those that are pending.
unfoldable pub do_write : World → World
do_write w =
    let s = w.self in
    record w {
      self = record s { writing = not (is_empty s.queue) };
      in_flight = w.in_flight ++ front s.queue;
    }

unfoldable pub handle_overflow : World → World
handle_overflow w =
    let s = w.self in
    record w {
      self = record s {
        overflow_count = s.overflow_count + 1;
        socket_open = false;
        active = false;
      };
    }

-- The entries at the back of the queue, and a write where none is pending.
unfoldable pub enqueue : List WriteEntry → World → World
unfolding do_write
enqueue es w =
    let s = w.self in
    let w' : World = record w {
      self = record s { queue = s.queue ++ es; queued_count = length (s.queue ++ es) };
      accepted = w.accepted ++ es;
    } in
    if not s.writing then do_write w' else w'

unfoldable pub run_push_frame : WriteEntry → World → World
run_push_frame e w =
    if not w.self.active
    then w
    else if leb w.self.max_queue_size (length w.self.queue)
    then handle_overflow w
    else enqueue (e ∷ []) w

unfoldable pub run_push_batch : List Bytes → World → World
run_push_batch batch w =
    if not w.self.active
    then w
    else if ltb w.self.max_queue_size (length w.self.queue + length batch)
    then handle_overflow w
    else enqueue (map inline_entry batch) w

unfoldable pub run_clear : World → World
run_clear w =
    let s = w.self in
    record w { self = record s { queue = []; writing = false; queued_count = 0 }; cleared = true }

unfoldable pub run_handler : Handler → World → World
unfolding run_push_frame run_push_batch run_clear
run_handler (push_frame e) w = run_push_frame e w
run_handler (push_batch batch) w = run_push_batch batch w
run_handler clear w = run_clear w

abbrev pub pop_front : List WriteEntry → List WriteEntry
pop_front [] = []
pop_front (e ∷ rest) = rest

-- The completion handler of the `async_write` that was started first, with or without an error.
unfoldable pub on_written : Bool → WriteEntry → World → World
unfolding do_write
on_written failed e w =
    let s = w.self in
    let done = record w { in_flight = pop_front w.in_flight; sent = w.sent ++ (e ∷ []) } in
    let next : World = record done {
      self = record s { queue = pop_front s.queue; queued_count = length (pop_front s.queue) };
    } in
    if failed
    then record w {
      self = record s { queue = []; writing = false; queued_count = 0 };
      in_flight = pop_front w.in_flight;
      failures = w.failures + 1;
    }
    else if not s.active || is_empty s.queue
    then record done { self = record s { writing = false; queued_count = 0 } }
    else do_write next

-- A call of a method, the next handler of the strand, or the end of the pending write; of several, the
-- first one ends.
pub data Event : Type 0 where
  call_submit : Bytes → Event
  call_submit_batch : List Bytes → Event
  call_submit_frame : WriteEntry → Event
  call_close : Event
  run_next : Event
  written : Bool → Event

unfoldable pub step : World → Event → World
step w (call_submit bytes) = submit bytes w
step w (call_submit_batch batch) = submit_batch batch w
step w (call_submit_frame e) = submit_frame e w
step w call_close = close w
step w run_next = elim w.posted [ [] ↦ w | h ∷ rest ↦ run_handler h (record w { posted = rest }) ]
step w (written failed) = elim w.in_flight [ [] ↦ w | e ∷ rest ↦ on_written failed e w ]

unfoldable pub run : World → List Event → World
unfolding step
run w [] = w
run w (e ∷ es) = run (step w e) es
