-- ===== src/Rtsp/WriteSerializer/Order.antt =====
-- What holds of the serializer after any events.
use libnx.Common.{
  suc, ◌+◌, ◌≤◌, ◌≡◌, refl, ap, Bool, true, false, not, ◌||◌, List, [], ◌∷◌, ◌++◌, map, arith,
  length, length-append, append_assoc, ltb, leb, if◌then◌else◌, Bool-cases, inl, inr,
}
use libnx.Rtp.Types.{Bytes}
use libnx.Rtp.Extension.{is_empty}
use libnx.Rtsp.WriteSerializer.{
  WriteEntry, Handler, push_frame, push_batch, clear, World, inline_entry, front, pop_front,
  do_write, enqueue, handle_overflow, run_push_frame, run_push_batch, run_clear, run_handler,
  on_written, Event, call_submit, call_submit_batch, call_submit_frame, call_close, run_next,
  written, step, run, submit, submit_batch, submit_frame, close,
}

abbrev pub has_clear : List Handler → Bool
has_clear [] = false
has_clear (clear ∷ hs) = true
has_clear (push_frame e ∷ hs) = has_clear hs
has_clear (push_batch b ∷ hs) = has_clear hs

-- One write is pending at most. While it is active: entries are written in the order in which they were queued, and none is skipped
-- unless a write failed; nothing waits while no write is pending; the statistics are right. The entry
-- that is being written is at the front of the queue until a handler of `close` has run. The queue
-- keeps its limit.
pub record IsOrdered (w : World) : Type 0 where
  pub single : length w.in_flight ≤ 1
  pub order : w.self.active ≡ true → w.failures ≡ 0 → w.sent ++ w.self.queue ≡ w.accepted
  pub idle : w.self.active ≡ true → w.self.writing ≡ false → w.self.queue ≡ []
  pub counted : w.self.active ≡ true → w.self.queued_count ≡ length w.self.queue
  pub flight : w.cleared ≡ false → w.in_flight ≡ (if w.self.writing then front w.self.queue else [])
  pub busy : w.cleared ≡ false → w.self.writing ≡ true → is_empty w.self.queue ≡ false
  pub bounded : length w.self.queue ≤ w.self.max_queue_size
  pub closing : (has_clear w.posted || w.cleared) ≡ true → w.self.active ≡ false

has_clear-append : (hs ks : List Handler) → has_clear (hs ++ ks) ≡ (has_clear hs || has_clear ks)
has_clear-append [] ks = refl
has_clear-append (clear ∷ hs) ks = refl
has_clear-append (push_frame e ∷ hs) ks = has_clear-append hs ks
has_clear-append (push_batch b ∷ hs) ks = has_clear-append hs ks

submit_frame-IsOrdered : (w : World) (e : WriteEntry) → IsOrdered w → IsOrdered (submit_frame e w)
unfolding submit_frame
submit_frame-IsOrdered w e v = ground (arith, has_clear-append w.posted (push_frame e ∷ []))

submit_batch-IsOrdered : (w : World) (b : List Bytes) → IsOrdered w → IsOrdered (submit_batch b w)
unfolding submit_batch
submit_batch-IsOrdered w b v = ground (arith, has_clear-append w.posted (push_batch b ∷ []))

submit-IsOrdered : (w : World) (b : Bytes) → IsOrdered w → IsOrdered (submit b w)
unfolding submit
submit-IsOrdered w b v = ground (arith, submit_frame-IsOrdered w (inline_entry b))

close-IsOrdered : (w : World) → IsOrdered w → IsOrdered (close w)
unfolding close
close-IsOrdered w v = ground (arith, has_clear-append w.posted (clear ∷ []))

-- What `do_write` does of an idle queue.
from_empty :
    (es : List WriteEntry)
    → (is_empty es ≡ true → es ≡ [])
      × (front es ≡ (if not (is_empty es) then front es else []))
      × (length (front es) ≤ 1)
from_empty [] = ground arith
from_empty (e ∷ es) = ground arith

front-append : (xs ys : List WriteEntry) → is_empty xs ≡ false → front (xs ++ ys) ≡ front xs
front-append [] ys h = cc
front-append (x ∷ xs) ys h = refl

is_empty-append : (xs ys : List WriteEntry) → is_empty xs ≡ false → is_empty (xs ++ ys) ≡ false
is_empty-append [] ys h = cc
is_empty-append (x ∷ xs) ys h = refl

pub front_shape :
    (q : List WriteEntry) (e : WriteEntry) (rest : List WriteEntry)
    → front q ≡ e ∷ rest
    → q ≡ e ∷ pop_front q
front_shape [] e rest h = cc
front_shape (x ∷ q) e rest h = ground arith

enqueue-IsOrdered :
    (w : World) (es : List WriteEntry)
    → w.self.active ≡ true
    → length w.self.queue + length es ≤ w.self.max_queue_size
    → IsOrdered w
    → IsOrdered (enqueue es w)
unfolding enqueue do_write
enqueue-IsOrdered w es a room v = elim (Bool-cases w.self.writing) [
  | inl busy ↦ ground (
    arith,
    front-append w.self.queue es,
    is_empty-append w.self.queue es,
    length-append w.self.queue es,
    append_assoc w.sent w.self.queue es,
  )
  | inr idle ↦ ground (
    arith,
    v.idle a idle,
    length-append w.self.queue es,
    append_assoc w.sent w.self.queue es,
    from_empty es,
  )
]

length-inline : (batch : List Bytes) → length (map inline_entry batch) ≡ length batch
length-inline [] = refl
length-inline (b ∷ batch) = ap suc (length-inline batch)

overflow-IsOrdered : (w : World) → IsOrdered w → IsOrdered (handle_overflow w)
unfolding handle_overflow
overflow-IsOrdered w v = ground arith

push_frame-IsOrdered : (w : World) (e : WriteEntry) → IsOrdered w → IsOrdered (run_push_frame e w)
unfolding run_push_frame
push_frame-IsOrdered w e v = elim (Bool-cases w.self.active) [
  | inr off ↦ simp off v
  | inl on ↦ elim (Bool-cases (leb w.self.max_queue_size (length w.self.queue))) [
    | inl full ↦ simp (on, full) (overflow-IsOrdered w v)
    | inr room ↦ simp (on, room) (enqueue-IsOrdered w (e ∷ []) on (ground arith) v)
  ]
]

push_batch-IsOrdered :
    (w : World) (batch : List Bytes) → IsOrdered w → IsOrdered (run_push_batch batch w)
unfolding run_push_batch
push_batch-IsOrdered w batch v = elim (Bool-cases w.self.active) [
  | inr off ↦ simp off v
  | inl on ↦ elim (Bool-cases (ltb w.self.max_queue_size (length w.self.queue + length batch))) [
    | inl full ↦ simp (on, full) (overflow-IsOrdered w v)
    | inr room ↦
        simp (on, room)
          (enqueue-IsOrdered w (map inline_entry batch) on (ground (arith, length-inline batch)) v)
  ]
]

run_handler-IsOrdered :
    (w : World) (h : Handler) (rest : List Handler)
    → w.posted ≡ h ∷ rest
    → IsOrdered w
    → IsOrdered (run_handler h (record w { posted = rest }))
unfolding run_handler run_clear
run_handler-IsOrdered w (push_frame e) rest p v =
    push_frame-IsOrdered (record w { posted = rest }) e (ground arith)
run_handler-IsOrdered w (push_batch b) rest p v =
    push_batch-IsOrdered (record w { posted = rest }) b (ground arith)
run_handler-IsOrdered w clear rest p v = ground (arith, v.closing)

-- The entry that was written is the front of the queue.
written_front :
    (w : World) (e : WriteEntry) (rest : List WriteEntry)
    → w.in_flight ≡ e ∷ rest
    → w.self.active ≡ true
    → IsOrdered w
    → (w.self.writing ≡ true) × (w.self.queue ≡ e ∷ pop_front w.self.queue)
written_front w e rest p on v = ground (arith, v.closing, v.flight, front_shape w.self.queue e rest)

on_written-IsOrdered :
    (w : World) (failed : Bool) (e : WriteEntry) (rest : List WriteEntry)
    → w.in_flight ≡ e ∷ rest
    → IsOrdered w
    → IsOrdered (on_written failed e w)
unfolding on_written do_write
on_written-IsOrdered w true e rest p v = ground arith
on_written-IsOrdered w false e rest p v =
    elim (Bool-cases (not w.self.active || is_empty w.self.queue)) [
      | inl over ↦ simp over (ground arith)
      | inr more ↦ simp more (
          ground (
            arith,
            written_front w e rest p,
            append_assoc w.sent (e ∷ []) (pop_front w.self.queue),
            from_empty (pop_front w.self.queue),
          ))
    ]

pub step-IsOrdered : (w : World) (e : Event) → IsOrdered w → IsOrdered (step w e)
unfolding step
step-IsOrdered w (call_submit b) v = submit-IsOrdered w b v
step-IsOrdered w (call_submit_batch b) v = submit_batch-IsOrdered w b v
step-IsOrdered w (call_submit_frame e) v = submit_frame-IsOrdered w e v
step-IsOrdered w call_close v = close-IsOrdered w v
step-IsOrdered w (written failed) v = ended w.in_flight refl
  where
    ended :
        (o : List WriteEntry)
        → w.in_flight ≡ o
        → IsOrdered (elim o [ [] ↦ w | e ∷ rest ↦ on_written failed e w ])
    ended [] p = v
    ended (e ∷ rest) p = on_written-IsOrdered w failed e rest p v
step-IsOrdered w run_next v = next w.posted refl
  where
    next :
        (hs : List Handler)
        → w.posted ≡ hs
        → IsOrdered (elim hs [ [] ↦ w | h ∷ rest ↦ run_handler h (record w { posted = rest }) ])
    next [] p = v
    next (h ∷ rest) p = run_handler-IsOrdered w h rest p v

-- Whatever is called and however the writes end, from a state in order: one write is pending at most
-- and the queue keeps its limit, and while the serializer is active and no write has failed, entries
-- are written in the order in which they were queued.
pub run-IsOrdered : (w : World) (es : List Event) → IsOrdered w → IsOrdered (run w es)
unfolding run
run-IsOrdered w [] v = v
run-IsOrdered w (e ∷ es) v = run-IsOrdered (step w e) es (step-IsOrdered w e v)
