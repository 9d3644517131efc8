-- ===== src/Util/TimerWheel/Tests.antt =====
-- A wheel with two timers.
use libnx.Common.{ℕ, ◌≡◌, refl, [], ◌∷◌, some, arith}
use libnx.Util.TimerWheel.{
  TimerWheel, add, cancel, fire_expired, expired_callbacks, renew, emplace, has_handle,
}
use libnx.Util.TimerWheel.Firing.{IsWheel, run_ticks, cancel-add}

abbrev two_timers : TimerWheel ℕ
two_timers = record {
  entries =
      record { handle = 1; interval = 5; next_fire = 10; callback = 100 }
      ∷ record { handle = 2; interval = 7; next_fire = 30; callback = 200 }
      ∷ [];
  next_handle = 3;
}

two_timers-IsWheel : IsWheel two_timers
two_timers-IsWheel = (
  ((omega arith, omega arith, omega arith), ((omega arith, omega arith, omega arith), tt)),
  omega arith,
)

-- The timer that is added at 20 is called at 29 and at 40.
run_three :
    run_ticks (28 ∷ 29 ∷ 40 ∷ []) (add 20 9 (some 300) two_timers).1
    ≡ (100 ∷ []) ∷ (300 ∷ []) ∷ (100 ∷ 200 ∷ 300 ∷ []) ∷ []
unfolding run_ticks add fire_expired expired_callbacks renew emplace has_handle
run_three = refl

cancel-add_example :
    cancel 3 (add 20 9 (some 300) two_timers).1 ≡ record two_timers { next_handle = 4 }
unfolding add
cancel-add_example = cancel-add 20 9 300 two_timers two_timers-IsWheel (omega arith) (omega arith)
