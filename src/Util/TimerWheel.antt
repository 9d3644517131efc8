-- ===== src/Util/TimerWheel.antt =====
-- TimerWheel (nxcore/util/timer_wheel.cpp): the timers and what a tick runs. The clock is an argument,
-- and a callback a value of any type `C`. The map of the timers is a list, in the order of their
-- registration; the C++ map has no order, and neither has what a theorem says of it. The mutex makes
-- each operation one step. The tick coroutine and its flags are left out.
pub mod Firing
mod Tests
use libnx.Common.{
  ℕ, ◌+◌, ◌%◌, ◌^◌, ◌==◌, Bool, true, false, ◌||◌, List, [], ◌∷◌, ◌++◌, Option, none, some, length,
  leb, if◌then◌else◌,
}

pub record Entry (C : Type 0) : Type 0 where
  pub handle : ℕ
  pub interval : ℕ
  pub next_fire : ℕ
  pub callback : C

pub record TimerWheel (C : Type 0) : Type 0 where
  pub entries : List (Entry C)
  pub next_handle : ℕ

abbrev pub invalid_timer_handle : ℕ
invalid_timer_handle = 0

module _ {C : Type 0} where
  unfoldable pub has_handle : ℕ → List (Entry C) → Bool
  has_handle handle [] = false
  has_handle handle (e ∷ es) = (e.handle == handle) || has_handle handle es

  -- `emplace` leaves an entry of that handle as it is.
  unfoldable pub emplace : Entry C → List (Entry C) → List (Entry C)
  unfolding has_handle
  emplace e es = if has_handle e.handle es then es else es ++ (e ∷ [])

  -- The handle and the wheel. `none` is an empty callback; an interval below 0 takes the branch of 0.
  unfoldable pub add : ℕ → ℕ → Option C → TimerWheel C → ℕ × TimerWheel C
  unfolding emplace
  add now interval none w = (invalid_timer_handle, w)
  add now interval (some callback) w =
      let entry : Entry C = record {
        handle = w.next_handle;
        interval = interval;
        next_fire = now + interval;
        callback = callback;
      } in
      if interval == 0 then (invalid_timer_handle, w) else (
        w.next_handle,
        record { entries = emplace entry w.entries; next_handle = (w.next_handle + 1) % 2 ^ 64 },
      )

  unfoldable pub erase : ℕ → List (Entry C) → List (Entry C)
  erase handle [] = []
  erase handle (e ∷ es) =
      let rest = erase handle es in if e.handle == handle then rest else e ∷ rest

  unfoldable pub cancel : ℕ → TimerWheel C → TimerWheel C
  unfolding erase
  cancel handle w =
      if handle == invalid_timer_handle then w else record w { entries = erase handle w.entries }

  abbrev pub size : TimerWheel C → ℕ
  size w = length w.entries

  abbrev pub is_expired : ℕ → Entry C → Bool
  is_expired now e = leb e.next_fire now

  unfoldable pub expired_callbacks : ℕ → List (Entry C) → List C
  expired_callbacks now [] = []
  expired_callbacks now (e ∷ es) =
      let rest = expired_callbacks now es in if is_expired now e then e.callback ∷ rest else rest

  unfoldable pub renew : ℕ → List (Entry C) → List (Entry C)
  renew now [] = []
  renew now (e ∷ es) =
      (if is_expired now e then record e { next_fire = now + e.interval } else e) ∷ renew now es

  -- The callbacks that run, and the wheel behind.
  unfoldable pub fire_expired : ℕ → TimerWheel C → List C × TimerWheel C
  unfolding expired_callbacks renew
  fire_expired now w = (expired_callbacks now w.entries, record w { entries = renew now w.entries })
