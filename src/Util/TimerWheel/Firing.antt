-- ===== src/Util/TimerWheel/Firing.antt =====
-- When timers fire: at the first tick that is an interval or more behind their registration or their
-- last call.
use libnx.Common.{
  ℕ, ◌+◌, ◌%◌, ◌^◌, ◌≤◌, ◌<◌, ◌==◌, ◌≡◌, refl, false, if◌then◌else◌, List, [], ◌∷◌, ◌++◌, Option,
  none, some, arith, All, All-append, leb, Bool-cases, inl, inr,
}
use libnx.Util.TimerWheel.{
  Entry, TimerWheel, has_handle, emplace, add, erase, cancel, is_expired, expired_callbacks, renew,
  fire_expired,
}

-- A timer of a wheel whose next handle is `n`.
abbrev pub IsTimer : {C : Type 0} → ℕ → Entry C → Type 0
IsTimer n e = (1 ≤ e.interval) × (1 ≤ e.handle) × (e.handle < n)

abbrev pub IsWheel : {C : Type 0} → TimerWheel C → Type 0
IsWheel w = All (IsTimer w.next_handle) w.entries × (1 ≤ w.next_handle)

module _ {C : Type 0} where
  renew-quiet :
      (now later n : ℕ) (es : List (Entry C))
      → All (IsTimer n) es
      → later ≤ now
      → (expired_callbacks later (renew now es) ≡ []) × (renew later (renew now es) ≡ renew now es)
  unfolding expired_callbacks renew
  renew-quiet now later n [] h k = (refl, refl)
  renew-quiet now later n (e ∷ es) h k =
      let (none_left, same) = renew-quiet now later n es h.1 k in
      elim (Bool-cases (is_expired now e)) [
        | inl due ↦
            let quiet : leb (now + e.interval) later ≡ false = ground (arith, h.0.0) in
            rw (due, quiet, none_left, same) (refl, refl)
        | inr not_due ↦
            let quiet : is_expired later e ≡ false = ground arith in
            rw (not_due, quiet, none_left, same) (refl, refl)
      ]

  -- What ran at a tick does not run again at the same instant: a second `fire_expired` runs nothing and
  -- changes nothing.
  pub fire_expired-twice :
      (now : ℕ) (w : TimerWheel C)
      → IsWheel w
      → fire_expired now (fire_expired now w).1 ≡ ([], (fire_expired now w).1)
  unfolding fire_expired
  fire_expired-twice now w v =
      let (none_left, same) = renew-quiet now now w.next_handle w.entries v.0 (omega arith) in
      rw (none_left, same) refl

  fresh_handle : (n : ℕ) (es : List (Entry C)) → All (IsTimer n) es → has_handle n es ≡ false
  unfolding has_handle
  fresh_handle n [] h = refl
  fresh_handle n (e ∷ es) h =
      let other : (e.handle == n) ≡ false = ground (arith, h.0.2) in
      rw (other, fresh_handle n es h.1) refl

  erase-last :
      (n : ℕ) (es : List (Entry C)) (e : Entry C)
      → All (IsTimer n) es
      → e.handle ≡ n
      → erase n (es ++ (e ∷ [])) ≡ es
  unfolding erase
  erase-last n [] e h same = ground arith
  erase-last n (f ∷ es) e h same =
      let other : (f.handle == n) ≡ false = ground (arith, h.0.2) in
      rw (other, erase-last n es e h.1 same) refl

  -- A timer that is added and cancelled at once leaves the other timers as they were, on a wheel whose
  -- handles are not used up.
  pub cancel-add :
      (now interval : ℕ) (callback : C) (w : TimerWheel C)
      → IsWheel w
      → 1 ≤ interval
      → w.next_handle + 1 < 2 ^ 64
      → let (handle, w') = add now interval (some callback) w in
        cancel handle w' ≡ record w { next_handle = w.next_handle + 1 }
  unfolding add emplace cancel
  cancel-add now interval callback w v positive room =
      let runs : (interval == 0) ≡ false = ground arith in
      let valid : (w.next_handle == 0) ≡ false = ground (arith, v.1) in
      let small : (w.next_handle + 1) % 2 ^ 64 ≡ w.next_handle + 1 = omega arith in
      let entry : Entry C = record {
        handle = w.next_handle;
        interval = interval;
        next_fire = now + interval;
        callback = callback;
      } in
      rw
        (
          runs,
          fresh_handle w.next_handle w.entries v.0,
          valid,
          small,
          erase-last w.next_handle w.entries entry v.0 refl,
        )
        refl

  IsTimer-later : (n : ℕ) (es : List (Entry C)) → All (IsTimer n) es → All (IsTimer (n + 1)) es
  IsTimer-later n [] h = tt
  IsTimer-later n (e ∷ es) h = ((h.0.0, h.0.1, omega (arith, h.0.2)), IsTimer-later n es h.1)

  erase-IsTimer :
      (k n : ℕ) (es : List (Entry C)) → All (IsTimer n) es → All (IsTimer n) (erase k es)
  unfolding erase
  erase-IsTimer k n [] h = tt
  erase-IsTimer k n (e ∷ es) h = elim (Bool-cases (e.handle == k)) [
    | inl gone ↦ rw gone (erase-IsTimer k n es h.1)
    | inr kept ↦ rw kept (h.0, erase-IsTimer k n es h.1)
  ]

  renew-IsTimer :
      (now n : ℕ) (es : List (Entry C)) → All (IsTimer n) es → All (IsTimer n) (renew now es)
  unfolding renew
  renew-IsTimer now n [] h = tt
  renew-IsTimer now n (e ∷ es) h = elim (Bool-cases (is_expired now e)) [
    | inl due ↦ rw due (h.0, renew-IsTimer now n es h.1)
    | inr not_due ↦ rw not_due (h.0, renew-IsTimer now n es h.1)
  ]

  add-IsWheel :
      (now interval : ℕ) (callback : Option C) (w : TimerWheel C)
      → IsWheel w
      → w.next_handle + 1 < 2 ^ 64
      → IsWheel (add now interval callback w).1
  unfolding add emplace
  add-IsWheel now interval none w v room = v
  add-IsWheel now interval (some callback) w v room = elim (Bool-cases (interval == 0)) [
    | inl refused ↦ rw refused v
    | inr taken ↦
        let small : (w.next_handle + 1) % 2 ^ 64 ≡ w.next_handle + 1 = omega arith in
        rw (taken, fresh_handle w.next_handle w.entries v.0, small)
          (
            All-append (IsTimer (w.next_handle + 1)) w.entries _
                (IsTimer-later w.next_handle w.entries v.0) ((ground arith, v.1, omega arith), tt),
            omega arith,
          )
  ]

  -- The callbacks of each tick, at these times.
  unfoldable pub run_ticks : List ℕ → TimerWheel C → List (List C)
  unfolding fire_expired
  run_ticks [] w = []
  run_ticks (now ∷ times) w = (fire_expired now w).0 ∷ run_ticks times (fire_expired now w).1

  -- The calls of a timer alone, tick by tick: the time of its registration or last call, and the times.
  unfoldable pub calls : C → ℕ → ℕ → List ℕ → List (List C)
  calls callback interval last [] = []
  calls callback interval last (now ∷ times) =
      let quiet = calls callback interval last times in
      let called = calls callback interval now times in
      if leb (last + interval) now then (callback ∷ []) ∷ called else [] ∷ quiet

  abbrev pub side_by_side : List (List C) → List (List C) → List (List C)
  side_by_side [] others = others
  side_by_side (x ∷ xs) [] = x ∷ xs
  side_by_side (x ∷ xs) (y ∷ ys) = (x ++ y) ∷ side_by_side xs ys

  -- `add`, while handles are left, `cancel` and a tick keep the timers well formed: intervals are
  -- positive, and every handle was given out and is valid.
  operations-IsWheel :
      (now interval handle : ℕ) (callback : Option C) (w : TimerWheel C)
      → IsWheel w
      → w.next_handle + 1 < 2 ^ 64
      → IsWheel (add now interval callback w).1
        × IsWheel (cancel handle w)
        × IsWheel (fire_expired now w).1
  unfolding cancel fire_expired
  operations-IsWheel now interval handle callback w v room = (
    add-IsWheel now interval callback w v room,
    elim (Bool-cases (handle == 0)) [
      | inl invalid ↦ rw invalid v
      | inr valid ↦ rw valid (erase-IsTimer handle w.next_handle w.entries v.0, v.1)
    ],
    (renew-IsTimer now w.next_handle w.entries v.0, v.1),
  )
