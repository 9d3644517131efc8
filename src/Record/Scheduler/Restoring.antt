-- ===== src/Record/Scheduler/Restoring.antt =====
-- What the change of the hour does to the channels.
use libnx.Common.{
  ℕ, ◌≡◌, refl, sym, ap, ◌∙◌, ◌==◌, true, List, [], ◌∷◌, some, arith, Bool-cases, inl, inr,
}
use Prim.Native.Nat.{bit_and, bit_or}
use libnx.Common.Bits.{bit_or-absorb}
use libnx.Record.Scheduler.Maps.{Table, find}
use libnx.Record.Scheduler.{
  Now, RecordScheduler, restored, restore_loop, on_hourly_schedule_change, get_scheduled_attribute,
  attribute_manual,
}
use mathlib.Core.Option

module _ (now : Now) (s : RecordScheduler) where
  restore_loop-find :
      (t : Table ℕ) (id : ℕ)
      → find id (restore_loop now s t).0 ≡ Option.map (restored now s id) (find id t)
  unfolding restore_loop find
  restore_loop-find [] id = refl
  restore_loop-find ((k, current) ∷ t) id =
      elim (Bool-cases (restored now s k current == current)) [
        | inl same ↦ elim (Bool-cases (k == id)) [
          | inl here ↦
              let same_id : k ≡ id = ground arith in
              let as_it_was : restored now s k current ≡ current = ground arith in
              rw (same, here)
                (ap some (sym as_it_was ∙ ap (λ (i : ℕ). restored now s i current) same_id))
          | inr there ↦ rw (same, there) (restore_loop-find t id)
        ]
        | inr other ↦ elim (Bool-cases (k == id)) [
          | inl here ↦
              let same_id : k ≡ id = ground arith in
              rw (other, here) (ap (λ (i : ℕ). some (restored now s i current)) same_id)
          | inr there ↦ rw (other, there) (restore_loop-find t id)
        ]
      ]

  -- A second pass finds nothing to do.
  restore_loop-again :
      (t : Table ℕ) → restore_loop now s (restore_loop now s t).0 ≡ ((restore_loop now s t).0, [])
  unfolding restore_loop
  restore_loop-again [] = refl
  restore_loop-again ((k, current) ∷ t) = elim (Bool-cases (restored now s k current == current)) [
    | inl same ↦ rw (same, restore_loop-again t, same) refl
    | inr other ↦
        let settled : restored now s k (restored now s k current) == restored now s k current
            ≡ true =
          ground
            (arith, bit_or-absorb (get_scheduled_attribute now s k) current attribute_manual) in
        rw (other, restore_loop-again t, settled) refl
  ]

-- The attributes of every channel are those of the current hour, with the manual flag as it was.
pub on_hourly_schedule_change-restores :
    (now : Now) (s : RecordScheduler) (id : ℕ)
    → find id (on_hourly_schedule_change now s).0.current_attributes
      ≡ Option.map
          (λ (current : ℕ).
            bit_or (get_scheduled_attribute now s id) (bit_and current attribute_manual))
          (find id s.current_attributes)
unfolding on_hourly_schedule_change
on_hourly_schedule_change-restores now s id = restore_loop-find now s s.current_attributes id

-- A second call at the same hour reports no channel and changes nothing.
pub on_hourly_schedule_change-settles :
    (now : Now) (s : RecordScheduler)
    → on_hourly_schedule_change now (on_hourly_schedule_change now s).0
      ≡ ((on_hourly_schedule_change now s).0, [])
unfolding on_hourly_schedule_change get_scheduled_attribute restore_loop
on_hourly_schedule_change-settles now s =
    ap with_attributes (restore_loop-again now s s.current_attributes)
  where
    with_attributes : Table ℕ × List ℕ → RecordScheduler × List ℕ
    with_attributes (t, changed) = (record s { current_attributes = t }, changed)
