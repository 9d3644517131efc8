-- ===== src/Record/Scheduler/Tests.antt =====
-- A week, a state and a file for the theorems on the scheduler.
use libnx.Common.{◌≡◌, refl, [], ◌∷◌, arith, true, none, some, replicate, bit_or, bit_and, ℕ, List}
use libnx.Record.Scheduler.Maps.{find}
use libnx.Record.Scheduler.{
  Now, RecordScheduler, DailySchedule, ChannelSchedule, no_option, no_hour, empty_day,
  on_hourly_schedule_change, set_attribute, get_scheduled_attribute, attribute_motion,
  attribute_manual,
}
use libnx.Record.Scheduler.Restoring.{
  on_hourly_schedule_change-restores, on_hourly_schedule_change-settles,
}
use libnx.Record.Scheduler.Changing.{
  SetsOrKeeps, set_attribute-SetsOrKeeps, IsAllowed, set_attribute-IsAllowed,
}
use libnx.Record.Scheduler.Loading.{
  pos, negsuc, HourJson, FileJson, parsed, parse_attribute_string, attribute_loop, add_named,
  split_pipe, same_text, trim_start, trim_end, load_schedule_from_file,
}
use libnx.Record.Scheduler.Manual.{AllWeeks, load_schedule_from_file-AllWeeks}
use mathlib.Core.Option

-- Motion and events in the first hour of Sunday.
abbrev sunday : DailySchedule
sunday = record {
  weekday = 0;
  hourly_schedules =
      record { attribute = 0x60000; options = replicate 16 no_option } ∷ replicate 23 no_hour;
}

abbrev week : ChannelSchedule
week = record {
  channel_id = 7;
  weekday_schedules =
      sunday
      ∷ empty_day 1
      ∷ empty_day 2
      ∷ empty_day 3
      ∷ empty_day 4
      ∷ empty_day 5
      ∷ empty_day 6
      ∷ [];
  enabled = true;
}

-- The channel records by hand.
abbrev by_hand : RecordScheduler
by_hand = record {
  last_checked_time = 0;
  channel_schedules = (7, week) ∷ [];
  current_attributes = (7, attribute_manual) ∷ [];
}

abbrev midnight : Now
midnight = some (0, 0)

on_hourly_schedule_change-restores_example :
    find 7 (on_hourly_schedule_change midnight by_hand).0.current_attributes
    ≡ Option.map
        (λ (current : ℕ).
          bit_or (get_scheduled_attribute midnight by_hand 7) (bit_and current attribute_manual))
        (find 7 by_hand.current_attributes)
on_hourly_schedule_change-restores_example = on_hourly_schedule_change-restores midnight by_hand 7

on_hourly_schedule_change-settles_example :
    on_hourly_schedule_change midnight (on_hourly_schedule_change midnight by_hand).0
    ≡ ((on_hourly_schedule_change midnight by_hand).0, [])
on_hourly_schedule_change-settles_example = on_hourly_schedule_change-settles midnight by_hand

set_attribute-SetsOrKeeps_example :
    SetsOrKeeps by_hand 7 attribute_motion (set_attribute midnight by_hand 7 attribute_motion)
set_attribute-SetsOrKeeps_example = set_attribute-SetsOrKeeps midnight by_hand 7 attribute_motion

set_attribute-IsAllowed_example :
    IsAllowed
      (get_scheduled_attribute midnight by_hand 7)
      attribute_motion
      (set_attribute midnight by_hand 7 attribute_motion).1
set_attribute-IsAllowed_example = set_attribute-IsAllowed midnight by_hand 7 attribute_motion

-- "motion| manual" with a hour that there is not behind it.
abbrev motion_and_manual : List ℕ
motion_and_manual =
    109 ∷ 111 ∷ 116 ∷ 105 ∷ 111 ∷ 110 ∷ 124 ∷ 32 ∷ 109 ∷ 97 ∷ 110 ∷ 117 ∷ 97 ∷ 108 ∷ []

motion_and_manual_flags : parse_attribute_string motion_and_manual ≡ 0xa0000
unfolding parse_attribute_string attribute_loop split_pipe trim_start trim_end add_named same_text
motion_and_manual_flags = refl

abbrev two_hours : List HourJson
two_hours =
    record { hour = some (pos 3); attribute = some motion_and_manual; duration_minutes = some 5 }
    ∷ record { hour = some (negsuc 0); attribute = none; duration_minutes = none }
    ∷ []

abbrev file : FileJson
file = parsed (
    some (
      record {
        channel_id = some 9;
        enabled = none;
        weekdays = some (record { weekday = some (pos 2); hours = some two_hours } ∷ []);
      }
      ∷ []))

load_schedule_from_file-AllWeeks_example :
    AllWeeks (load_schedule_from_file midnight by_hand file).0
load_schedule_from_file-AllWeeks_example =
    load_schedule_from_file-AllWeeks midnight by_hand file (ground arith)
