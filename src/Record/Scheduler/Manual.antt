-- ===== src/Record/Scheduler/Manual.antt =====
-- A schedule that is loaded never has the manual flag, which only a call of `set_attribute` gives.
use libnx.Common.{
  ℕ, zero, suc, ◌-◌, ◌^◌, ◌≡◌, refl, List, [], ◌∷◌, Option, none, some, arith, bit_and, ltb,
  Bool-cases, inl, inr, All, ◌==◌,
}
use libnx.Common.Bits.{bit_and-removed}
use libnx.Rtp.Types.{Bytes}
use libnx.Record.Scheduler.Maps.{Table, find, put}
use libnx.Record.Scheduler.{
  Now, RecordScheduler, HourlySchedule, DailySchedule, ChannelSchedule, set_channel_schedule,
  set_current_attribute, attribute_manual, is_found,
}
use libnx.Record.Scheduler.Loading.{
  ℤ, pos, negsuc, HourJson, WeekdayJson, ChannelJson, FileJson, not_open, parse_failed, read_failed,
  parsed, set_hour, update, read_hour, read_weekday, fold_in, channel_of, read_channel,
  load_schedule_from_file, attribute_of, listed, parse_attribute_string, empty_week,
}

abbrev pub IsHour : HourlySchedule → Type 0
IsHour h = bit_and h.attribute attribute_manual ≡ 0

abbrev pub IsDay : DailySchedule → Type 0
IsDay d = All IsHour d.hourly_schedules

-- No hour of the week has the manual flag.
abbrev pub IsWeek : List DailySchedule → Type 0
IsWeek days = All IsDay days

abbrev pub AllWeeks : RecordScheduler → Type 0
AllWeeks s = All (λ (e : ℕ × ChannelSchedule). IsWeek e.1.weekday_schedules) s.channel_schedules

All-update :
    {A : Type 0} (P : A → Type 0) (n : ℕ) (f : A → A) (xs : List A)
    → ((x : A) → P x → P (f x))
    → All P xs
    → All P (update n f xs)
All-update P n f [] keeps all = tt
All-update P zero f (x ∷ xs) keeps all = (keeps x all.0, all.1)
All-update P (suc n) f (x ∷ xs) keeps all = (all.0, All-update P n f xs keeps all.1)

fold_in-keeps :
    {A B : Type 0} (P : B → Type 0) (f : A → B → B) (xs : List A) (b : B)
    → ((a : A) (b' : B) → P b' → P (f a b'))
    → P b
    → P (fold_in f xs b)
fold_in-keeps P f [] b keeps h = h
fold_in-keeps P f (x ∷ xs) b keeps h = fold_in-keeps P f xs (f x b) keeps (keeps x b h)

attribute_of-IsHour : (text : Option Bytes) → bit_and (attribute_of text) attribute_manual ≡ 0
attribute_of-IsHour none = refl
attribute_of-IsHour (some text) =
    bit_and-removed (parse_attribute_string text) (2 ^ 32 - 1 - 0x80000) 0x80000 refl

read_hour-IsDay : (j : HourJson) (d : DailySchedule) → IsDay d → IsDay (read_hour j d)
unfolding read_hour set_hour
read_hour-IsDay j d h = go j.hour
  where
    go : (hour : Option ℤ) → IsDay (read_hour (record j { hour = hour }) d)
    go none = h
    go (some (negsuc n)) = h
    go (some (pos n)) = elim (Bool-cases (ltb n 24)) [
      | inl inside ↦
          rw inside
            (All-update IsHour n _ d.hourly_schedules (λ x _. attribute_of-IsHour j.attribute) h)
      | inr outside ↦ rw outside h
    ]

read_weekday-IsWeek :
    (j : WeekdayJson) (days : List DailySchedule) → IsWeek days → IsWeek (read_weekday j days)
unfolding read_weekday
read_weekday-IsWeek j days h = go j.weekday
  where
    go : (weekday : Option ℤ) → IsWeek (read_weekday (record j { weekday = weekday }) days)
    go none = h
    go (some (negsuc n)) = h
    go (some (pos n)) = elim (Bool-cases (ltb n 7)) [
      | inl inside ↦ rw inside (
          All-update IsDay n _ days
            (λ d hd. fold_in-keeps IsDay read_hour (listed j.hours) d read_hour-IsDay hd) h)
      | inr outside ↦ rw outside h
    ]

empty_week-IsWeek : IsWeek empty_week
empty_week-IsWeek = ground arith

put-All :
    {A : Type 0} (P : A → Type 0) (id : ℕ) (a : A) (t : Table A)
    → P a
    → All (λ (e : ℕ × A). P e.1) t
    → All (λ (e : ℕ × A). P e.1) (put id a t)
unfolding put
put-All P id a [] h all = (h, tt)
put-All P id a ((k, b) ∷ t) h all = elim (Bool-cases (k == id)) [
  | inl same ↦ rw same (h, all.1)
  | inr other ↦ elim (Bool-cases (ltb id k)) [
    | inl before ↦ rw (other, before) (h, all)
    | inr behind ↦ rw (other, behind) (all.0, put-All P id a t h all.1)
  ]
]

set_channel_schedule-AllWeeks :
    (now : Now) (s : RecordScheduler) (c : ChannelSchedule)
    → IsWeek c.weekday_schedules
    → AllWeeks s
    → AllWeeks (set_channel_schedule now s c)
unfolding set_channel_schedule set_current_attribute
set_channel_schedule-AllWeeks now s c h all =
    let weeks =
      put-All (λ (x : ChannelSchedule). IsWeek x.weekday_schedules) c.channel_id c
        s.channel_schedules h all in
    elim (Bool-cases (is_found (find c.channel_id s.current_attributes))) [
      | inl known ↦ rw known weeks
      | inr fresh ↦ rw fresh weeks
    ]

read_channel-AllWeeks :
    (now : Now) (j : ChannelJson) (s : RecordScheduler)
    → AllWeeks s
    → AllWeeks (read_channel now j s)
unfolding read_channel channel_of
read_channel-AllWeeks now j s all = go j.channel_id
  where
    go : (id : Option ℕ) → AllWeeks (read_channel now (record j { channel_id = id }) s)
    go none = all
    go (some id) =
        set_channel_schedule-AllWeeks now s (channel_of id j)
          (fold_in-keeps IsWeek read_weekday (listed j.weekdays) empty_week read_weekday-IsWeek
            empty_week-IsWeek)
          all

-- Whatever the file holds, load_schedule_from_file leaves a scheduler in which no hour of any schedule
-- has the manual flag, if there was none before.
pub load_schedule_from_file-AllWeeks :
    (now : Now) (s : RecordScheduler) (file : FileJson)
    → AllWeeks s
    → AllWeeks (load_schedule_from_file now s file).0
unfolding load_schedule_from_file
load_schedule_from_file-AllWeeks now s not_open all = all
load_schedule_from_file-AllWeeks now s parse_failed all = all
load_schedule_from_file-AllWeeks now s read_failed all = all
load_schedule_from_file-AllWeeks now s (parsed none) all = all
load_schedule_from_file-AllWeeks now s (parsed (some js)) all =
    fold_in-keeps AllWeeks (read_channel now) js s (read_channel-AllWeeks now) all
