-- ===== src/Record/Scheduler.antt =====
-- RecordScheduler (nxcore/record/record_scheduler.cpp) over the types of nxcore/record/schedule.h and
-- the flag functions of nxcore/util/enum_util.h. A channel id stands as its distance from the lowest
-- `int64_t`, which keeps equality and order. `Now` is what `extract_time_info` reads, and time points
-- count nanoseconds; a call reads the time once. The reserved fields are left out. The JSON library is outside: `HourJson`, `WeekdayJson` and `ChannelJson` hold what
-- its tests and `get` give for each member, `none` where a member is missing or of another type.
pub mod Maps
pub mod Restoring
pub mod Changing
pub mod Loading
pub mod Manual
mod Tests
use libnx.Common.{
  ℕ, zero, suc, ◌+◌, ◌-◌, ◌*◌, ◌^◌, ◌==◌, Bool, true, false, not, ◌&&◌, ◌||◌, List, [], ◌∷◌, ◌++◌,
  map, Option, none, some, length, get_or, take, drop, replicate, ltb, leb, bit_and, bit_or,
  if◌then◌else◌,
}
use libnx.Rtp.Types.{Bytes}
use libnx.Rtp.Extension.{is_empty}
use libnx.Record.Scheduler.Maps.{Table, find, put}

abbrev pub attribute_none : ℕ
attribute_none = 0

abbrev pub attribute_continuous : ℕ
attribute_continuous = 0x10000

abbrev pub attribute_motion : ℕ
attribute_motion = 0x20000

abbrev pub attribute_event : ℕ
attribute_event = 0x40000

abbrev pub attribute_manual : ℕ
attribute_manual = 0x80000

abbrev pub set_enum_bit_or : ℕ → ℕ → ℕ
set_enum_bit_or value flags = bit_or value flags

abbrev pub set_enum_bit_and : ℕ → ℕ → ℕ
set_enum_bit_and value flags = bit_and value flags

-- The complement of a `uint32_t`.
abbrev pub set_enum_bit_not : ℕ → ℕ
set_enum_bit_not value = 2 ^ 32 - 1 - value

abbrev pub add_enum_flags : ℕ → ℕ → ℕ
add_enum_flags value flags = set_enum_bit_or value flags

abbrev pub remove_enum_flags : ℕ → ℕ → ℕ
remove_enum_flags value flags = set_enum_bit_and value (set_enum_bit_not flags)

abbrev pub has_any_flag : ℕ → ℕ → Bool
has_any_flag value flags = not (bit_and value flags == 0)

abbrev pub enum_flags_equal : ℕ → ℕ → Bool
enum_flags_equal value flags = value == flags

pub record RecordAttributeOption : Type 0 where
  pub duration_minutes : ℕ

abbrev pub no_option : RecordAttributeOption
no_option = record { duration_minutes = 0 }

pub record HourlySchedule : Type 0 where
  pub attribute : ℕ
  pub options : List RecordAttributeOption

abbrev pub no_hour : HourlySchedule
no_hour = record { attribute = attribute_none; options = replicate 16 no_option }

pub record DailySchedule : Type 0 where
  pub weekday : ℕ
  pub hourly_schedules : List HourlySchedule

abbrev pub empty_day : ℕ → DailySchedule
empty_day d = record { weekday = d; hourly_schedules = replicate 24 no_hour }

pub record ChannelSchedule : Type 0 where
  pub channel_id : ℕ
  pub weekday_schedules : List DailySchedule
  pub enabled : Bool

pub data ScheduleErrc : Type 0 where
  attribute_not_in_schedule attribute_already_set channel_not_found : ScheduleErrc
  invalid_attribute schedule_not_loaded schedule_parse_error : ScheduleErrc
  schedule_validation_error invalid_weekday invalid_hour : ScheduleErrc

-- `ScheduleErrorCategory::is_retryable`
abbrev pub is_retryable : ScheduleErrc → Bool
is_retryable attribute_not_in_schedule = true
is_retryable schedule_not_loaded = true
is_retryable _ = false

pub record RecordScheduler : Type 0 where
  pub last_checked_time : ℕ
  pub channel_schedules : Table ChannelSchedule
  pub current_attributes : Table ℕ

-- The hour and the weekday of the local time, `none` where the conversion fails.
abbrev pub Now : Type 0
Now = Option (ℕ × ℕ)

abbrev pub extract_time_info : Now → ℕ × ℕ
extract_time_info none = (0, 0)
extract_time_info (some time) = time

-- `weekday_schedules[weekday].hourly_schedules[hour]` at the current time.
unfoldable pub current_hour : Now → ChannelSchedule → HourlySchedule
current_hour now c =
    let (hour, weekday) = extract_time_info now in
    get_or (get_or c.weekday_schedules weekday (empty_day weekday)).hourly_schedules hour no_hour

abbrev pub attribute_at : Now → Option ChannelSchedule → ℕ
attribute_at now none = attribute_none
attribute_at now (some c) = (current_hour now c).attribute

unfoldable pub get_scheduled_attribute : Now → RecordScheduler → ℕ → ℕ
get_scheduled_attribute now s id = attribute_at now (find id s.channel_schedules)

-- The attribute that was found, or kNone.
abbrev pub value_or_none : Option ℕ → ℕ
value_or_none none = attribute_none
value_or_none (some a) = a

unfoldable pub get_current_attribute : RecordScheduler → ℕ → ℕ
get_current_attribute s id = value_or_none (find id s.current_attributes)

abbrev pub get_channel_schedule : RecordScheduler → ℕ → Option ChannelSchedule
get_channel_schedule s id = find id s.channel_schedules

unfoldable pub set_current_attribute : RecordScheduler → ℕ → ℕ → RecordScheduler
set_current_attribute s id attribute = record s {
  current_attributes = put id attribute s.current_attributes;
}

abbrev pub is_found {ℓ} : {A : Type ℓ} → Option A → Bool
is_found none = false
is_found (some a) = true

unfoldable pub set_channel_schedule : Now → RecordScheduler → ChannelSchedule → RecordScheduler
set_channel_schedule now s c =
    let s' : RecordScheduler = record s {
      channel_schedules = put c.channel_id c s.channel_schedules;
    } in
    if is_found (find c.channel_id s.current_attributes)
    then s'
    else set_current_attribute s' c.channel_id (get_scheduled_attribute now s' c.channel_id)

-- The loop over the 16 masks, from `mask` on: the option of the first flag that is set.
unfoldable pub first_option :
    ℕ → ℕ → ℕ → List RecordAttributeOption → RecordAttributeOption → RecordAttributeOption
first_option zero mask attribute options option = option
first_option (suc left) mask attribute options option =
    let later = first_option left (mask * 2) attribute (drop 1 options) option in
    if not (bit_and attribute mask == 0) then get_or options 0 no_option else later

-- Whether the attribute shares a flag with the current hour, and the option that is stored.
abbrev pub in_hour : HourlySchedule → ℕ → Option RecordAttributeOption
in_hour h attribute =
    if has_any_flag h.attribute attribute
    then some (first_option 16 0x10000 attribute h.options no_option)
    else none

abbrev pub in_channel : Now → ℕ → Option ChannelSchedule → Option RecordAttributeOption
in_channel now attribute none = none
in_channel now attribute (some c) = in_hour (current_hour now c) attribute

unfoldable pub is_attribute_in_schedule :
    Now → RecordScheduler → ℕ → ℕ → Option RecordAttributeOption
is_attribute_in_schedule now s id attribute = in_channel now attribute (find id s.channel_schedules)

-- `nx::expected<AttributeChangeSuccess>`
pub data Change : Type 0 where
  changed : ℕ → RecordAttributeOption → Change
  failed : ScheduleErrc → Change

-- The last part of both branches.
unfoldable pub change_attribute :
    RecordScheduler → ℕ → ℕ → RecordAttributeOption → RecordScheduler × Change
change_attribute s id attribute option =
    if get_current_attribute s id == attribute
    then (s, failed attribute_already_set)
    else (set_current_attribute s id attribute, changed attribute option)

unfoldable pub change_scheduled :
    RecordScheduler → ℕ → ℕ → Option RecordAttributeOption → RecordScheduler × Change
change_scheduled s id attribute none = (s, failed attribute_not_in_schedule)
change_scheduled s id attribute (some option) = change_attribute s id attribute option

unfoldable pub set_attribute : Now → RecordScheduler → ℕ → ℕ → RecordScheduler × Change
set_attribute now s id attribute =
    if bit_and attribute attribute_manual == attribute_none
    then (if not (is_found (find id s.channel_schedules))
        then (s, failed channel_not_found)
        else change_scheduled s id attribute (is_attribute_in_schedule now s id attribute))
    else change_attribute s id attribute no_option

-- Nanoseconds in an hour.
abbrev pub one_hour : ℕ
one_hour = 3600000000000

unfoldable pub check_time_changed : ℕ → RecordScheduler → RecordScheduler × Bool
check_time_changed now s = (
  record s { last_checked_time = now },
  ltb now s.last_checked_time || ltb one_hour (now - s.last_checked_time),
)

-- The attribute of the current hour, and the manual flag as it is.
abbrev pub restored : Now → RecordScheduler → ℕ → ℕ → ℕ
restored now s id current =
    set_enum_bit_or (get_scheduled_attribute now s id) (set_enum_bit_and current attribute_manual)

-- The loop over the current attributes: the entries after it, and the channels that changed.
unfoldable pub restore_loop : Now → RecordScheduler → Table ℕ → Table ℕ × List ℕ
restore_loop now s [] = ([], [])
restore_loop now s ((id, current) ∷ t) =
    let (t', changed_channels) = restore_loop now s t in
    let new = restored now s id current in
    if not (enum_flags_equal new current)
    then ((id, new) ∷ t', id ∷ changed_channels)
    else ((id, current) ∷ t', changed_channels)

unfoldable pub on_hourly_schedule_change : Now → RecordScheduler → RecordScheduler × List ℕ
on_hourly_schedule_change now s =
    let (t, changed_channels) = restore_loop now s s.current_attributes in
    (record s { current_attributes = t }, changed_channels)
