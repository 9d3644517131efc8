-- ===== src/Record/Scheduler/Loading.antt =====
-- The schedules that `load_schedule_from_file` reads, and `parse_attribute_string`. The loop of the
-- latter recurs on fuel; a round takes a character at least, so the length of the text is enough.
use libnx.Common.{
  ℕ, zero, suc, ◌*◌, ◌==◌, Bool, true, false, not, ◌&&◌, ◌||◌, List, [], ◌∷◌, Option, none, some,
  length, ltb, bit_and, if◌then◌else◌,
}
use libnx.Rtp.Types.{Bytes}
use libnx.Rtp.Extension.{is_empty}
use libnx.Record.Scheduler.{
  Now, RecordScheduler, RecordAttributeOption, HourlySchedule, DailySchedule, ChannelSchedule,
  empty_day, no_option, attribute_none, attribute_continuous, attribute_motion, attribute_event,
  attribute_manual, add_enum_flags, remove_enum_flags, set_channel_schedule,
}

-- `negsuc n` is -(n + 1).
pub data ℤ : Type 0 where
  pos : ℕ → ℤ
  negsuc : ℕ → ℤ

pub record HourJson : Type 0 where
  pub hour : Option ℤ
  pub attribute : Option Bytes
  pub duration_minutes : Option ℕ

pub record WeekdayJson : Type 0 where
  pub weekday : Option ℤ
  pub hours : Option (List HourJson)

pub record ChannelJson : Type 0 where
  pub channel_id : Option ℕ
  pub enabled : Option Bool
  pub weekdays : Option (List WeekdayJson)

-- What opening and parsing the file gives: the array "schedules" is `none` where it is missing.
pub data FileJson : Type 0 where
  not_open parse_failed read_failed : FileJson
  parsed : Option (List ChannelJson) → FileJson

pub data LoadResult : Type 0 where
  loaded no_such_file_or_directory invalid_argument io_error : LoadResult

abbrev is_blank : ℕ → Bool
is_blank c = c == 32 || c == 9

-- `erase(0, find_first_not_of(" \t"))`
unfoldable pub trim_start : Bytes → Bytes
trim_start [] = []
trim_start (c ∷ cs) = let rest = trim_start cs in if is_blank c then rest else c ∷ cs

-- `erase(find_last_not_of(" \t") + 1)`
unfoldable pub trim_end : Bytes → Bytes
trim_end [] = []
trim_end (c ∷ cs) = let rest = trim_end cs in if is_blank c && is_empty rest then [] else c ∷ rest

-- The text before the first '|', and the text behind it.
unfoldable pub split_pipe : Bytes → Bytes × Bytes
split_pipe [] = ([], [])
split_pipe (c ∷ cs) =
    let (before, behind) = split_pipe cs in if c == 124 then ([], cs) else (c ∷ before, behind)

unfoldable pub same_text : Bytes → Bytes → Bool
same_text [] [] = true
same_text (a ∷ more) (b ∷ others) = let rest = same_text more others in a == b && rest
same_text _ _ = false

abbrev text_continuous : Bytes
text_continuous = 99 ∷ 111 ∷ 110 ∷ 116 ∷ 105 ∷ 110 ∷ 117 ∷ 111 ∷ 117 ∷ 115 ∷ []

abbrev text_motion : Bytes
text_motion = 109 ∷ 111 ∷ 116 ∷ 105 ∷ 111 ∷ 110 ∷ []

abbrev text_event : Bytes
text_event = 101 ∷ 118 ∷ 101 ∷ 110 ∷ 116 ∷ []

abbrev text_manual : Bytes
text_manual = 109 ∷ 97 ∷ 110 ∷ 117 ∷ 97 ∷ 108 ∷ []

unfoldable pub add_named : ℕ → Bytes → ℕ
add_named result name =
    if same_text name text_continuous
    then add_enum_flags result attribute_continuous
    else if same_text name text_motion
    then add_enum_flags result attribute_motion
    else if same_text name text_event
    then add_enum_flags result attribute_event
    else if same_text name text_manual
    then add_enum_flags result attribute_manual
    else result

unfoldable pub attribute_loop : ℕ → Bytes → ℕ → ℕ
attribute_loop zero remaining result = result
attribute_loop (suc fuel) remaining result =
    let (single_attr, behind) = split_pipe remaining in
    let rest = attribute_loop fuel behind (add_named result (trim_end (trim_start single_attr))) in
    if is_empty remaining then result else rest

unfoldable pub parse_attribute_string : Bytes → ℕ
parse_attribute_string text = attribute_loop (length text) text attribute_none

-- The manual flag is taken out.
abbrev pub attribute_of : Option Bytes → ℕ
attribute_of none = attribute_none
attribute_of (some text) = remove_enum_flags (parse_attribute_string text) attribute_manual

abbrev pub option_of : Option ℕ → RecordAttributeOption
option_of none = no_option
option_of (some n) = record { duration_minutes = n }

-- The loop over the 16 masks: the option is stored for each flag that is set.
unfoldable pub store_options :
    ℕ → ℕ → RecordAttributeOption → List RecordAttributeOption → List RecordAttributeOption
store_options mask attribute option [] = []
store_options mask attribute option (o ∷ os) =
    (if not (bit_and attribute mask == 0) then option else o)
    ∷ store_options (mask * 2) attribute option os

unfoldable pub set_hour : ℕ → RecordAttributeOption → HourlySchedule → HourlySchedule
set_hour attribute option h = record {
  attribute = attribute;
  options =
      if not (attribute == attribute_none)
      then store_options 0x10000 attribute option h.options
      else h.options;
}

-- The element at an index of a `std::array`.
abbrev pub update {ℓ} : {A : Type ℓ} → ℕ → (A → A) → List A → List A
update n f [] = []
update zero f (x ∷ xs) = f x ∷ xs
update (suc n) f (x ∷ xs) = x ∷ update n f xs

-- `hour < 0 || hour >= 24`, or no hour at all, leaves the day as it is.
unfoldable pub read_hour : HourJson → DailySchedule → DailySchedule
read_hour j d = at_hour j.hour
  where
    at_hour : Option ℤ → DailySchedule
    at_hour none = d
    at_hour (some (negsuc n)) = d
    at_hour (some (pos n)) =
        if ltb n 24
        then record d {
          hourly_schedules =
              update n (set_hour (attribute_of j.attribute) (option_of j.duration_minutes))
                d.hourly_schedules;
        }
        else d

abbrev pub listed {ℓ} : {A : Type ℓ} → Option (List A) → List A
listed none = []
listed (some xs) = xs

abbrev pub fold_in {ℓ κ} : {A : Type ℓ} {B : Type κ} → (A → B → B) → List A → B → B
fold_in f [] b = b
fold_in f (a ∷ rest) b = fold_in f rest (f a b)

unfoldable pub read_weekday : WeekdayJson → List DailySchedule → List DailySchedule
read_weekday j days = at_weekday j.weekday
  where
    at_weekday : Option ℤ → List DailySchedule
    at_weekday none = days
    at_weekday (some (negsuc n)) = days
    at_weekday (some (pos n)) =
        if ltb n 7 then update n (fold_in read_hour (listed j.hours)) days else days

abbrev pub empty_week : List DailySchedule
empty_week =
    empty_day 0
    ∷ empty_day 1
    ∷ empty_day 2
    ∷ empty_day 3
    ∷ empty_day 4
    ∷ empty_day 5
    ∷ empty_day 6
    ∷ []

abbrev true_unless : Option Bool → Bool
true_unless none = true
true_unless (some b) = b

unfoldable pub channel_of : ℕ → ChannelJson → ChannelSchedule
channel_of id j = record {
  channel_id = id;
  weekday_schedules = fold_in read_weekday (listed j.weekdays) empty_week;
  enabled = true_unless j.enabled;
}

-- An entry without a channel id is passed over.
unfoldable pub read_channel : Now → ChannelJson → RecordScheduler → RecordScheduler
read_channel now j s = with_id j.channel_id
  where
    with_id : Option ℕ → RecordScheduler
    with_id none = s
    with_id (some id) = set_channel_schedule now s (channel_of id j)

unfoldable pub load_schedule_from_file :
    Now → RecordScheduler → FileJson → RecordScheduler × LoadResult
load_schedule_from_file now s not_open = (s, no_such_file_or_directory)
load_schedule_from_file now s parse_failed = (s, invalid_argument)
load_schedule_from_file now s read_failed = (s, io_error)
load_schedule_from_file now s (parsed none) = (s, invalid_argument)
load_schedule_from_file now s (parsed (some js)) = (fold_in (read_channel now) js s, loaded)
