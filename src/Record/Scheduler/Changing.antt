-- ===== src/Record/Scheduler/Changing.antt =====
-- What `set_attribute` does, success and failure.
use libnx.Common.{
  ℕ, ◌≡◌, refl, ap, ◌==◌, true, false, Option, none, some, bit_and, Bool-cases, inl, inr,
}
use libnx.Record.Scheduler.Maps.{find, find-put, find-put_other}
use libnx.Record.Scheduler.{
  Now, RecordScheduler, RecordAttributeOption, Change, changed, failed, set_attribute,
  change_attribute, change_scheduled, set_current_attribute, get_current_attribute,
  get_scheduled_attribute, is_attribute_in_schedule, attribute_at, current_hour, has_any_flag,
  attribute_manual, attribute_none, no_option, is_found, value_or_none, in_channel, ChannelSchedule,
}

-- The channel `id` now has `attribute`; the others and the schedules are as they were.
pub record IsChanged (s : RecordScheduler) (id attribute : ℕ) (s' : RecordScheduler) : Type 0 where
  pub now_set : get_current_attribute s' id ≡ attribute
  pub was_other : get_current_attribute s id == attribute ≡ false
  pub others_kept :
      (other : ℕ)
      → other == id ≡ false
      → get_current_attribute s' other ≡ get_current_attribute s other
  pub schedules_kept : s'.channel_schedules ≡ s.channel_schedules

-- A change that fails leaves the state as it was.
abbrev pub SetsOrKeeps : RecordScheduler → ℕ → ℕ → RecordScheduler × Change → Type 0
SetsOrKeeps s id attribute (s', changed a option) = (a ≡ attribute) × IsChanged s id attribute s'
SetsOrKeeps s id attribute (s', failed e) = s' ≡ s

-- A change without the manual flag is one that the current hour of the schedule has a flag of.
abbrev pub IsAllowed : ℕ → ℕ → Change → Type 0
IsAllowed scheduled attribute (changed a option) =
    bit_and attribute attribute_manual == 0 ≡ true → has_any_flag scheduled attribute ≡ true
IsAllowed scheduled attribute (failed e) = Unit

set_current_attribute-IsChanged :
    (s : RecordScheduler) (id attribute : ℕ)
    → get_current_attribute s id == attribute ≡ false
    → IsChanged s id attribute (set_current_attribute s id attribute)
unfolding set_current_attribute get_current_attribute
set_current_attribute-IsChanged s id attribute h = record {
  now_set = ap value_or_none (find-put id attribute s.current_attributes);
  was_other = h;
  others_kept = λ other apart.
      ap value_or_none (find-put_other id other attribute s.current_attributes apart);
  schedules_kept = refl;
}

change_attribute-SetsOrKeeps :
    (s : RecordScheduler) (id attribute : ℕ) (option : RecordAttributeOption)
    → SetsOrKeeps s id attribute (change_attribute s id attribute option)
unfolding change_attribute
change_attribute-SetsOrKeeps s id attribute option =
    elim (Bool-cases (get_current_attribute s id == attribute)) [
      | inl same ↦ rw same refl
      | inr other ↦ rw other (refl, set_current_attribute-IsChanged s id attribute other)
    ]

change_scheduled-SetsOrKeeps :
    (s : RecordScheduler) (id attribute : ℕ) (option : Option RecordAttributeOption)
    → SetsOrKeeps s id attribute (change_scheduled s id attribute option)
unfolding change_scheduled
change_scheduled-SetsOrKeeps s id attribute none = refl
change_scheduled-SetsOrKeeps s id attribute (some option) =
    change_attribute-SetsOrKeeps s id attribute option

-- For any state, channel and attribute, set_attribute sets the attribute of this channel, which had
-- another, and nothing else, or fails and leaves the state as it was.
pub set_attribute-SetsOrKeeps :
    (now : Now) (s : RecordScheduler) (id attribute : ℕ)
    → SetsOrKeeps s id attribute (set_attribute now s id attribute)
unfolding set_attribute
set_attribute-SetsOrKeeps now s id attribute =
    elim (Bool-cases (bit_and attribute attribute_manual == attribute_none)) [
      | inl scheduled ↦ elim (Bool-cases (is_found (find id s.channel_schedules))) [
        | inl known ↦
            rw (scheduled, known)
              (change_scheduled-SetsOrKeeps s id attribute
                (is_attribute_in_schedule now s id attribute))
        | inr unknown ↦ rw (scheduled, unknown) refl
      ]
      | inr manual ↦ rw manual (change_attribute-SetsOrKeeps s id attribute no_option)
    ]

change_attribute-IsAllowed :
    (s : RecordScheduler) (id attribute scheduled : ℕ) (option : RecordAttributeOption)
    → (bit_and attribute attribute_manual == 0 ≡ true → has_any_flag scheduled attribute ≡ true)
    → IsAllowed scheduled attribute (change_attribute s id attribute option).1
unfolding change_attribute
change_attribute-IsAllowed s id attribute scheduled option h =
    elim (Bool-cases (get_current_attribute s id == attribute)) [
      | inl same ↦ rw same tt
      | inr other ↦ rw other h
    ]

in_channel-IsAllowed :
    (now : Now) (s : RecordScheduler) (id attribute : ℕ) (c : Option ChannelSchedule)
    → IsAllowed
        (attribute_at now c)
        attribute
        (change_scheduled s id attribute (in_channel now attribute c)).1
unfolding change_scheduled
in_channel-IsAllowed now s id attribute none = tt
in_channel-IsAllowed now s id attribute (some c) =
    elim (Bool-cases (has_any_flag (current_hour now c).attribute attribute)) [
      | inl shared ↦
          rw shared
            (change_attribute-IsAllowed s id attribute (current_hour now c).attribute _ λ _. shared)
      | inr apart ↦ rw apart tt
    ]

-- Where set_attribute succeeds without the manual flag, the schedule of the channel has a flag of the
-- attribute at the current hour.
pub set_attribute-IsAllowed :
    (now : Now) (s : RecordScheduler) (id attribute : ℕ)
    → IsAllowed (get_scheduled_attribute now s id) attribute (set_attribute now s id attribute).1
unfolding set_attribute get_scheduled_attribute is_attribute_in_schedule
set_attribute-IsAllowed now s id attribute =
    elim (Bool-cases (bit_and attribute attribute_manual == attribute_none)) [
      | inl scheduled ↦ elim (Bool-cases (is_found (find id s.channel_schedules))) [
        | inl known ↦
            rw (scheduled, known)
              (in_channel-IsAllowed now s id attribute (find id s.channel_schedules))
        | inr unknown ↦ rw (scheduled, unknown) tt
      ]
      | inr manual ↦ rw manual (
          change_attribute-IsAllowed s id attribute _ no_option λ scheduled. cc (manual, scheduled))
    ]
