-- ===== src/Codec/NalUnits.antt =====
-- nxmedia/codec/nal_unit_parser.cpp, the division of an Annex B stream into NAL units, and
-- remove_emulation_prevention of nxmedia/codec/common.cpp. A position is the list of the bytes from it
-- on, and what is found is the number of bytes before it, `none` for `npos`. The loop over the units
-- recurs on fuel; a unit begins behind three bytes at least, so the size of the data is enough.
pub mod Emulation
pub mod Units
mod Tests
use libnx.Common.{
  ℕ, zero, suc, ◌+◌, ◌==◌, Bool, true, false, not, ◌&&◌, ◌||◌, List, [], ◌∷◌, ◌++◌, Option, none,
  some, length, take, drop, leb, ltb, if◌then◌else◌,
}
use libnx.Rtp.Types.{Bytes}
use libnx.Rtp.Extension.{is_empty}

unfoldable pub start_code_length : Bytes → ℕ
start_code_length (a ∷ b ∷ c ∷ d ∷ rest) =
    if a == 0 && b == 0 && c == 0 && d == 1 then 4 else if a == 0 && b == 0 && c == 1 then 3 else 0
start_code_length (a ∷ b ∷ c ∷ []) = if a == 0 && b == 0 && c == 1 then 3 else 0
start_code_length _ = 0

abbrev pub step_on : Option ℕ → Option ℕ
step_on none = none
step_on (some n) = some (suc n)

-- The body of the loop asks for the same bytes as `start_code_length`.
unfoldable pub find_start_code : Bytes → Option ℕ
unfolding start_code_length
find_start_code [] = none
find_start_code (a ∷ rest) =
    let later = find_start_code rest in
    if not (start_code_length (a ∷ rest) == 0) then some 0 else step_on later

-- The loop that takes the zeros off the end.
unfoldable pub trim_zeros : Bytes → Bytes
trim_zeros [] = []
trim_zeros (b ∷ bs) = let rest = trim_zeros bs in if b == 0 && is_empty rest then [] else b ∷ rest

-- `nal_end`, `npos` being the end of the data.
abbrev pub until : Option ℕ → Bytes → Bytes
until none rest = rest
until (some n) rest = take n rest

abbrev pub add_unit : Bytes → List Bytes → List Bytes
add_unit [] units = units
add_unit (b ∷ bs) units = (b ∷ bs) ∷ units

-- `pos = next_pos`, where there is a next one.
abbrev pub on_from {ℓ} : {A : Type ℓ} → Option ℕ → Bytes → A → (Bytes → A) → A
on_from none rest stop go = stop
on_from (some n) rest stop go = go (drop n rest)

-- From `nal_start` on: the unit, and the others from the next start code. The first byte of a unit is
-- its type, so a unit is its bytes.
unfoldable pub take_unit : Bytes → (Bytes → List Bytes) → List Bytes
take_unit rest go =
    let next_pos = find_start_code rest in
    let others = on_from next_pos rest [] go in
    if is_empty rest then [] else add_unit (trim_zeros (until next_pos rest)) others

unfoldable pub unit_loop : ℕ → Bytes → List Bytes
unit_loop zero at_code = []
unit_loop (suc fuel) at_code = take_unit (drop (start_code_length at_code) at_code) (unit_loop fuel)

unfoldable pub parse_nal_units : Bytes → List Bytes
parse_nal_units bytes =
    on_from (if ltb (length bytes) 3 then none else find_start_code bytes) bytes []
      (unit_loop (length bytes))

-- `00 00 03` from here on.
abbrev pub is_emulation : Bytes → Bool
is_emulation (a ∷ b ∷ c ∷ rest) = a == 0 && b == 0 && c == 3
is_emulation _ = false

-- `skip` is how many bytes `i` has still to pass over.
unfoldable pub removal_loop : ℕ → Bytes → Bytes
removal_loop skip [] = []
removal_loop (suc skip) (b ∷ bs) = removal_loop skip bs
removal_loop zero (b ∷ bs) =
    let found = is_emulation (b ∷ bs) in
    let rest = removal_loop (if found then 2 else 0) bs in if found then 0 ∷ 0 ∷ rest else b ∷ rest

unfoldable pub remove_emulation_prevention : Bytes → Bytes
remove_emulation_prevention bytes = removal_loop 0 bytes
