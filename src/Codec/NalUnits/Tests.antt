-- ===== src/Codec/NalUnits/Tests.antt =====
-- Streams and payloads for the theorems on NAL units.
use libnx.Common.{◌≡◌, refl, List, [], ◌∷◌}
use libnx.Rtp.Types.{Bytes}
use libnx.Codec.NalUnits.{
  parse_nal_units, remove_emulation_prevention, find_start_code, start_code_length, take_unit,
  trim_zeros, unit_loop,
}
use libnx.Codec.NalUnits.Emulation.{prevent_emulation, remove-prevent_emulation}
use libnx.Codec.NalUnits.Units.{IsUnit, stream, parse_nal_units-stream}

-- Zeros before a byte that needs protection, and at the end.
abbrev zeros : Bytes
zeros = 7 ∷ 0 ∷ 0 ∷ 1 ∷ 0 ∷ 0 ∷ 0 ∷ []

zeros_protected : prevent_emulation 0 zeros ≡ 7 ∷ 0 ∷ 0 ∷ 3 ∷ 1 ∷ 0 ∷ 0 ∷ 3 ∷ 0 ∷ []
unfolding prevent_emulation
zeros_protected = refl

remove-prevent_emulation_example : remove_emulation_prevention (prevent_emulation 0 zeros) ≡ zeros
remove-prevent_emulation_example = remove-prevent_emulation zeros

abbrev sps_unit : Bytes
sps_unit = 0x67 ∷ 0 ∷ 0 ∷ 3 ∷ []

abbrev idr_unit : Bytes
idr_unit = 0x65 ∷ 0 ∷ 9 ∷ []

abbrev two_units : List Bytes
two_units = sps_unit ∷ idr_unit ∷ []

-- A start code of three bytes, zeros before the next one, and a code with nothing behind it.
mixed_stream :
    parse_nal_units (5 ∷ 0 ∷ 0 ∷ 1 ∷ 0x67 ∷ 8 ∷ 0 ∷ 0 ∷ 0 ∷ 1 ∷ 0x65 ∷ 0 ∷ 0 ∷ 0 ∷ 1 ∷ [])
    ≡ (0x67 ∷ 8 ∷ []) ∷ (0x65 ∷ []) ∷ []
unfolding parse_nal_units find_start_code start_code_length take_unit trim_zeros unit_loop
mixed_stream = refl

sps_unit-IsUnit : IsUnit sps_unit
unfolding start_code_length trim_zeros
sps_unit-IsUnit = record {
  has_bytes = refl;
  code_free = (refl, (refl, (refl, (refl, tt))));
  no_zeros = refl;
}

idr_unit-IsUnit : IsUnit idr_unit
unfolding start_code_length trim_zeros
idr_unit-IsUnit = record {
  has_bytes = refl;
  code_free = (refl, (refl, (refl, tt)));
  no_zeros = refl;
}

parse_nal_units-stream_example : parse_nal_units (stream two_units) ≡ two_units
parse_nal_units-stream_example =
    parse_nal_units-stream two_units (sps_unit-IsUnit, (idr_unit-IsUnit, tt))
