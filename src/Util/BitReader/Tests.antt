-- ===== src/Util/BitReader/Tests.antt =====
-- A byte with an Exp-Golomb code, and one without a one.
use libnx.Common.{◌+◌, ◌-◌, ◌%◌, ◌^◌, ◌≡◌, refl, [], ◌∷◌, take, drop, some, arith}
use libnx.Util.BitReader.{BitReader, construct, read_bits, read_ue}
use libnx.Util.BitReader.Stream.{bits_left, bits_of, value, IsReader, read_bits_lem}
use libnx.Util.BitReader.Golomb.{read_ue-code}

-- 00 1 01 000
abbrev four : BitReader
four = construct (0x28 ∷ [])

abbrev nothing : BitReader
nothing = construct (0 ∷ [])

read_bits_lem_example :
    (r : BitReader) × (read_bits 5 four ≡ (value 0 (take 5 (bits_left four)), r))
    × (bits_left r ≡ drop 5 (bits_left four))
    × IsReader r
read_bits_lem_example = read_bits_lem 5 four (omega arith)

read_ue-code_example :
    (r : BitReader) × (read_ue four ≡ some ((2 ^ 2 - 1 + value 0 (0 ∷ 1 ∷ [])) % 2 ^ 32, r))
    × (bits_left r ≡ 0 ∷ 0 ∷ 0 ∷ [])
    × IsReader r
read_ue-code_example =
    read_ue-code four (0 ∷ 1 ∷ []) (0 ∷ 0 ∷ 0 ∷ []) (omega arith) (unfold bits_left bits_of in refl)
      (omega arith)
