-- ===== src/Util/BitReader.antt =====
-- BitReader (nxcore/util/bit_util.h). Counts and results are `uint32_t`; `none` is the shift
-- `1u << 32` of `read_ue`, which C++ leaves undefined. Its loop reads 33 bits at most, its fuel.
pub mod Stream
pub mod Golomb
mod Tests
use libnx.Common.{
  ℕ, zero, suc, ◌+◌, ◌-◌, ◌*◌, ◌/◌, ◌%◌, ◌^◌, ◌==◌, Bool, true, false, ◌&&◌, Option, none, some,
  length, get_or, leb, ltb, bit_and, bit_or, if◌then◌else◌,
}
use libnx.Rtp.Types.{Bytes}

-- The member `m_data` is called `bytes` here.
pub record BitReader : Type 0 where
  pub bytes : Bytes
  pub byte_offset : ℕ
  pub bit_offset : ℕ

abbrev pub construct : Bytes → BitReader
construct bytes = record { bytes = bytes; byte_offset = 0; bit_offset = 0 }

unfoldable pub advance_bit : BitReader → BitReader
advance_bit r =
    if r.bit_offset + 1 == 8
    then record r { bit_offset = 0; byte_offset = r.byte_offset + 1 }
    else record r { bit_offset = r.bit_offset + 1 }

-- `(m_data[m_byte_offset] >> (7 - m_bit_offset)) & 1`
abbrev pub current_bit : BitReader → ℕ
current_bit r = bit_and (get_or r.bytes r.byte_offset 0 / 2 ^ (7 - r.bit_offset)) 1

unfoldable pub read_loop : ℕ → BitReader → ℕ → ℕ × BitReader
read_loop zero r result = (result, r)
read_loop (suc count) r result =
    let rest = read_loop count (advance_bit r) (bit_or (result * 2 % 2 ^ 32) (current_bit r)) in
    if leb (length r.bytes) r.byte_offset then (result, r) else rest

unfoldable pub read_bits : ℕ → BitReader → ℕ × BitReader
read_bits count r = read_loop count r 0

unfoldable pub read_bit : BitReader → ℕ × BitReader
read_bit r = read_bits 1 r

-- `while (read_bit() == 0 && leading_zeros < 32) { ++leading_zeros; }`
unfoldable pub zeros_loop : ℕ → BitReader → ℕ → ℕ × BitReader
zeros_loop zero r leading_zeros = (leading_zeros, r)
zeros_loop (suc fuel) r leading_zeros =
    let (bit, r') = read_bit r in
    let rest = zeros_loop fuel r' (leading_zeros + 1) in
    if (bit == 0) && ltb leading_zeros 32 then rest else (leading_zeros, r')

unfoldable pub read_ue : BitReader → Option (ℕ × BitReader)
read_ue r =
    let (leading_zeros, r') = zeros_loop 33 r 0 in
    let (value, r'') = read_bits leading_zeros r' in
    if leading_zeros == 0
    then some (0, r')
    else if leading_zeros == 32
    then none
    else some ((2 ^ leading_zeros - 1 + value) % 2 ^ 32, r'')

-- `int32_t`.
pub data ℤ : Type 0 where
  pos : ℕ → ℤ
  negsuc : ℕ → ℤ

abbrev pub negated : ℕ → ℤ
negated zero = pos 0
negated (suc n) = negsuc n

unfoldable pub signed : ℕ → ℤ
signed code = if code % 2 == 0 then negated (code / 2) else pos ((code + 1) % 2 ^ 32 / 2)

unfoldable pub read_se : BitReader → Option (ℤ × BitReader)
read_se r = elim (read_ue r) [ none ↦ none | some (code, r') ↦ some (signed code, r') ]

unfoldable pub skip_bits : ℕ → BitReader → BitReader
skip_bits zero r = r
skip_bits (suc count) r = skip_bits count (advance_bit r)

unfoldable pub has_more_data : BitReader → Bool
has_more_data r = ltb r.byte_offset (length r.bytes)
