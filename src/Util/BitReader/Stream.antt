-- ===== src/Util/BitReader/Stream.antt =====
-- The reader as a list of bits, most significant first.
use libnx.Common.{
  ℕ, zero, suc, ◌+◌, ◌-◌, ◌*◌, ◌/◌, ◌%◌, ◌^◌, ◌≤◌, ◌<◌, ◌==◌, ◌≡◌, refl, ap, ◌∙◌, [], ◌∷◌, ◌++◌,
  arith, length, get_or, take, drop, drop_all, leb, bit_and, bit_or, Bool-cases, inl, inr,
}
use libnx.Common.Bits.{bit_or-fields, bit_and-mask}
use libnx.Rtp.Types.{Bytes}
use libnx.Util.BitReader.{BitReader, advance_bit, current_bit, read_loop, read_bits}

abbrev byte_bits : ℕ → Bytes
byte_bits b =
    b / 2 ^ 7 % 2
    ∷ b / 2 ^ 6 % 2
    ∷ b / 2 ^ 5 % 2
    ∷ b / 2 ^ 4 % 2
    ∷ b / 2 ^ 3 % 2
    ∷ b / 2 ^ 2 % 2
    ∷ b / 2 % 2
    ∷ b % 2
    ∷ []

unfoldable pub bits_of : Bytes → Bytes
bits_of [] = []
bits_of (b ∷ bs) = byte_bits b ++ bits_of bs

-- What is still to be read.
unfoldable pub bits_left : BitReader → Bytes
bits_left r = drop (r.byte_offset * 8 + r.bit_offset) (bits_of r.bytes)

-- The number that bits stand for, behind `acc`, in 32 bits.
unfoldable pub value : ℕ → Bytes → ℕ
value acc [] = acc
value acc (b ∷ bs) = value ((acc * 2 + b) % 2 ^ 32) bs

abbrev pub IsReader : BitReader → Type 0
IsReader r = r.bit_offset < 8

length-bits_of : (bs : Bytes) → length (bits_of bs) ≡ length bs * 8
unfolding bits_of
length-bits_of [] = refl
length-bits_of (b ∷ bs) = omega (arith, length-bits_of bs)

first_bit :
    (b o : ℕ) (bs : Bytes)
    → o < 8
    → drop o (bits_of (b ∷ bs)) ≡ b / 2 ^ (7 - o) % 2 ∷ drop (suc o) (bits_of (b ∷ bs))
unfolding bits_of
first_bit b zero bs h = refl
first_bit b (suc zero) bs h = refl
first_bit b (suc (suc zero)) bs h = refl
first_bit b (suc (suc (suc zero))) bs h = refl
first_bit b (suc (suc (suc (suc zero)))) bs h = refl
first_bit b (suc (suc (suc (suc (suc zero))))) bs h = refl
first_bit b (suc (suc (suc (suc (suc (suc zero)))))) bs h = refl
first_bit b (suc (suc (suc (suc (suc (suc (suc zero))))))) bs h =
    ap (λ (x : ℕ). x ∷ bits_of bs) (omega arith)
first_bit b (suc (suc (suc (suc (suc (suc (suc (suc o)))))))) bs h = absurd (omega arith)

abbrev past : ℕ → ℕ
past n = suc (suc (suc (suc (suc (suc (suc (suc n)))))))

skip_byte : (b n : ℕ) (bs : Bytes) → drop (past n) (bits_of (b ∷ bs)) ≡ drop n (bits_of bs)
unfolding bits_of
skip_byte b n bs = refl

bit_here :
    (bs : Bytes) (k o : ℕ)
    → o < 8
    → k < length bs
    → drop (k * 8 + o) (bits_of bs)
      ≡ get_or bs k 0 / 2 ^ (7 - o) % 2 ∷ drop (suc (k * 8 + o)) (bits_of bs)
bit_here [] k o h small = absurd (omega arith)
bit_here (b ∷ bs) zero o h small =
    let here : 0 * 8 + o ≡ o = omega arith in rw here (first_bit b o bs h)
bit_here (b ∷ bs) (suc k) o h small =
    let there : suc k * 8 + o ≡ past (k * 8 + o) = omega arith in
    rw (there, skip_byte b (k * 8 + o) bs, skip_byte b (suc (k * 8 + o)) bs)
      (bit_here bs k o h (omega arith))

advanced :
    (r : BitReader)
    → drop (suc (r.byte_offset * 8 + r.bit_offset)) (bits_of r.bytes) ≡ bits_left (advance_bit r)
unfolding bits_left advance_bit
advanced r = elim (Bool-cases (r.bit_offset + 1 == 8)) [
  | inl e ↦
      let same : suc (r.byte_offset * 8 + r.bit_offset) ≡ (r.byte_offset + 1) * 8 + 0 =
        ground arith in
      rw (e, same) refl
  | inr e ↦
      let same : suc (r.byte_offset * 8 + r.bit_offset) ≡ r.byte_offset * 8 + (r.bit_offset + 1) =
        omega arith in
      rw (e, same) refl
]

next_value :
    (acc x : ℕ) → bit_or (acc * 2 % 2 ^ 32) (bit_and x 1) ≡ (acc * 2 + bit_and x 1) % 2 ^ 32
next_value acc x =
    let small : bit_and x 1 ≡ x % 2 ^ 1 = bit_and-mask 1 x in
    let shifted : acc * 2 % 2 ^ 32 ≡ acc % 2 ^ 31 * 2 ^ 1 = omega arith in
    rw (small, shifted) (bit_or-fields 1 (acc % 2 ^ 31) (x % 2 ^ 1) (omega arith) ∙ omega arith)

-- While a byte is left, the current bit stands in front of what `advance_bit` leaves.
pub bits_left-more :
    (r : BitReader)
    → IsReader r
    → r.byte_offset < length r.bytes
    → bits_left r ≡ current_bit r ∷ bits_left (advance_bit r)
unfolding bits_left advance_bit
bits_left-more r v more =
    rw (bit_and-mask 1 (get_or r.bytes r.byte_offset 0 / 2 ^ (7 - r.bit_offset))) (
      bit_here r.bytes r.byte_offset r.bit_offset v more
      ∙ ap (λ (rest : Bytes). get_or r.bytes r.byte_offset 0 / 2 ^ (7 - r.bit_offset) % 2 ∷ rest)
          (advanced r))

pub bits_left-end : (r : BitReader) → length r.bytes ≤ r.byte_offset → bits_left r ≡ []
unfolding bits_left
bits_left-end r h =
    drop_all (bits_of r.bytes) (r.byte_offset * 8 + r.bit_offset)
      (omega (arith, length-bits_of r.bytes))

pub advance_bit-IsReader : (r : BitReader) → IsReader r → IsReader (advance_bit r)
unfolding advance_bit
advance_bit-IsReader r v = ground arith

pub read_loop_lem :
    (count : ℕ) (r : BitReader) (acc : ℕ)
    → IsReader r
    → (r' : BitReader) × (read_loop count r acc ≡ (value acc (take count (bits_left r)), r'))
      × (bits_left r' ≡ drop count (bits_left r))
      × IsReader r'
unfolding read_loop value
read_loop_lem zero r acc v = (r, refl, refl, v)
read_loop_lem (suc count) r acc v = elim (Bool-cases (leb (length r.bytes) r.byte_offset)) [
  | inl over ↦
      let nothing = bits_left-end r (ground arith) in rw (over, nothing) (r, refl, nothing, v)
  | inr more ↦
      let split = bits_left-more r v (ground arith) in
      let (r', read, left, v') =
        read_loop_lem count (advance_bit r) (bit_or (acc * 2 % 2 ^ 32) (current_bit r))
          (advance_bit-IsReader r v) in
      rw (more, split, read)
        (
          r',
          ap (λ (n : ℕ). (value n (take count (bits_left (advance_bit r))), r')) (next_value acc _),
          left,
          v',
        )
]

-- `read_bits` takes bits off the front of what is left, as many as asked for or as there are, and
-- returns the number they stand for, in 32 bits.
pub read_bits_lem :
    (count : ℕ) (r : BitReader)
    → IsReader r
    → (r' : BitReader) × (read_bits count r ≡ (value 0 (take count (bits_left r)), r'))
      × (bits_left r' ≡ drop count (bits_left r))
      × IsReader r'
unfolding read_bits
read_bits_lem count r v = read_loop_lem count r 0 v
