-- ===== src/Codec/Jpeg/Symbols.antt =====
-- What `decode_huffman_symbol` returns stands in the table.
use libnx.Common.{
  ℕ, zero, suc, ◌+◌, ◌-◌, ◌*◌, ◌%◌, ◌^◌, ◌≤◌, ◌<◌, ◌≡◌, refl, [], ◌∷◌, Option, none, some, arith,
  length, get_or, drop, leb, ltb, bit_or, ◌&&◌, All, Bool-cases, inl, inr,
}
use libnx.Rtp.Types.{Bytes}
use libnx.Codec.Jpeg.{JpegBitReader, read_bit, then_on, symbol_loop, decode_huffman_symbol}

-- The number of the codes of a table.
abbrev pub total : Bytes → ℕ
total [] = 0
total (c ∷ cs) = c + total cs

abbrev pub IfSome : (ℕ → Type 0) → Option ℕ → Type 0
IfSome P none = Unit
IfSome P (some n) = P n

total-drop : (cs : Bytes) → get_or cs 0 0 + total (drop 1 cs) ≡ total cs
total-drop [] = omega arith
total-drop (c ∷ cs) = refl

module _ (P : ℕ → Type 0) where
  get_or-All : (xs : Bytes) (i d : ℕ) → i < length xs → All P xs → P (get_or xs i d)
  get_or-All [] i d h all = absurd (omega arith)
  get_or-All (x ∷ xs) zero d h all = all.0
  get_or-All (x ∷ xs) (suc i) d h all = get_or-All xs i d (omega arith) all.1

  then_on-IfSome :
      (r : JpegBitReader × Option ℕ) (f : JpegBitReader → ℕ → JpegBitReader × Option ℕ)
      → ((s : JpegBitReader) (n : ℕ) → IfSome P (f s n).1)
      → IfSome P (then_on r f).1
  then_on-IfSome (r, none) f h = tt
  then_on-IfSome (r, some n) f h = h r n

  symbol_loop-IfSome :
      (left : ℕ) (counts values : Bytes) (code value_idx first_code : ℕ) (r : JpegBitReader)
      → value_idx + total counts ≤ length values
      → All P values
      → IfSome P (symbol_loop left counts values code value_idx first_code r).1
  unfolding symbol_loop
  symbol_loop-IfSome zero counts values code value_idx first_code r h all = tt
  symbol_loop-IfSome (suc left) counts values code value_idx first_code r h all =
      then_on-IfSome (read_bit r) _ λ s bit.
        let code' = bit_or (code * 2) bit % 2 ^ 16 in
        let count = get_or counts 0 0 in
        let sum = total-drop counts in
        elim (Bool-cases (ltb 0 count && leb first_code code' && ltb (code' - first_code) count)) [
          | inl found ↦
              let inside : code' - first_code < count = ground arith in
              rw found (get_or-All values (value_idx + (code' - first_code)) 0 (omega arith) all)
          | inr longer ↦ rw longer (
              symbol_loop-IfSome left (drop 1 counts) values code' (value_idx + count)
                ((first_code + count) * 2 % 2 ^ 16) s (omega arith) all)
        ]

-- Where a table has no more codes than symbols, every symbol that decode_huffman_symbol returns has any
-- property that all symbols of the table have: it never reads behind the table.
pub decode_huffman_symbol-IfSome :
    (P : ℕ → Type 0) (r : JpegBitReader) (bits_counts values : Bytes)
    → total bits_counts ≤ length values
    → All P values
    → IfSome P (decode_huffman_symbol r bits_counts values).1
unfolding decode_huffman_symbol
decode_huffman_symbol-IfSome P r bits_counts values h all =
    symbol_loop-IfSome P 16 bits_counts values 0 0 0 r (omega arith) all
