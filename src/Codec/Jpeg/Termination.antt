-- ===== src/Codec/Jpeg/Termination.antt =====
-- The fuel of the loops is enough.
use libnx.Common.{
  ℕ, zero, suc, ◌+◌, ◌/◌, ◌%◌, ◌≤◌, ◌<◌, ◌≡◌, refl, sym, ◌∙◌, Bool, true, false, [], ◌∷◌, Option,
  none, some, arith, subst, length, length-drop, drop, ltb, bit_and,
}
use libnx.Rtp.Types.{Bytes}
use libnx.Codec.Jpeg.{
  JpegFrameInfo, Round, ends, continues, after, round, read_marker, read_segment, skip_padding,
  marker_loop, parse_jpeg_frame_info, word_at, JpegBitReader, BlockRound, block_ends, counts_to,
  block_on, unless_cut, ac_round, ac_symbol, ac_loop, decode_huffman_symbol, skip_value,
}

-- A round that goes on leaves fewer bytes than `n`.
abbrev Leaves : ℕ → Round → Type 0
Leaves n (ends info) = Unit
Leaves n (continues rest) = length rest < n

Leaves-segment :
    (n marker : ℕ) (segment : Bytes) → length segment < n → Leaves n (read_segment marker segment)
unfolding read_segment
Leaves-segment n marker segment h =
    let fewer : length (drop (word_at segment 0) segment) < n =
      omega (arith, length-drop (word_at segment 0) segment) in
    ground (arith, fewer)

Leaves-marker : (n : ℕ) (bytes : Bytes) → length bytes ≤ n → Leaves n (read_marker bytes)
unfolding read_marker
Leaves-marker n [] h = tt
Leaves-marker n (a ∷ []) h = tt
Leaves-marker n (a ∷ marker ∷ rest) h =
    let fewer : length rest < n = omega arith in
    let segment = Leaves-segment n marker rest fewer in ground (arith, fewer, segment)

length-skip_padding : (bytes : Bytes) → length (skip_padding bytes) ≤ length bytes
unfolding skip_padding
length-skip_padding [] = omega arith
length-skip_padding (a ∷ []) = omega arith
length-skip_padding (a ∷ b ∷ rest) = ground (arith, length-skip_padding (b ∷ rest))

Leaves-round : (bytes : Bytes) → Leaves (length bytes) (round bytes)
unfolding round
Leaves-round [] = tt
Leaves-round (a ∷ []) = tt
Leaves-round (a ∷ b ∷ rest) =
    let marker =
      Leaves-marker (suc (suc (length rest))) (skip_padding (a ∷ b ∷ rest))
        (length-skip_padding (a ∷ b ∷ rest)) in
    ground (arith, marker)

after-eq :
    (r : Round) (n : ℕ) (f g : Bytes → Option JpegFrameInfo)
    → Leaves n r
    → ((rest : Bytes) → length rest < n → f rest ≡ g rest)
    → after r f ≡ after r g
after-eq (ends info) n f g h same = refl
after-eq (continues rest) n f g h same = same rest h

-- Any fuel from the number of bytes on gives the same result, so the loop never stops for lack of it.
marker_loop-fuel :
    (fuel more : ℕ) (bytes : Bytes)
    → length bytes ≤ fuel
    → length bytes ≤ more
    → marker_loop fuel bytes ≡ marker_loop more bytes
unfolding marker_loop round
marker_loop-fuel zero zero bytes h k = refl
marker_loop-fuel zero (suc more) [] h k = refl
marker_loop-fuel zero (suc more) (a ∷ bytes) h k = absurd (omega arith)
marker_loop-fuel (suc fuel) zero [] h k = refl
marker_loop-fuel (suc fuel) zero (a ∷ bytes) h k = absurd (omega arith)
marker_loop-fuel (suc fuel) (suc more) bytes h k =
    after-eq (round bytes) (length bytes) (marker_loop fuel) (marker_loop more) (Leaves-round bytes)
      λ rest l. marker_loop-fuel fuel more rest (omega arith) (omega arith)

-- The rounds from these bytes on come to an end, with this result. There is no fuel: the derivation has
-- a step for each round.
pub data Searches : Bytes → Option JpegFrameInfo → Type 0 where
  here :
      {bytes : Bytes} (result : Option JpegFrameInfo)
      → round bytes ≡ ends result
      → Searches bytes result
  further :
      {bytes : Bytes} {result : Option JpegFrameInfo} (rest : Bytes)
      → round bytes ≡ continues rest
      → Searches rest result
      → Searches bytes result

after-Searches :
    (bytes : Bytes) (r : Round) (search : Bytes → Option JpegFrameInfo)
    → round bytes ≡ r
    → ((rest : Bytes) → length rest < length bytes → Searches rest (search rest))
    → Searches bytes (after r search)
after-Searches bytes (ends result) search e later = here result e
after-Searches bytes (continues rest) search e later =
    let fewer = subst (Leaves (length bytes)) e (Leaves-round bytes) in
    further rest e (later rest fewer)

marker_loop-Searches :
    (fuel : ℕ) (bytes : Bytes) → length bytes ≤ fuel → Searches bytes (marker_loop fuel bytes)
unfolding marker_loop round
marker_loop-Searches zero [] h = here {bytes = []} none refl
marker_loop-Searches zero (a ∷ bytes) h = absurd (omega arith)
marker_loop-Searches (suc fuel) bytes h =
    after-Searches bytes (round bytes) (marker_loop fuel) refl
      λ rest l. marker_loop-Searches fuel rest (omega arith)

-- The loop of parse_jpeg_frame_info ends for all data of four bytes at least: its rounds, taken one
-- after the other from the start of the data, come to an end after finitely many, and the result is
-- that of the last.
pub parse_jpeg_frame_info-Searches :
    (bytes : Bytes) → 4 ≤ length bytes → Searches bytes (parse_jpeg_frame_info bytes)
unfolding parse_jpeg_frame_info
parse_jpeg_frame_info-Searches bytes long =
    let enough : ltb (length bytes) 4 ≡ false = ground arith in
    rw enough (marker_loop-Searches (length bytes) bytes (omega arith))

-- A round that goes on counts beyond `n`.
abbrev Counts : ℕ → BlockRound → Type 0
Counts n (block_ends ok) = Unit
Counts n (counts_to n') = n < n'

unless_cut-Counts : (n m : ℕ) (r : JpegBitReader × Bool) → n < m → Counts n (unless_cut m r).1
unless_cut-Counts n m (r, true) h = h
unless_cut-Counts n m (r, false) h = tt

Counts-symbol : (n : ℕ) (r : JpegBitReader × Option ℕ) → Counts n (ac_symbol n r).1
unfolding ac_symbol
Counts-symbol n (r, none) = tt
Counts-symbol n (r, some symbol) =
    let more : n < n + (symbol / 16 % 16 + 1) = omega arith in
    let value =
      unless_cut-Counts n (n + (symbol / 16 % 16 + 1)) (skip_value (bit_and symbol 15) r) more in
    ground (arith, value)

Counts-round :
    (bits values : Bytes) (n : ℕ) (r : JpegBitReader) → Counts n (ac_round bits values n r).1
unfolding ac_round
Counts-round bits values n r = ground (arith, Counts-symbol n (decode_huffman_symbol r bits values))

block_on-eq :
    (r : JpegBitReader × BlockRound) (n : ℕ) (f g : ℕ → JpegBitReader → JpegBitReader × Bool)
    → Counts n r.1
    → ((n' : ℕ) (s : JpegBitReader) → n < n' → f n' s ≡ g n' s)
    → block_on r f ≡ block_on r g
block_on-eq (s, block_ends ok) n f g h same = refl
block_on-eq (s, counts_to n') n f g h same = same n' s h

at_end :
    (fuel : ℕ) (bits values : Bytes) (n : ℕ) (r : JpegBitReader)
    → 63 ≤ n
    → ac_loop fuel bits values n r ≡ (r, true)
unfolding ac_loop ac_round
at_end zero bits values n r h = refl
at_end (suc fuel) bits values n r h = let done : ltb n 63 ≡ false = ground arith in rw done refl

-- The loop over the AC coefficients of a block gives the same result for any fuel that brings the count
-- to 63, so 63 rounds from the count 0 are enough.
ac_loop-fuel :
    (fuel more : ℕ) (bits values : Bytes) (ac_count : ℕ) (r : JpegBitReader)
    → 63 ≤ ac_count + fuel
    → 63 ≤ ac_count + more
    → ac_loop fuel bits values ac_count r ≡ ac_loop more bits values ac_count r
unfolding ac_loop
ac_loop-fuel zero more bits values n r h k =
    at_end zero bits values n r (omega arith) ∙ sym (at_end more bits values n r (omega arith))
ac_loop-fuel (suc fuel) zero bits values n r h k =
    at_end (suc fuel) bits values n r (omega arith)
    ∙ sym (at_end zero bits values n r (omega arith))
ac_loop-fuel (suc fuel) (suc more) bits values n r h k =
    block_on-eq (ac_round bits values n r) n (ac_loop fuel bits values) (ac_loop more bits values)
      (Counts-round bits values n r)
      λ n' s l. ac_loop-fuel fuel more bits values n' s (omega arith) (omega arith)
