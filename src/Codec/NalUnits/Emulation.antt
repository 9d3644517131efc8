-- ===== src/Codec/NalUnits/Emulation.antt =====
-- The bytes that an encoder puts in against start codes (H.264, 7.4.1), and their removal.
use libnx.Common.{
  ℕ, zero, suc, ◌==◌, ◌≤◌, ◌≡◌, refl, ap, ◌∙◌, true, false, [], ◌∷◌, arith, length, leb,
  if◌then◌else◌, Bool-cases, inl, inr,
}
use libnx.Rtp.Types.{Bytes}
use libnx.Codec.NalUnits.{is_emulation, removal_loop, remove_emulation_prevention}

-- `count` counts the zeros that were written last, up to 2: a byte of 3 at most behind two of them gets
-- a 3 in front.
unfoldable pub prevent_emulation : ℕ → Bytes → Bytes
prevent_emulation count [] = []
prevent_emulation zero (b ∷ bs) = b ∷ prevent_emulation (if b == 0 then 1 else 0) bs
prevent_emulation (suc zero) (b ∷ bs) = b ∷ prevent_emulation (if b == 0 then 2 else 0) bs
prevent_emulation (suc (suc count)) (b ∷ bs) =
    let rest = prevent_emulation (if b == 0 then 1 else 0) bs in
    if leb b 3 then 3 ∷ b ∷ rest else b ∷ rest

kept :
    (b : ℕ) (bs : Bytes)
    → is_emulation (b ∷ bs) ≡ false
    → removal_loop 0 (b ∷ bs) ≡ b ∷ removal_loop 0 bs
unfolding removal_loop
kept b bs h = rw h refl

not_zero : (b : ℕ) (bs : Bytes) → b == 0 ≡ false → is_emulation (b ∷ bs) ≡ false
not_zero b [] h = refl
not_zero b (c ∷ []) h = refl
not_zero b (c ∷ d ∷ bs) h = rw h refl

not_zeros : (b c : ℕ) (bs : Bytes) → c == 0 ≡ false → is_emulation (b ∷ c ∷ bs) ≡ false
not_zeros b c [] h = refl
not_zeros b c (d ∷ bs) h = ground arith

not_three : (d : ℕ) (bs : Bytes) → leb d 3 ≡ false → is_emulation (0 ∷ 0 ∷ d ∷ bs) ≡ false
not_three d bs h = ground arith

behind_zeros_low :
    (d : ℕ) (ds : Bytes)
    → leb d 3 ≡ true
    → prevent_emulation 2 (d ∷ ds) ≡ 3 ∷ prevent_emulation 0 (d ∷ ds)
unfolding prevent_emulation
behind_zeros_low d ds low = rw low refl

behind_zeros_high :
    (d : ℕ) (ds : Bytes)
    → leb d 3 ≡ false
    → prevent_emulation 2 (d ∷ ds) ≡ d ∷ prevent_emulation 0 ds
unfolding prevent_emulation
behind_zeros_high d ds high = let apart : d == 0 ≡ false = ground arith in rw (high, apart) refl

behind_other :
    (b : ℕ) (bs : Bytes)
    → b == 0 ≡ false
    → prevent_emulation 0 (b ∷ bs) ≡ b ∷ prevent_emulation 0 bs
unfolding prevent_emulation
behind_other b bs apart = rw apart refl

behind_zero :
    (b : ℕ) (bs : Bytes)
    → b == 0 ≡ false
    → prevent_emulation 1 (b ∷ bs) ≡ b ∷ prevent_emulation 0 bs
unfolding prevent_emulation
behind_zero b bs apart = rw apart refl

removed : (bs : Bytes) → removal_loop 0 (prevent_emulation 0 bs) ≡ bs
unfolding prevent_emulation removal_loop
removed [] = refl
removed (suc b ∷ bs) =
    let apart : suc b == 0 ≡ false = ground arith in
    ap (λ t. removal_loop 0 t) (behind_other (suc b) bs apart)
    ∙ kept (suc b) _ (not_zero (suc b) _ apart)
    ∙ ap (λ t. suc b ∷ t) (removed bs)
removed (zero ∷ []) = refl
removed (zero ∷ suc c ∷ cs) =
    let apart : suc c == 0 ≡ false = ground arith in
    let rest = prevent_emulation 0 cs in
    ap (λ t. removal_loop 0 (0 ∷ t)) (behind_zero (suc c) cs apart)
    ∙ kept 0 (suc c ∷ rest) (not_zeros 0 (suc c) rest apart)
    ∙ ap (λ t. 0 ∷ t) (kept (suc c) rest (not_zero (suc c) rest apart))
    ∙ ap (λ t. 0 ∷ suc c ∷ t) (removed cs)
removed (zero ∷ zero ∷ []) = refl
removed (zero ∷ zero ∷ d ∷ ds) = elim (Bool-cases (leb d 3)) [
  | inl low ↦
      ap (λ t. removal_loop 0 (0 ∷ 0 ∷ t)) (behind_zeros_low d ds low)
      ∙ ap (λ t. 0 ∷ 0 ∷ t) (removed (d ∷ ds))
  | inr high ↦
      let apart : d == 0 ≡ false = ground arith in
      let rest = prevent_emulation 0 ds in
      ap (λ t. removal_loop 0 (0 ∷ 0 ∷ t)) (behind_zeros_high d ds high)
      ∙ kept 0 (0 ∷ d ∷ rest) (not_three d rest high)
      ∙ ap (λ t. 0 ∷ t) (kept 0 (d ∷ rest) (not_zeros 0 d rest apart))
      ∙ ap (λ t. 0 ∷ 0 ∷ t) (kept d rest (not_zero d rest apart))
      ∙ ap (λ t. 0 ∷ 0 ∷ d ∷ t) (removed ds)
]

pub length-prevent_emulation :
    (count : ℕ) (bs : Bytes) → length bs ≤ length (prevent_emulation count bs)
unfolding prevent_emulation
length-prevent_emulation count [] = omega arith
length-prevent_emulation zero (b ∷ bs) =
    omega (arith, length-prevent_emulation (if b == 0 then 1 else 0) bs)
length-prevent_emulation (suc zero) (b ∷ bs) =
    omega (arith, length-prevent_emulation (if b == 0 then 2 else 0) bs)
length-prevent_emulation (suc (suc count)) (b ∷ bs) =
    let rest = length-prevent_emulation (if b == 0 then 1 else 0) bs in
    elim (Bool-cases (leb b 3)) [
      | inl low ↦ rw low (omega arith)
      | inr high ↦ rw high (omega arith)
    ]

-- What an encoder protects against start codes is what remove_emulation_prevention gives back.
pub remove-prevent_emulation :
    (bs : Bytes) → remove_emulation_prevention (prevent_emulation 0 bs) ≡ bs
unfolding remove_emulation_prevention
remove-prevent_emulation bs = removed bs
