-- ===== src/Util/BitReader/Golomb.antt =====
-- Exp-Golomb codes: zeros, a one, and as many bits as there were zeros.
use libnx.Common.{
  ℕ, zero, suc, ◌+◌, ◌-◌, ◌%◌, ◌^◌, ◌≤◌, ◌<◌, ◌==◌, ◌≡◌, refl, ap, ◌∙◌, false, [], ◌∷◌, ◌++◌, none,
  some, arith, length, take, drop, take-append, drop-append, replicate, ltb, lt→ltb, Bool-cases,
  inl, inr,
}
use libnx.Rtp.Types.{Bytes}
use libnx.Util.BitReader.{BitReader, read_bit, zeros_loop, read_ue}
use libnx.Util.BitReader.Stream.{bits_left, value, IsReader, read_bits_lem}

-- `read_bit` in front of known bits; 0 where no bit is left.
next_bit :
    (r : BitReader) (bits : Bytes)
    → IsReader r
    → bits_left r ≡ bits
    → (r' : BitReader) × (read_bit r ≡ (value 0 (take 1 bits), r'))
      × (bits_left r' ≡ drop 1 bits)
      × IsReader r'
unfolding read_bit
next_bit r bits v e =
    let (r', read, left, v') = read_bits_lem 1 r v in (r', rw e at read, rw e at left, v')

zeros_run :
    (z fuel leading : ℕ) (r : BitReader) (rest : Bytes)
    → IsReader r
    → bits_left r ≡ replicate z 0 ++ (1 ∷ rest)
    → z < fuel
    → leading + z ≤ 31
    → (r' : BitReader) × (zeros_loop fuel r leading ≡ (leading + z, r'))
      × (bits_left r' ≡ rest)
      × IsReader r'
unfolding zeros_loop value
zeros_run z zero leading r rest v e h k = absurd (omega arith)
zeros_run zero (suc fuel) leading r rest v e h k =
    let (r', read, left, v') = next_bit r _ v e in
    let same : leading ≡ leading + 0 = omega arith in
    rw read (r', ap (λ (n : ℕ). (n, r')) same, left, v')
zeros_run (suc z) (suc fuel) leading r rest v e h k =
    let (r1, read, left, v1) = next_bit r _ v e in
    let (r', found, left', v') =
      zeros_run z fuel (leading + 1) r1 rest v1 left (omega arith) (omega arith) in
    let same : leading + 1 + z ≡ leading + suc z = omega arith in
    rw (read, lt→ltb leading 32 (omega arith), found) (r', ap (λ (n : ℕ). (n, r')) same, left', v')

zeros_only :
    (n : ℕ)
    → (value 0 (take 1 (replicate n 0)) ≡ 0)
      × (drop {A = ℕ} 1 (replicate n 0) ≡ replicate (n - 1) 0)
unfolding value
zeros_only zero = (refl, refl)
zeros_only (suc n) =
    let same : n ≡ suc n - 1 = omega arith in (refl, ap (λ (k : ℕ). replicate {A = ℕ} k 0) same)

no_one :
    (fuel leading n : ℕ) (r : BitReader)
    → IsReader r
    → bits_left r ≡ replicate n 0
    → leading ≤ 32
    → leading + fuel ≡ 33
    → (r' : BitReader) × (zeros_loop fuel r leading ≡ (32, r'))
unfolding zeros_loop value
no_one zero leading n r v e h k = absurd (omega arith)
no_one (suc fuel) leading n r v e h k =
    let (r1, read, left, v1) = next_bit r _ v e in
    let (last, fewer) = zeros_only n in
    elim (Bool-cases (ltb leading 32)) [
      | inl below ↦
          let (r', found) =
            no_one fuel (leading + 1) (n - 1) r1 v1 (left ∙ fewer) (ground arith) (omega arith) in
          rw (read, last, below, found) (r', refl)
      | inr full ↦
          let end : leading ≡ 32 = ground arith in
          rw (read, last, full) (r1, ap (λ (x : ℕ). (x, r1)) end)
    ]

-- An Exp-Golomb code of up to 31 leading zeros: `read_ue` takes exactly the code off what is left, and
-- returns its number, 2^z - 1 and the value of the z bits behind the one.
pub read_ue-code :
    (r : BitReader) (bits rest : Bytes)
    → IsReader r
    → bits_left r ≡ replicate (length bits) 0 ++ (1 ∷ (bits ++ rest))
    → length bits ≤ 31
    → (r' : BitReader) × (read_ue r ≡ some ((2 ^ length bits - 1 + value 0 bits) % 2 ^ 32, r'))
      × (bits_left r' ≡ rest)
      × IsReader r'
unfolding read_ue
read_ue-code r [] rest v e h =
    let (r1, found, left, v1) = zeros_run 0 33 0 r rest v e (omega arith) (omega arith) in
    rw found (r1, unfold value in refl, left, v1)
read_ue-code r (b ∷ bits) rest v e h =
    let z = length (b ∷ bits) in
    let (r1, found, left, v1) =
      zeros_run z 33 0 r (b ∷ bits ++ rest) v e (omega arith) (omega (arith, h)) in
    let (r', read, left', v') = read_bits_lem z r1 v1 in
    let some_zeros : (0 + z == 0) ≡ false = ground arith in
    let few_zeros : (0 + z == 32) ≡ false = ground arith in
    let same : 0 + z ≡ z = omega arith in
    rw (found, some_zeros, few_zeros, same, read, left, take-append (b ∷ bits) rest z refl)
      (r', refl, left' ∙ ap (λ (t : Bytes). drop z t) left ∙ drop-append (b ∷ bits) rest z refl, v')

-- Where nothing but zeros is left, whatever their number, `read_ue` shifts by 32, which is undefined.
pub read_ue-zeros :
    (r : BitReader) (n : ℕ) → IsReader r → bits_left r ≡ replicate n 0 → read_ue r ≡ none
unfolding read_ue
read_ue-zeros r n v e = let (r', found) = no_one 33 0 n r v e (omega arith) refl in rw found refl
