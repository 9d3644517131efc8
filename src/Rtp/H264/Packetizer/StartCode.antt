-- ===== src/Rtp/H264/Packetizer/StartCode.antt =====
-- Annex B start codes: `find_start_code` against a description of a start code.
use libnx.Common.{
  ℕ, zero, suc, ◌+◌, ◌≤◌, ◌<◌, ◌==◌, ◌≡◌, refl, sym, ap, ◌∙◌, Bool, true, false, ◌&&◌, [], ◌∷◌, inl,
  inr, arith, length, get_or, drop, leb, if◌then◌else◌, Bool-cases,
}
use libnx.Rtp.Types.{Bytes}
use libnx.Rtp.H264.Packetizer.{find_start_code}

abbrev starts_with : Bytes → Bytes → Bool
starts_with [] bytes = true
starts_with (x ∷ xs) [] = false
starts_with (x ∷ xs) (b ∷ bs) = (b == x) && starts_with xs bs

-- The length of the start code that the bytes begin with: 00 00 01 or 00 00 00 01; 0 for neither.
unfoldable pub code_length : Bytes → ℕ
code_length bytes =
    if starts_with (0 ∷ 0 ∷ 1 ∷ []) bytes
    then 3
    else if starts_with (0 ∷ 0 ∷ 0 ∷ 1 ∷ []) bytes
    then 4
    else 0

-- The first start code of the bytes, which stand from `start` on: its position and length, or their
-- end and 0.
pub record IsFirstCode (bytes : Bytes) (start : ℕ) (found : ℕ × ℕ) : Type 0 where
  pub distance : ℕ
  pub position : found.0 ≡ start + distance
  pub within : distance ≤ length bytes
  pub code : code_length (drop distance bytes) ≡ found.1
  pub nothing_before : (i : ℕ) → i < distance → code_length (drop i bytes) ≡ 0
  pub at_end : found.1 ≡ 0 → distance ≡ length bytes

-- The test of one round is the description.
unfoldable code_here : Bytes → ℕ
code_here [] = 0
code_here (a ∷ rest) =
    if leb 2 (length rest) && (a == 0 && get_or rest 0 0 == 0)
    then if get_or rest 1 0 == 1
      then 3
      else if leb 3 (length rest) && (get_or rest 1 0 == 0 && get_or rest 2 0 == 1)
      then 4
      else 0
    else 0

code_here_lem : (bytes : Bytes) → code_here bytes ≡ code_length bytes
unfolding code_here code_length
code_here_lem [] = refl
code_here_lem (a ∷ []) = ground arith
code_here_lem (a ∷ b ∷ []) = ground arith
code_here_lem (a ∷ b ∷ c ∷ []) = ground arith
code_here_lem (a ∷ b ∷ c ∷ d ∷ rest) = ground arith

-- One round: a code here, or the search goes on.
find_round :
    (a : ℕ) (rest : Bytes) (start : ℕ)
    → find_start_code (a ∷ rest) start ≡ (
        if code_here (a ∷ rest) == 0
        then find_start_code rest (start + 1)
        else (start, code_here (a ∷ rest)))
unfolding find_start_code code_here
find_round a rest start = ground arith

-- `find_start_code` returns the first start code, of 3 or 4 bytes; or the end of the data and length 0
-- where there is none.
pub find_start_code-IsFirstCode :
    (bytes : Bytes) (start : ℕ) → IsFirstCode bytes start (find_start_code bytes start)
unfolding find_start_code code_length
find_start_code-IsFirstCode [] start = record {
  distance = 0;
  position = omega arith;
  within = omega arith;
  code = refl;
  nothing_before = λ i h. absurd (omega arith);
  at_end = λ z. refl;
}
find_start_code-IsFirstCode (a ∷ rest) start =
    let later = find_start_code-IsFirstCode rest (start + 1) in
    let same = code_here_lem (a ∷ rest) in
    elim (Bool-cases (code_here (a ∷ rest) == 0)) [
      | inl e ↦
          rw (find_round a rest start, e)
            (record {
              distance = suc later.distance;
              position = later.position ∙ omega arith;
              within = omega (arith, later.within);
              code = later.code;
              nothing_before = before later.distance later.nothing_before (sym same ∙ ground arith);
              at_end = λ z. ap suc (later.at_end z);
            })
      | inr e ↦
          rw (find_round a rest start, e)
            (record {
              distance = 0;
              position = omega arith;
              within = omega arith;
              code = sym same;
              nothing_before = λ i h. absurd (omega arith);
              at_end = λ z. ground arith;
            })
    ]
  where
    before :
        (n : ℕ)
        → ((i : ℕ) → i < n → code_length (drop i rest) ≡ 0)
        → code_length (a ∷ rest) ≡ 0
        → (i : ℕ) → i < suc n
        → code_length (drop i (a ∷ rest)) ≡ 0
    before n k z zero h = z
    before n k z (suc i) h = k i (omega arith)
