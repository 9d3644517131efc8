-- ===== src/Codec/NalUnits/Units.antt =====
-- Streams of NAL units behind four-byte start codes, as the depacketizers write them.
use libnx.Common.{
  ℕ, zero, suc, ◌≤◌, ◌<◌, ◌≡◌, refl, ap, ◌∙◌, false, List, [], ◌∷◌, ◌++◌, none, some, arith,
  append-nil, length, length-append, take-append, drop, drop-append, ltb, All,
}
use libnx.Rtp.Types.{Bytes}
use libnx.Rtp.Extension.{is_empty}
use libnx.Rtp.H264.Depacketizer.{start_code}
use libnx.Codec.NalUnits.{
  start_code_length, find_start_code, step_on, trim_zeros, add_unit, take_unit, unit_loop,
  parse_nal_units,
}

-- No start code begins in the bytes, also with one right behind them.
abbrev pub CodeFree : Bytes → Type 0
CodeFree [] = Unit
CodeFree (a ∷ u) = (start_code_length (a ∷ u ++ start_code) ≡ 0) × CodeFree u

-- A unit has bytes, no start code, and no zero at its end.
pub record IsUnit (u : Bytes) : Type 0 where
  pub has_bytes : is_empty u ≡ false
  pub code_free : CodeFree u
  pub no_zeros : trim_zeros u ≡ u

abbrev pub stream : List Bytes → Bytes
stream [] = []
stream (u ∷ us) = start_code ++ (u ++ stream us)

-- Four bytes say how long a start code is.
start_code_length-append :
    (u rest : Bytes)
    → start_code_length (u ++ (start_code ++ rest)) ≡ start_code_length (u ++ start_code)
unfolding start_code_length
start_code_length-append [] rest = refl
start_code_length-append (a ∷ []) rest = refl
start_code_length-append (a ∷ b ∷ []) rest = refl
start_code_length-append (a ∷ b ∷ c ∷ []) rest = refl
start_code_length-append (a ∷ b ∷ c ∷ d ∷ u) rest = refl

start_code_length-end :
    (u : Bytes) → start_code_length (u ++ start_code) ≡ 0 → start_code_length u ≡ 0
unfolding start_code_length
start_code_length-end [] h = refl
start_code_length-end (a ∷ []) h = refl
start_code_length-end (a ∷ b ∷ []) h = refl
start_code_length-end (a ∷ b ∷ c ∷ []) h = ground arith
start_code_length-end (a ∷ b ∷ c ∷ d ∷ u) h = h

find_start_code-next :
    (u rest : Bytes) → CodeFree u → find_start_code (u ++ (start_code ++ rest)) ≡ some (length u)
unfolding find_start_code
find_start_code-next [] rest h = refl
find_start_code-next (a ∷ u) rest h =
    rw (start_code_length-append (a ∷ u) rest ∙ h.0) (ap step_on (find_start_code-next u rest h.1))

find_start_code-none : (u : Bytes) → CodeFree u → find_start_code u ≡ none
unfolding find_start_code
find_start_code-none [] h = refl
find_start_code-none (a ∷ u) h =
    rw (start_code_length-end (a ∷ u) h.0) (ap step_on (find_start_code-none u h.1))

add_unit-cons : (u : Bytes) (us : List Bytes) → is_empty u ≡ false → add_unit u us ≡ u ∷ us
add_unit-cons [] us h = cc
add_unit-cons (b ∷ u) us h = refl

is_empty-append : (u rest : Bytes) → is_empty u ≡ false → is_empty (u ++ rest) ≡ false
is_empty-append [] rest h = cc
is_empty-append (b ∷ u) rest h = refl

take_unit-last : (u : Bytes) (go : Bytes → List Bytes) → IsUnit u → take_unit u go ≡ u ∷ []
unfolding take_unit
take_unit-last u go h =
    rw (h.has_bytes, find_start_code-none u h.code_free, h.no_zeros)
      (add_unit-cons u [] h.has_bytes)

take_unit-next :
    (u rest : Bytes) (go : Bytes → List Bytes)
    → IsUnit u
    → take_unit (u ++ (start_code ++ rest)) go ≡ u ∷ go (start_code ++ rest)
unfolding take_unit
take_unit-next u rest go h =
    rw
      (
        is_empty-append u (start_code ++ rest) h.has_bytes,
        find_start_code-next u rest h.code_free,
        take-append u (start_code ++ rest) (length u) refl,
        drop-append u (start_code ++ rest) (length u) refl,
        h.no_zeros,
      )
      (add_unit-cons u (go (start_code ++ rest)) h.has_bytes)

behind_code :
    (rest : Bytes) → drop (start_code_length (start_code ++ rest)) (start_code ++ rest) ≡ rest
unfolding start_code_length
behind_code rest = refl

unit_loop-stream :
    (fuel : ℕ) (u : Bytes) (us : List Bytes)
    → length us < fuel
    → All IsUnit (u ∷ us)
    → unit_loop fuel (stream (u ∷ us)) ≡ u ∷ us
unfolding unit_loop
unit_loop-stream zero u us h all = absurd (omega arith)
unit_loop-stream (suc fuel) u [] h (hu, _) =
    ap (λ t. take_unit t (unit_loop fuel)) (behind_code (u ++ []) ∙ append-nil u)
    ∙ take_unit-last u (unit_loop fuel) hu
unit_loop-stream (suc fuel) u (v ∷ us) h (hu, hus) =
    ap (λ t. take_unit t (unit_loop fuel)) (behind_code (u ++ stream (v ∷ us)))
    ∙ take_unit-next u (v ++ stream us) (unit_loop fuel) hu
    ∙ ap (λ t. u ∷ t) (unit_loop-stream fuel v us (omega arith) hus)

length-stream : (us : List Bytes) → length us ≤ length (stream us)
length-stream [] = omega arith
length-stream (u ∷ us) = omega (arith, length-append u (stream us), length-stream us)

-- A stream of units behind four-byte start codes is divided into these units. The units have bytes, no
-- start code and no zero at their end.
pub parse_nal_units-stream : (us : List Bytes) → All IsUnit us → parse_nal_units (stream us) ≡ us
unfolding parse_nal_units find_start_code start_code_length
parse_nal_units-stream [] all = refl
parse_nal_units-stream (u ∷ us) all =
    let long : ltb (length (stream (u ∷ us))) 3 ≡ false = ground arith in
    rw long (
      unit_loop-stream (length (stream (u ∷ us))) u us
        (omega (arith, length-append u (stream us), length-stream us)) all)
