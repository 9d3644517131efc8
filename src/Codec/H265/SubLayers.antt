-- ===== src/Codec/H265/SubLayers.antt =====
-- The sub-layers of a profile_tier_level structure as H.265 (7.3.3) writes them.
use libnx.Common.{
  ℕ, ◌+◌, ◌-◌, ◌*◌, ◌≤◌, ◌<◌, ◌==◌, ◌≡◌, refl, true, List, [], ◌∷◌, ◌++◌, arith, length,
  length-replicate, replicate, ltb, if◌then◌else◌, Bool-cases, inl, inr, All,
}
use libnx.Rtp.Types.{Bytes}
use libnx.Util.BitReader.{BitReader, skip_bits}
use libnx.Codec.Reading.{pure, skip, At, Gives, read_bit-At, skip_bits-At}
use libnx.Codec.H265.{read_presence, skip_sub_layers, read_sub_layers}

pub record SubLayer : Type 0 where
  pub profile_present : ℕ
  pub profile : Bytes
  pub level_present : ℕ
  pub level : Bytes

abbrev present_size : ℕ → ℕ → ℕ
present_size present count = if present == 0 then 0 else count

-- What is present has its size.
pub record IsSubLayer (l : SubLayer) : Type 0 where
  pub flag_profile : l.profile_present < 2
  pub flag_level : l.level_present < 2
  pub size_profile : length l.profile ≡ present_size l.profile_present 88
  pub size_level : length l.level ≡ present_size l.level_present 8

abbrev pub presence_bits : List SubLayer → Bytes → Bytes
presence_bits [] rest = rest
presence_bits (l ∷ ls) rest = l.profile_present ∷ l.level_present ∷ presence_bits ls rest

abbrev pub layer_bits : List SubLayer → Bytes → Bytes
layer_bits [] rest = rest
layer_bits (l ∷ ls) rest = l.profile ++ (l.level ++ layer_bits ls rest)

-- The flags, the padding and the sub-layers.
abbrev pub sub_layer_bits : List SubLayer → Bytes → Bytes
sub_layer_bits [] rest = rest
sub_layer_bits (l ∷ ls) rest =
    presence_bits (l ∷ ls) (replicate (2 * (7 - length (l ∷ ls))) 0 ++ layer_bits (l ∷ ls) rest)

abbrev flags_of : List SubLayer → List (ℕ × ℕ)
flags_of [] = []
flags_of (l ∷ ls) = (l.profile_present, l.level_present) ∷ flags_of ls

read_presence-Gives :
    (ls : List SubLayer) (rest : Bytes) (r : BitReader)
    → All IsSubLayer ls
    → At r (presence_bits ls rest)
    → Gives (read_presence (length ls) r) (flags_of ls) rest
unfolding read_presence
read_presence-Gives [] rest r all here = (r, refl, here)
read_presence-Gives (l ∷ ls) rest r (is_layer, all) here =
    let (r1, read1, h1) = read_bit-At r l.profile_present _ here is_layer.flag_profile in
    let (r2, read2, h2) = read_bit-At r1 l.level_present _ h1 is_layer.flag_level in
    let (r3, read3, h3) = read_presence-Gives ls rest r2 all h2 in
    (r3, rw (read1, read2, read3) refl, h3)

skip_present :
    (present count : ℕ) (info rest : Bytes) (r : BitReader)
    → length info ≡ present_size present count
    → At r (info ++ rest)
    → Gives ((if present == 0 then pure 0 else skip count) r) 0 rest
unfolding skip_bits
skip_present present count info rest r size here = elim (Bool-cases (present == 0)) [
  | inl absent ↦ rw absent (r, refl, skip_bits-At r 0 info rest (rw absent at size) here)
  | inr there ↦
      rw there (skip_bits count r, refl, skip_bits-At r count info rest (rw there at size) here)
]

skip_sub_layers-Gives :
    (ls : List SubLayer) (rest : Bytes) (r : BitReader)
    → All IsSubLayer ls
    → At r (layer_bits ls rest)
    → Gives (skip_sub_layers (flags_of ls) r) tt rest
unfolding skip_sub_layers
skip_sub_layers-Gives [] rest r all here = (r, refl, here)
skip_sub_layers-Gives (l ∷ ls) rest r (is_layer, all) here =
    let (r1, read1, h1) =
      skip_present l.profile_present 88 l.profile _ r is_layer.size_profile here in
    let (r2, read2, h2) = skip_present l.level_present 8 l.level _ r1 is_layer.size_level h1 in
    let (r3, read3, h3) = skip_sub_layers-Gives ls rest r2 all h2 in
    (r3, rw (read1, read2) read3, h3)

padding-Gives :
    (n : ℕ) (rest : Bytes) (r : BitReader)
    → n ≤ 7
    → At r (replicate (2 * (7 - n)) 0 ++ rest)
    → Gives ((if ltb (n + 1) 8 then skip (2 * (8 - (n + 1))) else pure 0) r) 0 rest
padding-Gives n rest r small here =
    let same : 2 * (8 - (n + 1)) ≡ 2 * (7 - n) = omega arith in
    elim (Bool-cases (ltb (n + 1) 8)) [
      | inl below ↦
          rw (below, same)
            (
              skip_bits (2 * (7 - n)) r,
              refl,
              skip_bits-At r (2 * (7 - n)) _ rest (length-replicate (2 * (7 - n)) 0) here,
            )
      | inr full ↦
          let none_left : 2 * (7 - n) ≡ 0 = ground arith in rw full (r, refl, rw none_left at here)
    ]

-- `read_sub_layers` passes over the sub-layers and nothing else.
pub read_sub_layers-Gives :
    (ls : List SubLayer) (rest : Bytes) (r : BitReader)
    → length ls ≤ 7
    → All IsSubLayer ls
    → At r (sub_layer_bits ls rest)
    → Gives (read_sub_layers (length ls + 1) r) tt rest
unfolding read_sub_layers
read_sub_layers-Gives [] rest r small all here = (r, refl, here)
read_sub_layers-Gives (l ∷ ls) rest r small all here =
    let n = length (l ∷ ls) in
    let (r1, read1, h1) = read_presence-Gives (l ∷ ls) _ r all here in
    let (r2, read2, h2) = padding-Gives (length (l ∷ ls)) _ r1 small h1 in
    let (r3, read3, h3) = skip_sub_layers-Gives (l ∷ ls) rest r2 all h2 in
    let many : ltb 1 (length (l ∷ ls) + 1) ≡ true = ground arith in
    let count : length (l ∷ ls) + 1 - 1 ≡ length (l ∷ ls) = omega arith in
    (r3, rw (many, count, read1, read2) read3, h3)
