-- ===== src/Codec/H264/Order.antt =====
-- The order count of a parameter set as H.264 (7.3.2.1.1) writes it.
use libnx.Common.{List, All, ℕ, ◌%◌, ◌≤◌, ◌≡◌, refl, [], ◌∷◌, arith, length}
use libnx.Rtp.Types.{Bytes}
use libnx.Util.BitReader.{BitReader, skip_bits}
use libnx.Util.BitReader.Stream.{value}
use libnx.Codec.Reading.{code, number, At, Gives, ue-Gives, se-Gives, skip-At}
use libnx.Codec.H264.{skip_offsets, skip_order_count}

-- The three kinds of order count, 0 to 2: the size of a number; a flag, two offsets, and the offsets of
-- a cycle behind their number; nothing. Each code is given by the bits behind its one.
pub data OrderCount : Type 0 where
  in_slices : Bytes → OrderCount
  in_cycle : ℕ → Bytes → Bytes → Bytes → List Bytes → OrderCount
  as_output : OrderCount

abbrev pub codes : List Bytes → Bytes → Bytes
codes [] rest = rest
codes (c ∷ cs) rest = code c (codes cs rest)

-- The code of the kind.
abbrev pub kind_info : OrderCount → Bytes
kind_info (in_slices log2) = []
kind_info (in_cycle zero_flag non_ref field count offsets) = 0 ∷ []
kind_info as_output = 1 ∷ []

abbrev pub kind : OrderCount → ℕ
kind (in_slices log2) = 0
kind (in_cycle zero_flag non_ref field count offsets) = 1
kind as_output = 2

abbrev pub order_bits : OrderCount → Bytes → Bytes
order_bits (in_slices log2) rest = code log2 rest
order_bits (in_cycle zero_flag non_ref field count offsets) rest =
    zero_flag ∷ code non_ref (code field (code count (codes offsets rest)))
order_bits as_output rest = rest

abbrev IsShortCode : Bytes → Type 0
IsShortCode c = length c ≤ 31

-- The codes have 31 leading zeros at most, and a cycle has as many offsets as its number says.
abbrev pub IsShortOrder : OrderCount → Type 0
IsShortOrder (in_slices log2) = IsShortCode log2
IsShortOrder (in_cycle zero_flag non_ref field count offsets) =
    IsShortCode non_ref
    × IsShortCode field
    × IsShortCode count
    × (number count ≡ length offsets)
    × All IsShortCode offsets
IsShortOrder as_output = Unit

skip_offsets-Gives :
    (offsets : List Bytes) (rest : Bytes) (r : BitReader)
    → All IsShortCode offsets
    → At r (codes offsets rest)
    → Gives (skip_offsets (length offsets) r) tt rest
unfolding skip_offsets
skip_offsets-Gives [] rest r all here = (r, refl, here)
skip_offsets-Gives (c ∷ cs) rest r (short, all) here =
    let (n, (r1, read1, h1)) = se-Gives r c _ here short in
    let (r2, read2, h2) = skip_offsets-Gives cs rest r1 all h1 in (r2, rw read1 read2, h2)

pub skip_order_count-Gives :
    (o : OrderCount) (rest : Bytes) (r : BitReader)
    → IsShortOrder o
    → At r (order_bits o rest)
    → Gives (skip_order_count (kind o) r) tt rest
unfolding skip_order_count
skip_order_count-Gives (in_slices log2) rest r short here =
    let (r1, read1, h1) = ue-Gives r log2 rest here short in (r1, rw read1 refl, h1)
skip_order_count-Gives (in_cycle zero_flag non_ref field count offsets) rest r
      (short1, short2, short3, counted, all) here =
    let h1 = skip-At r zero_flag _ here in
    let (n2, (r2, read2, h2)) = se-Gives (skip_bits 1 r) non_ref _ h1 short1 in
    let (n3, (r3, read3, h3)) = se-Gives r2 field _ h2 short2 in
    let (r4, read4, h4) = ue-Gives r3 count _ h3 short3 in
    let (r5, read5, h5) = skip_offsets-Gives offsets rest r4 all h4 in
    (r5, rw (read2, read3, read4, counted) read5, h5)
skip_order_count-Gives as_output rest r short here = (r, refl, here)

pub number-kind : (o : OrderCount) → number (kind_info o) % 256 ≡ kind o
unfolding value
number-kind (in_slices log2) = refl
number-kind (in_cycle zero_flag non_ref field count offsets) = refl
number-kind as_output = refl

pub length-kind : (o : OrderCount) → length (kind_info o) ≤ 31
length-kind (in_slices log2) = omega arith
length-kind (in_cycle zero_flag non_ref field count offsets) = omega arith
length-kind as_output = omega arith
