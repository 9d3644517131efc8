-- ===== src/Rtp/Extension/Builder.antt =====
-- What the builder holds, and the size of what it writes.
use libnx.Common.{
  ℕ, ◌+◌, ◌-◌, ◌*◌, ◌/◌, ◌%◌, ◌^◌, ◌≤◌, ◌<◌, ◌≡◌, refl, List, [], ◌∷◌, ◌++◌, arith, length,
  length-append, length-replicate, All, All-append, replicate, Bool-cases, inl, inr,
}
use libnx.Common.Bits.{and_not_3}
use libnx.Rtp.Types.{Bytes, RtpHeaderExtElement}
use libnx.Rtp.Extension.{
  RtpHeaderExtensionBuilder, empty, add, content_bytes, padded, serialized_size, elements_bytes,
  block_header, block_content, serialize,
}

-- An element that the one-byte format can carry.
abbrev pub IsElement : RtpHeaderExtElement → Type 0
IsElement e = (1 ≤ e.id) × (e.id ≤ 14) × (1 ≤ length e.value) × (length e.value ≤ 16)

abbrev pub IsWellFormed : RtpHeaderExtensionBuilder → Type 0
IsWellFormed b = All IsElement b.elements

-- `add` keeps every element within the format's limits, whatever id and bytes it is given.
pub add-IsWellFormed :
    (id : ℕ) (value : Bytes) (b : RtpHeaderExtensionBuilder)
    → IsWellFormed b
    → IsWellFormed (add id value b)
unfolding add
add-IsWellFormed id value b h =
    ground (arith, All-append IsElement b.elements (record { id = id; value = value } ∷ []))

pub padded_lem : (n : ℕ) → n < 2 ^ 63 → padded n ≡ (n + 3) / 4 * 4
unfolding padded
padded_lem n h = omega (arith, and_not_3 ((n + 3) % 2 ^ 64))

pub length-elements_bytes :
    (es : List RtpHeaderExtElement) → length (elements_bytes es) ≡ content_bytes es
unfolding elements_bytes content_bytes
length-elements_bytes [] = refl
length-elements_bytes (e ∷ es) =
    omega (arith, length-append e.value (elements_bytes es), length-elements_bytes es)

pub length-block_content :
    (es : List RtpHeaderExtElement)
    → content_bytes es < 2 ^ 63
    → length (block_content es) ≡ padded (content_bytes es)
unfolding block_content
length-block_content es h = omega (
  arith,
  length-append (elements_bytes es) (replicate (padded (content_bytes es) - content_bytes es) 0),
  length-replicate {A = ℕ} (padded (content_bytes es) - content_bytes es) 0,
  length-elements_bytes es,
  padded_lem (content_bytes es) h,
)

-- `serialize` appends exactly `serialized_size` bytes, a multiple of four.
pub length-serialize :
    (b : RtpHeaderExtensionBuilder) (packet : Bytes)
    → content_bytes b.elements < 2 ^ 63
    → (length (serialize b packet) ≡ length packet + serialized_size b)
      × (serialized_size b % 4 ≡ 0)
unfolding serialize serialized_size block_header
length-serialize b packet h = elim (Bool-cases (empty b)) [
  | inl bare ↦ rw bare (omega arith, refl)
  | inr used ↦ rw used (
    omega (
      arith,
      length-append packet (block_header words ++ block_content b.elements),
      length-block_content b.elements h,
    ),
    omega (arith, padded_lem (content_bytes b.elements) h),
  )
]
  where
    words : ℕ
    words = padded (content_bytes b.elements) / 4 % 2 ^ 16
