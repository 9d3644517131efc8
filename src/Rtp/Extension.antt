-- ===== src/Rtp/Extension.antt =====
-- The one-byte header extensions of RFC 5285 (nxnet/rtp/rtp_header_extension.cpp): the builder, its
-- serialised form, and the parser. The loop `while (pos < ext_data.size())` recurs on fuel over the
-- bytes from `pos` on; each round moves `pos` forward, so the size of the block is enough.
pub mod Builder
pub mod RoundTrip
pub mod Ntp
mod Tests
use libnx.Common.{
  ℕ, zero, suc, ◌+◌, ◌-◌, ◌*◌, ◌/◌, ◌%◌, ◌^◌, ◌==◌, Bool, true, false, not, ◌&&◌, ◌||◌, List, [],
  ◌∷◌, ◌++◌, Option, none, some, length, take, drop, replicate, leb, ltb, bit_and, bit_or,
  if◌then◌else◌,
}
use libnx.Rtp.Types.{Bytes, RtpHeaderExtElement, one_byte_extension_profile}

pub record RtpHeaderExtensionBuilder : Type 0 where
  pub elements : List RtpHeaderExtElement

abbrev pub no_extension : RtpHeaderExtensionBuilder
no_extension = record { elements = [] }

abbrev pub is_empty {ℓ} : {A : Type ℓ} → List A → Bool
is_empty [] = true
is_empty (x ∷ xs) = false

-- `RtpHeaderExtensionBuilder::empty`
abbrev pub empty : RtpHeaderExtensionBuilder → Bool
empty b = is_empty b.elements

unfoldable pub add : ℕ → Bytes → RtpHeaderExtensionBuilder → RtpHeaderExtensionBuilder
add id value b =
    if ltb id 1 || ltb 14 id || is_empty value || ltb 16 (length value)
    then b
    else record { elements = b.elements ++ (record { id = id; value = value } ∷ []) }

unfoldable pub ntp64_bytes : ℕ → Bytes
ntp64_bytes n =
    n / 2 ^ 56 % 256
    ∷ n / 2 ^ 48 % 256
    ∷ n / 2 ^ 40 % 256
    ∷ n / 2 ^ 32 % 256
    ∷ n / 2 ^ 24 % 256
    ∷ n / 2 ^ 16 % 256
    ∷ n / 2 ^ 8 % 256
    ∷ bit_and n 0xff % 256
    ∷ []

unfoldable pub add_ntp64 : ℕ → ℕ → RtpHeaderExtensionBuilder → RtpHeaderExtensionBuilder
add_ntp64 id ntp64 b = add id (ntp64_bytes ntp64) b

-- The loop that sums the sizes of the elements, each with its header byte.
unfoldable pub content_bytes : List RtpHeaderExtElement → ℕ
content_bytes [] = 0
content_bytes (e ∷ es) = 1 + length e.value + content_bytes es

-- `(content_bytes + 3) & ~static_cast<size_t>(3)`
unfoldable pub padded : ℕ → ℕ
padded content = bit_and ((content + 3) % 2 ^ 64) (2 ^ 64 - 4)

unfoldable pub serialized_size : RtpHeaderExtensionBuilder → ℕ
serialized_size b = if empty b then 0 else 4 + padded (content_bytes b.elements)

-- `(elem.id << 4) | ((elem.data.size() - 1) & 0x0F)`
unfoldable pub element_header : RtpHeaderExtElement → ℕ
element_header e =
    bit_or (e.id * 2 ^ 4) (bit_and ((length e.value + 2 ^ 64 - 1) % 2 ^ 64) 0x0f) % 256

unfoldable pub elements_bytes : List RtpHeaderExtElement → Bytes
elements_bytes [] = []
elements_bytes (e ∷ es) = (element_header e ∷ e.value) ++ elements_bytes es

-- The four bytes in front of the elements: the profile and the length in 32-bit words.
unfoldable pub block_header : ℕ → Bytes
block_header words =
    one_byte_extension_profile / 2 ^ 8 % 256
    ∷ bit_and one_byte_extension_profile 0xff % 256
    ∷ words / 2 ^ 8 % 256
    ∷ bit_and words 0xff % 256
    ∷ []

-- What stands behind those four bytes: the elements and the zeros that fill the last word.
unfoldable pub block_content : List RtpHeaderExtElement → Bytes
block_content es = elements_bytes es ++ replicate (padded (content_bytes es) - content_bytes es) 0

unfoldable pub serialize : RtpHeaderExtensionBuilder → Bytes → Bytes
serialize b packet =
    if empty b
    then packet
    else packet
      ++ (block_header (padded (content_bytes b.elements) / 4 % 2 ^ 16) ++ block_content b.elements)

unfoldable pub parse_elements : ℕ → Bytes → List RtpHeaderExtElement
parse_elements fuel [] = []
parse_elements zero (byte ∷ rest) = []
parse_elements (suc fuel) (byte ∷ rest) =
    let len = bit_and byte 0x0f + 1 in
    let id = bit_and (byte / 2 ^ 4) 0x0f in
    let skipped = parse_elements fuel rest in
    let others = parse_elements fuel (drop len rest) in
    if byte == 0
    then skipped
    else if id == 15
    then []
    else if ltb (length rest) len
    then []
    else record { id = id; value = take len rest } ∷ others

unfoldable pub parse_one_byte_extension : Bytes → List RtpHeaderExtElement
unfolding parse_elements
parse_one_byte_extension ext_data = parse_elements (length ext_data) ext_data

-- `ntp = (ntp << 8) | elem.data[i]`, over the bytes of one element.
unfoldable pub fold_ntp64 : ℕ → Bytes → ℕ
fold_ntp64 ntp [] = ntp
fold_ntp64 ntp (b ∷ bs) = fold_ntp64 (bit_or (ntp * 2 ^ 8 % 2 ^ 64) b) bs

unfoldable pub extract_ntp64 : List RtpHeaderExtElement → ℕ → Option ℕ
extract_ntp64 [] id = none
extract_ntp64 (e ∷ es) id =
    if e.id == id && length e.value == 8 then some (fold_ntp64 0 e.value) else extract_ntp64 es id
