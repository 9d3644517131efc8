-- ===== src/Rtp/Extension/Ntp.antt =====
-- The NTP time stamp of RFC 6051 through the extension.
use libnx.Common.{
  ℕ, ◌+◌, ◌*◌, ◌^◌, ◌≤◌, ◌<◌, ◌≡◌, refl, ap, ◌∙◌, List, [], ◌∷◌, ◌++◌, arith, length, none, some,
}
use libnx.Common.Bits.{and_0xff, bit_or-fields}
use libnx.Rtp.Types.{Bytes, RtpHeaderExtElement}
use libnx.Rtp.Extension.{
  RtpHeaderExtensionBuilder, add, add_ntp64, ntp64_bytes, fold_ntp64, extract_ntp64, block_content,
  parse_one_byte_extension,
}
use libnx.Rtp.Extension.Builder.{IsWellFormed, add-IsWellFormed}
use libnx.Rtp.Extension.RoundTrip.{parse-block_content}

-- One byte of the fold, where no bit is shifted out.
fold_ntp64_byte :
    (ntp b : ℕ) (bs : Bytes)
    → ntp < 2 ^ 56
    → b < 256
    → fold_ntp64 ntp (b ∷ bs) ≡ fold_ntp64 (ntp * 256 + b) bs
unfolding fold_ntp64
fold_ntp64_byte ntp b bs h hb = ap (λ t. fold_ntp64 t bs) (ground (arith, bit_or-fields 8 ntp b))

fold_ntp64-bytes : (n : ℕ) → n < 2 ^ 64 → fold_ntp64 0 (ntp64_bytes n) ≡ n
unfolding ntp64_bytes
fold_ntp64-bytes n h =
    fold_ntp64_byte _ _ _ (omega arith) (omega arith)
    ∙ fold_ntp64_byte _ _ _ (omega arith) (omega arith)
    ∙ fold_ntp64_byte _ _ _ (omega arith) (omega arith)
    ∙ fold_ntp64_byte _ _ _ (omega arith) (omega arith)
    ∙ fold_ntp64_byte _ _ _ (omega arith) (omega arith)
    ∙ fold_ntp64_byte _ _ _ (omega arith) (omega arith)
    ∙ fold_ntp64_byte _ _ _ (omega arith) (omega arith)
    ∙ fold_ntp64_byte _ _ _ (omega arith) (omega arith)
    ∙ unfold fold_ntp64 in omega (arith, and_0xff n)

length_eight : (n : ℕ) → length (ntp64_bytes n) ≡ 8
unfolding ntp64_bytes
length_eight n = refl

extract_ntp64-append :
    (es more : List RtpHeaderExtElement) (id : ℕ)
    → extract_ntp64 es id ≡ none
    → extract_ntp64 (es ++ more) id ≡ extract_ntp64 more id
unfolding extract_ntp64
extract_ntp64-append [] more id h = refl
extract_ntp64-append (e ∷ es) more id h = ground (arith, extract_ntp64-append es more id)

add_ntp64-elements :
    (id n : ℕ) (b : RtpHeaderExtensionBuilder)
    → 1 ≤ id
    → id ≤ 14
    → (add_ntp64 id n b).elements ≡ b.elements ++ (record { id = id; value = ntp64_bytes n } ∷ [])
unfolding add_ntp64 add ntp64_bytes
add_ntp64-elements id n b low high = ground arith

-- A time stamp put under an id from 1 to 14, to a builder that holds no eight-byte element of that id,
-- is what the receiver extracts from the parsed block.
pub extract-add_ntp64 :
    (id n : ℕ) (b : RtpHeaderExtensionBuilder)
    → IsWellFormed b
    → 1 ≤ id
    → id ≤ 14
    → n < 2 ^ 64
    → extract_ntp64 b.elements id ≡ none
    → extract_ntp64 (parse_one_byte_extension (block_content (add_ntp64 id n b).elements)) id
      ≡ some n
unfolding add_ntp64
extract-add_ntp64 id n b h low high small fresh =
    rw (parse-block_content (add_ntp64 id n b) (add-IsWellFormed id (ntp64_bytes n) b h))
      (rw (add_ntp64-elements id n b low high) (extract_ntp64-append b.elements _ id fresh ∙ last))
  where
    last : extract_ntp64 (record { id = id; value = ntp64_bytes n } ∷ []) id ≡ some n
    last = unfold extract_ntp64 in ground (arith, fold_ntp64-bytes n small, length_eight n)
