-- ===== src/Rtp/Extension/Tests.antt =====
-- A builder for the theorems on header extensions.
use libnx.Common.{◌≡◌, refl, arith, [], ◌∷◌, none, some}
use libnx.Rtp.Extension.{
  RtpHeaderExtensionBuilder, add_ntp64, block_content, parse_one_byte_extension, extract_ntp64,
}
use libnx.Rtp.Extension.Builder.{IsWellFormed}
use libnx.Rtp.Extension.RoundTrip.{parse-block_content}
use libnx.Rtp.Extension.Ntp.{extract-add_ntp64}

abbrev one_element : RtpHeaderExtensionBuilder
one_element = record { elements = record { id = 3; value = 1 ∷ 2 ∷ 3 ∷ [] } ∷ [] }

one_element-IsWellFormed : IsWellFormed one_element
one_element-IsWellFormed = ground arith

parse-block_content_example :
    parse_one_byte_extension (block_content one_element.elements) ≡ one_element.elements
parse-block_content_example = parse-block_content one_element one_element-IsWellFormed

extract-add_ntp64_example :
    extract_ntp64
      (parse_one_byte_extension (block_content (add_ntp64 5 1000 one_element).elements))
      5
    ≡ some 1000
extract-add_ntp64_example =
    extract-add_ntp64 5 1000 one_element one_element-IsWellFormed (omega arith) (omega arith)
      (omega arith) fresh
  where
    fresh : extract_ntp64 one_element.elements 5 ≡ none
    fresh = unfold extract_ntp64 in refl
