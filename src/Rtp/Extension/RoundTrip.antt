-- ===== src/Rtp/Extension/RoundTrip.antt =====
-- The parser reads back what the builder wrote.
use libnx.Common.{
  ℕ, zero, suc, ◌+◌, ◌-◌, ◌*◌, ◌/◌, ◌%◌, ◌^◌, ◌≤◌, ◌≡◌, refl, ap, ◌∙◌, List, [], ◌∷◌, ◌++◌, arith,
  length, length-append, All, replicate, take-append, drop-append, append_assoc,
}
use libnx.Common.Bits.{and_0x0f, bit_or-fields}
use libnx.Rtp.Types.{Bytes, RtpHeaderExtElement}
use libnx.Rtp.Extension.{
  RtpHeaderExtensionBuilder, content_bytes, padded, element_header, elements_bytes, block_content,
  parse_elements, parse_one_byte_extension,
}
use libnx.Rtp.Extension.Builder.{IsElement, IsWellFormed}

element_header_lem :
    (e : RtpHeaderExtElement) → IsElement e → element_header e ≡ e.id * 16 + (length e.value - 1)
unfolding element_header
element_header_lem e h = ground (
  arith,
  and_0x0f ((length e.value + 2 ^ 64 - 1) % 2 ^ 64),
  bit_or-fields 4 e.id ((length e.value + 2 ^ 64 - 1) % 2 ^ 64 % 16),
)

-- One round of the parser on a written element takes that element off.
parse_elements_step :
    (fuel : ℕ) (e : RtpHeaderExtElement) (rest : Bytes)
    → IsElement e
    → parse_elements (suc fuel) ((element_header e ∷ e.value) ++ rest)
      ≡ e ∷ parse_elements fuel rest
unfolding parse_elements
parse_elements_step fuel e rest h = ground (
  arith,
  element_header_lem e h,
  and_0x0f (element_header e),
  and_0x0f (element_header e / 16),
  length-append e.value rest,
  take-append e.value rest (element_header e % 16 + 1),
  drop-append e.value rest (element_header e % 16 + 1),
)

parse_elements-zeros : (fuel n : ℕ) → parse_elements fuel (replicate n 0) ≡ []
unfolding parse_elements
parse_elements-zeros zero zero = refl
parse_elements-zeros zero (suc n) = refl
parse_elements-zeros (suc fuel) zero = refl
parse_elements-zeros (suc fuel) (suc n) = parse_elements-zeros fuel n

parse_elements-written :
    (es : List RtpHeaderExtElement) (fuel fill : ℕ)
    → All IsElement es
    → length (elements_bytes es) ≤ fuel
    → parse_elements fuel (elements_bytes es ++ replicate fill 0) ≡ es
unfolding elements_bytes
parse_elements-written [] fuel fill h enough = parse_elements-zeros fuel fill
parse_elements-written (e ∷ es) zero fill h enough = absurd (omega arith)
parse_elements-written (e ∷ es) (suc fuel) fill h enough =
    rw (append_assoc e.value (elements_bytes es) (replicate fill 0)) (
      parse_elements_step fuel e _ h.0
      ∙ ap (λ t. e ∷ t)
          (parse_elements-written es fuel fill h.1
            (omega (arith, length-append e.value (elements_bytes es)))))

-- Parsing the content of a written block gives the elements of the builder, in order; the zero
-- bytes that fill the last word are skipped.
pub parse-block_content :
    (b : RtpHeaderExtensionBuilder)
    → IsWellFormed b
    → parse_one_byte_extension (block_content b.elements) ≡ b.elements
unfolding parse_one_byte_extension block_content
parse-block_content b h = parse_elements-written b.elements _ _ h (
    omega (
      arith,
      length-append (elements_bytes b.elements)
          (replicate (padded (content_bytes b.elements) - content_bytes b.elements) 0),
    ))
