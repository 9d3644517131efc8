-- ===== src/Record/Layout/Codec.antt =====
-- Numbers as bytes and back, and the sizes of the structs.
use libnx.Common.{ℕ, zero, suc, ◌+◌, ◌*◌, ◌/◌, ◌^◌, ◌<◌, ◌≡◌, refl, ap, [], ◌∷◌, arith, length}
use libnx.Rtp.Types.{Bytes}
use libnx.Record.Types.{BlockHeader, IndexEntry, SegmentHeader}
use libnx.Record.Layout.{
  le_bytes, block_header_bytes, end_magic_bytes, index_entry_bytes, segment_header_bytes,
  footer_bytes,
}

unfoldable pub le_number : Bytes → ℕ
le_number [] = 0
le_number (b ∷ bs) = b + 256 * le_number bs

pub length-le_bytes : (w n : ℕ) → length (le_bytes w n) ≡ w
unfolding le_bytes
length-le_bytes zero n = refl
length-le_bytes (suc w) n = ap suc (length-le_bytes w (n / 256))

pub le_number-le_bytes : (w n : ℕ) → n < 256 ^ w → le_number (le_bytes w n) ≡ n
unfolding le_number le_bytes
le_number-le_bytes zero n h = omega arith
le_number-le_bytes (suc w) n h = omega (arith, le_number-le_bytes w (n / 256) (omega arith))

pub length-block_header_bytes : (h : BlockHeader) → length (block_header_bytes h) ≡ 28
unfolding block_header_bytes le_bytes
length-block_header_bytes h = refl

pub length-index_entry_bytes : (e : IndexEntry) → length (index_entry_bytes e) ≡ 22
unfolding index_entry_bytes le_bytes
length-index_entry_bytes e = refl

pub length-segment_header_bytes : (h : SegmentHeader) → length (segment_header_bytes h) ≡ 20
unfolding segment_header_bytes le_bytes
length-segment_header_bytes h = refl

pub length-footer_bytes : (n : ℕ) → length (footer_bytes n) ≡ 16
unfolding footer_bytes le_bytes
length-footer_bytes n = refl

pub length-end_magic_bytes : length end_magic_bytes ≡ 2
unfolding end_magic_bytes le_bytes
length-end_magic_bytes = refl
