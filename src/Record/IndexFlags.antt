-- ===== src/Record/IndexFlags.antt =====
-- The flags of an index entry (namespace index_flags of nxcore/record/record.h).
use libnx.Common.{
  ℕ, zero, suc, ◌+◌, ◌*◌, ◌/◌, ◌%◌, ◌^◌, ◌<◌, ◌≡◌, sym, ◌∙◌, ap, ap₂, min, arith, bit_and,
}
use libnx.Common.Bits.{bit_and_halves, bit_or-fields, bit_and-mask, bit_or_comm, double_pow}
use native.Mathlib.Nat.{pow-suc, div-div-eq-div-mul}
use libnx.Record.Types.{encode, block_flags_of, entry_type_of, codec_type_of}

pow_double : (k : ℕ) → 2 ^ suc k ≡ 2 * 2 ^ k
pow_double k = omega (arith, pow-suc 2 k)

-- A mask without low bits.
bit_and-high : (k x m : ℕ) → bit_and x (m * 2 ^ k) ≡ bit_and (x / 2 ^ k) m * 2 ^ k
bit_and-high zero x m =
    let e : m * 2 ^ 0 ≡ m = omega arith in
    let f : x / 2 ^ 0 ≡ x = omega arith in simp (e, f) (omega arith)
bit_and-high (suc k) x m =
    let halved : x / 2 ^ suc k ≡ x / 2 / 2 ^ k =
      ap (λ n. x / n) (pow_double k) ∙ sym (div-div-eq-div-mul x 2 (2 ^ k)) in
    let half : m * 2 ^ suc k / 2 ≡ m * 2 ^ k = omega (arith, double_pow m k) in
    let even : m * 2 ^ suc k % 2 ≡ 0 = omega (arith, double_pow m k) in
    let above = bit_and_halves x (m * 2 ^ suc k) in
    rw halved (
      above
      ∙ (ap₂ (λ h r. bit_and (x / 2) h * 2 + min (x % 2) r) half even
          ∙ omega (arith, bit_and-high k (x / 2) m, double_pow (bit_and (x / 2 / 2 ^ k) m) k)))

-- The flags as a sum of their fields.
encode-fields :
    (block_flags entry_type codec_type : ℕ)
    → entry_type < 2 ^ 8
    → codec_type < 2 ^ 8
    → encode block_flags entry_type codec_type
      ≡ codec_type * 2 ^ 24 + (entry_type * 2 ^ 16 + block_flags % 2 ^ 16)
unfolding encode
encode-fields b t c ht hc =
    let low : bit_and b 0xffff ≡ b % 2 ^ 16 = bit_and-mask 16 b in
    let t_fits : t * 2 ^ 16 % 2 ^ 32 ≡ t * 2 ^ 16 = omega arith in
    let c_fits : c * 2 ^ 24 % 2 ^ 32 ≡ c * 2 ^ 24 = omega arith in
    rw
      (
        low,
        t_fits,
        c_fits,
        bit_or_comm (b % 2 ^ 16) (t * 2 ^ 16),
        bit_or-fields 16 t (b % 2 ^ 16) (omega arith),
        bit_or_comm (t * 2 ^ 16 + b % 2 ^ 16) (c * 2 ^ 24),
      )
      (bit_or-fields 24 c (t * 2 ^ 16 + b % 2 ^ 16) (omega arith))

-- `encode` and the three functions that take the flags apart.
decode-encode :
    (block_flags entry_type codec_type : ℕ)
    → entry_type < 2 ^ 8
    → codec_type < 2 ^ 8
    → let flags = encode block_flags entry_type codec_type in
      (block_flags_of flags ≡ block_flags % 2 ^ 16)
      × ((entry_type_of flags ≡ entry_type) × (codec_type_of flags ≡ codec_type))
unfolding block_flags_of entry_type_of codec_type_of
decode-encode b t c ht hc =
    let e = encode-fields b t c ht hc in
    let flags = encode b t c in
    let kind : bit_and flags 0xff0000 ≡ bit_and (flags / 2 ^ 16) 255 * 2 ^ 16 =
      bit_and-high 16 flags 255 in
    let codec : bit_and flags 0xff000000 ≡ bit_and (flags / 2 ^ 24) 255 * 2 ^ 24 =
      bit_and-high 24 flags 255 in
    let kind_bits : bit_and (flags / 2 ^ 16) 255 ≡ flags / 2 ^ 16 % 2 ^ 8 =
      bit_and-mask 8 (flags / 2 ^ 16) in
    let codec_bits : bit_and (flags / 2 ^ 24) 255 ≡ flags / 2 ^ 24 % 2 ^ 8 =
      bit_and-mask 8 (flags / 2 ^ 24) in
    let low : bit_and flags 0xffff ≡ flags % 2 ^ 16 = bit_and-mask 16 flags in
    (
      omega (arith, low, e),
      (omega (arith, kind, kind_bits, e), omega (arith, codec, codec_bits, e)),
    )
