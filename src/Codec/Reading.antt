-- ===== src/Codec/Reading.antt =====
-- Chains of reads from a bit reader, as the parsers of parameter sets make them, and what such a read
-- takes of the bits that are left. `none` is the undefined shift of `read_ue`.
use libnx.Common.{
  ℕ, zero, suc, ◌+◌, ◌-◌, ◌*◌, ◌%◌, ◌^◌, ◌≤◌, ◌<◌, ◌≡◌, sym, ap, ◌∙◌, [], ◌∷◌, ◌++◌, Option, none,
  some, arith, length, replicate, Bool-cases, inl, inr, leb, take-append, drop-append,
}
use libnx.Rtp.Types.{Bytes}
use libnx.Util.BitReader.{
  BitReader, construct, ℤ, read_bit, read_bits, read_ue, read_se, signed, skip_bits, advance_bit,
}
use libnx.Util.BitReader.Stream.{
  bits_left, bits_of, value, IsReader, read_bits_lem, bits_left-more, bits_left-end,
  advance_bit-IsReader,
}
use libnx.Util.BitReader.Golomb.{read_ue-code}

abbrev pub Reading {ℓ} : Type ℓ → Type ℓ
Reading A = BitReader → Option (A × BitReader)

abbrev pub pure {ℓ} : {A : Type ℓ} → A → Reading A
pure a r = some (a, r)

abbrev pub on_read {ℓ κ} :
    {A : Type ℓ} {B : Type κ} → Option (A × BitReader) → (A → Reading B) → Option (B × BitReader)
on_read none f = none
on_read (some (a, r)) f = f a r

infixl 1 ◌>>=◌ ◌>>◌
abbrev pub ◌>>=◌ {ℓ κ} : {A : Type ℓ} {B : Type κ} → Reading A → (A → Reading B) → Reading B
p >>= f = λ r. on_read (p r) f

abbrev pub ◌>>◌ {ℓ κ} : {A : Type ℓ} {B : Type κ} → Reading A → Reading B → Reading B
p >> q = p >>= λ _. q

abbrev pub ue : Reading ℕ
ue = read_ue

abbrev pub se : Reading ℤ
se = read_se

abbrev pub bit : Reading ℕ
bit r = some (read_bit r)

abbrev pub bits : ℕ → Reading ℕ
bits n r = some (read_bits n r)

abbrev pub skip : ℕ → Reading ℕ
skip n r = some (0, skip_bits n r)

-- An Exp-Golomb code in front of other bits, and its number.
abbrev pub code : Bytes → Bytes → Bytes
code info rest = replicate (length info) 0 ++ (1 ∷ (info ++ rest))

abbrev pub number : Bytes → ℕ
number info = (2 ^ length info - 1 + value 0 info) % 2 ^ 32

-- A reader in front of these bits.
pub record At (r : BitReader) (left : Bytes) : Type 0 where
  pub is_reader : IsReader r
  pub has_left : bits_left r ≡ left

-- A read gives `a` and stands in front of `left` behind it.
abbrev pub Gives {ℓ} : {A : Type ℓ} → Option (A × BitReader) → A → Bytes → Type ℓ
Gives {A = A} result a left = (r' : BitReader) × (result ≡ some (a, r')) × At r' left

pub ue-Gives :
    (r : BitReader) (info rest : Bytes)
    → At r (code info rest)
    → length info ≤ 31
    → Gives (ue r) (number info) rest
ue-Gives r info rest here short =
    let (r', read, left, v) = read_ue-code r info rest here.is_reader here.has_left short in
    (r', read, record { is_reader = v; has_left = left })

pub se-Gives :
    (r : BitReader) (info rest : Bytes)
    → At r (code info rest)
    → length info ≤ 31
    → (n : ℤ) × Gives (se r) n rest
unfolding read_se
se-Gives r info rest here short =
    let (r', read, there) = ue-Gives r info rest here short in
    (
      signed (number info),
      (
        r',
        ap
            (λ (o : Option (ℕ × BitReader)). elim o [
              | none ↦ none
              | some (n, r') ↦ some (signed n, r')
            ])
            read,
        there,
      ),
    )

pub skip-At : (r : BitReader) (b : ℕ) (rest : Bytes) → At r (b ∷ rest) → At (skip_bits 1 r) rest
unfolding skip_bits
skip-At r b rest here = elim (Bool-cases (leb (length r.bytes) r.byte_offset)) [
  | inl over ↦ absurd (no_cons (sym here.has_left ∙ bits_left-end r (ground arith)))
  | inr more ↦ record {
    is_reader = advance_bit-IsReader r here.is_reader;
    has_left = cons_tail (sym (bits_left-more r here.is_reader (ground arith)) ∙ here.has_left);
  }
]
  where
    no_cons : b ∷ rest ≡ [] → ⊥
    no_cons e = cc

    cons_tail : {x : ℕ} {xs : Bytes} → x ∷ xs ≡ b ∷ rest → xs ≡ rest
    cons_tail e = cc

pub read_bit-At :
    (r : BitReader) (b : ℕ) (rest : Bytes)
    → At r (b ∷ rest)
    → b < 2
    → (r' : BitReader) × (read_bit r ≡ (b, r')) × At r' rest
unfolding read_bit value
read_bit-At r b rest here small =
    let (r', read, left, v) = read_bits_lem 1 r here.is_reader in
    let same : (0 * 2 + b) % 2 ^ 32 ≡ b = omega arith in
    (
      r',
      rw here.has_left at read ∙ ap (λ (n : ℕ). (n, r')) same,
      record { is_reader = v; has_left = rw here.has_left at left },
    )

pub construct-At : (bytes left : Bytes) → bits_of bytes ≡ left → At (construct bytes) left
unfolding bits_left
construct-At bytes left written = record { is_reader = omega arith; has_left = written }

-- A number of as many bits as there are in front of the rest.
pub read_bits-At :
    (r : BitReader) (count : ℕ) (info rest : Bytes)
    → length info ≡ count
    → At r (info ++ rest)
    → (r' : BitReader) × (read_bits count r ≡ (value 0 info, r')) × At r' rest
read_bits-At r count info rest long here =
    let (r', read, left, v) = read_bits_lem count r here.is_reader in
    let size = sym long in
    (
      r',
      rw (here.has_left, take-append info rest count size) at read,
      record {
        is_reader = v;
        has_left = rw (here.has_left, drop-append info rest count size) at left;
      },
    )

pub skip_bits-At :
    (r : BitReader) (count : ℕ) (info rest : Bytes)
    → length info ≡ count
    → At r (info ++ rest)
    → At (skip_bits count r) rest
unfolding skip_bits
skip_bits-At r zero [] rest long here = here
skip_bits-At r zero (b ∷ info) rest long here = absurd (omega arith)
skip_bits-At r (suc count) [] rest long here = absurd (omega arith)
skip_bits-At r (suc count) (b ∷ info) rest long here =
    skip_bits-At (advance_bit r) count info rest (omega arith) (skip-At r b (info ++ rest) here)
