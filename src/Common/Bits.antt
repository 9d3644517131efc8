-- ===== src/Common/Bits.antt =====
-- The native `bit_and` and `bit_or` as arithmetic: masks of low bits, disjoint fields, and tables
-- for the masks that the RTP code applies to one byte.
use Prim.Native.Nat.{ℕ, zero, suc, ◌+◌, ◌-◌, ◌*◌, ◌/◌, ◌%◌, ◌^◌, ◌≤◌, ◌<◌, min, max}
use Prim.Native.Nat.{bit_and, bit_or, bitwise, digits, bit_and-bitwise, bit_or-bitwise}
use mathlib.Core.Path.{◌≡◌, refl, sym, ap, ◌∙◌}
use mathlib.Core.Bool.{Bool, true, false}
use mathlib.Core.Logic.{ite}
use native.Mathlib.Decide.{ℕ_discrete}
use native.Mathlib.Nat.{pow-suc, one-le-pow, le_refl}
use native.Mathlib.Omega.{arith}

-- `bitwise` is a recursion on binary digits with fuel, of which any amount from `a` on will do.
module _ (last : ℕ → ℕ) (op : ℕ → ℕ → ℕ) where
  enough_fuel :
      (a b fuel more : ℕ) → a ≤ fuel → a ≤ more → digits last op fuel a b ≡ digits last op more a b
  enough_fuel zero b zero zero p q = refl
  enough_fuel zero b zero (suc more) p q = refl
  enough_fuel zero b (suc fuel) zero p q = refl
  enough_fuel zero b (suc fuel) (suc more) p q = refl
  enough_fuel (suc a) b zero more p q = absurd (omega arith)
  enough_fuel (suc a) b (suc fuel) zero p q = absurd (omega arith)
  enough_fuel (suc a) b (suc fuel) (suc more) p q =
      rw (enough_fuel (suc a / 2) (b / 2) fuel more (omega arith) (omega arith))

  digit_step :
      (a b : ℕ)
      → bitwise last op (suc a) b ≡ bitwise last op (suc a / 2) (b / 2) * 2 + op (suc a % 2) (b % 2)
  digit_step a b =
      ap (λ (t : ℕ). t * 2 + op (suc a % 2) (b % 2))
        (enough_fuel (suc a / 2) (b / 2) a (suc a / 2) (omega arith) (le_refl _))

pub bit_or_halves : (a b : ℕ) → bit_or a b ≡ bit_or (a / 2) (b / 2) * 2 + max (a % 2) (b % 2)
bit_or_halves zero b = simp bit_or-bitwise (omega arith)
bit_or_halves (suc a) b = simp bit_or-bitwise (digit_step (λ y. y) max a b)

pub bit_and_halves : (a b : ℕ) → bit_and a b ≡ bit_and (a / 2) (b / 2) * 2 + min (a % 2) (b % 2)
bit_and_halves zero b = simp bit_and-bitwise (omega arith)
bit_and_halves (suc a) b = simp bit_and-bitwise (digit_step (λ y. 0) min a b)

-- The recursion on halves ends at 0 within `n` rounds, for any `n` that bounds the number.
bit_or-zero_below : (n a : ℕ) → a ≤ n → bit_or a 0 ≡ a
bit_or-zero_below n zero h = refl
bit_or-zero_below zero (suc a) h = absurd (omega arith)
bit_or-zero_below (suc n) (suc a) h =
    omega (arith, bit_or_halves (suc a) 0, bit_or-zero_below n (suc a / 2) (omega arith))

zero-bit_or_below : (n b : ℕ) → b ≤ n → bit_or 0 b ≡ b
zero-bit_or_below n zero h = refl
zero-bit_or_below zero (suc b) h = absurd (omega arith)
zero-bit_or_below (suc n) (suc b) h =
    omega (arith, bit_or_halves 0 (suc b), zero-bit_or_below n (suc b / 2) (omega arith))

bit_and-zero_below : (n a : ℕ) → a ≤ n → bit_and a 0 ≡ 0
bit_and-zero_below n zero h = refl
bit_and-zero_below zero (suc a) h = absurd (omega arith)
bit_and-zero_below (suc n) (suc a) h =
    omega (arith, bit_and_halves (suc a) 0, bit_and-zero_below n (suc a / 2) (omega arith))

pub double_pow : (q k : ℕ) → q * 2 ^ suc k ≡ q * 2 ^ k * 2
double_pow q k = omega (arith, ap (λ (t : ℕ). q * t) (pow-suc 2 k))

-- `(q << k) | r` is a sum where `r` fits the `k` bits below.
pub bit_or-fields : (k q r : ℕ) → r < 2 ^ k → bit_or (q * 2 ^ k) r ≡ q * 2 ^ k + r
bit_or-fields zero q zero h = ground (arith, bit_or-zero_below q q (le_refl q))
bit_or-fields zero q (suc r) h = absurd (omega arith)
bit_or-fields (suc k) q r h =
    ground (
      arith,
      double_pow q k,
      pow-suc 2 k,
      bit_or_halves (q * 2 ^ suc k) r,
      bit_or-fields k q (r / 2),
    )

bit_and-fields : (k q r : ℕ) → r < 2 ^ k → bit_and (q * 2 ^ k + r) (2 ^ k - 1) ≡ r
bit_and-fields zero q r h = ground (arith, bit_and-zero_below (q * 1 + r) (q * 1 + r) (le_refl _))
bit_and-fields (suc k) q r h = ground (
  arith,
  double_pow q k,
  pow-suc 2 k,
  one-le-pow k 2,
  bit_and_halves (q * 2 ^ suc k + r) (2 ^ suc k - 1),
  bit_and-fields k q (r / 2),
)

-- A mask of the `k` low bits takes the remainder.
pub bit_and-mask : (k a : ℕ) → bit_and a (2 ^ k - 1) ≡ a % 2 ^ k
bit_and-mask k a = ground (arith, one-le-pow k 2, bit_and-fields k (a / 2 ^ k) (a % 2 ^ k))

-- Two functions that agree at every argument below a bound, checked by evaluation.
module _ (f g : ℕ → ℕ) where
  unfoldable pub agree_below : ℕ → Bool
  unfolding ℕ_discrete
  agree_below zero = true
  agree_below (suc n) = ite (ℕ_discrete (f n) (g n)) (agree_below n) false

  pub agree_below→eq : (n : ℕ) → agree_below n ≡ true → (i : ℕ) → i < n → f i ≡ g i
  unfolding agree_below
  agree_below→eq zero e i h = absurd (omega arith)
  agree_below→eq (suc n) e i h = ground (arith, agree_below→eq n (ground arith) i)

pub and_0x80 : (b : ℕ) → b < 256 → bit_and b 0x80 ≡ b / 128 * 128
unfolding agree_below
and_0x80 = agree_below→eq _ _ 256 refl

pub and_0x40 : (b : ℕ) → b < 256 → bit_and b 0x40 ≡ b / 64 % 2 * 64
unfolding agree_below
and_0x40 = agree_below→eq _ _ 256 refl

pub and_0x60 : (b : ℕ) → b < 256 → bit_and b 0x60 ≡ b / 32 % 4 * 32
unfolding agree_below
and_0x60 = agree_below→eq _ _ 256 refl

pub and_0xe0 : (b : ℕ) → b < 256 → bit_and b 0xe0 ≡ b / 32 * 32
unfolding agree_below
and_0xe0 = agree_below→eq _ _ 256 refl

pub and_0x01 : (b : ℕ) → bit_and b 1 ≡ b % 2
and_0x01 = bit_and-mask 1

pub and_0x03 : (b : ℕ) → bit_and b 3 ≡ b % 4
and_0x03 = bit_and-mask 2

pub and_0x0f : (b : ℕ) → bit_and b 0x0f ≡ b % 16
and_0x0f = bit_and-mask 4

pub and_0x1f : (b : ℕ) → bit_and b 0x1f ≡ b % 32
and_0x1f = bit_and-mask 5

pub and_0x7f : (b : ℕ) → bit_and b 0x7f ≡ b % 128
and_0x7f = bit_and-mask 7

pub and_0xff : (b : ℕ) → bit_and b 0xff ≡ b % 256
and_0xff = bit_and-mask 8

-- `x & ~3` on 64 bits.
pub and_not_3 : (x : ℕ) → x < 2 ^ 64 → bit_and x (2 ^ 64 - 4) ≡ x / 4 * 4
and_not_3 x h = omega (
  arith,
  bit_and_halves x (2 ^ 64 - 4),
  bit_and_halves (x / 2) (2 ^ 63 - 2),
  bit_and-mask 62 (x / 2 / 2),
)

-- `bit_or` is symmetric.
bit_or_comm_below : (n a b : ℕ) → a ≤ n → bit_or a b ≡ bit_or b a
bit_or_comm_below n zero b h =
    omega (arith, zero-bit_or_below b b (le_refl b), bit_or-zero_below b b (le_refl b))
bit_or_comm_below zero (suc a) b h = absurd (omega arith)
bit_or_comm_below (suc n) (suc a) b h = omega (
  arith,
  bit_or_halves (suc a) b,
  bit_or_halves b (suc a),
  bit_or_comm_below n (suc a / 2) (b / 2) (omega arith),
)

pub bit_or_comm : (a b : ℕ) → bit_or a b ≡ bit_or b a
bit_or_comm a b = bit_or_comm_below a a b (le_refl a)

zero-bit_and : (b : ℕ) → bit_and 0 b ≡ 0
zero-bit_and b = simp bit_and-bitwise refl

-- Taking the flags of a mask from `s | (c & m)` and adding them to `s` changes nothing.
absorb_below :
    (n s c m : ℕ)
    → s ≤ n
    → c ≤ n
    → bit_or s (bit_and (bit_or s (bit_and c m)) m) ≡ bit_or s (bit_and c m)
absorb_below zero zero zero m h k =
    let none = zero-bit_and m in
    let nothing : bit_or 0 0 ≡ 0 = zero-bit_or_below 0 0 (le_refl 0) in
    rw (none, nothing, none) nothing
absorb_below zero (suc s) c m h k = absurd (omega arith)
absorb_below zero zero (suc c) m h k = absurd (omega arith)
absorb_below (suc n) s c m h k =
    let a = bit_and c m in
    let x = bit_or s a in
    let y = bit_and x m in
    let z = bit_or s y in
    let half_a : a / 2 ≡ bit_and (c / 2) (m / 2) = omega (arith, bit_and_halves c m) in
    let half_x : x / 2 ≡ bit_or (s / 2) (a / 2) = omega (arith, bit_or_halves s a) in
    let half_y : y / 2 ≡ bit_and (x / 2) (m / 2) = omega (arith, bit_and_halves x m) in
    let half_z : z / 2 ≡ bit_or (s / 2) (y / 2) = omega (arith, bit_or_halves s y) in
    let inner : x / 2 ≡ bit_or (s / 2) (bit_and (c / 2) (m / 2)) =
      half_x ∙ ap (λ (t : ℕ). bit_or (s / 2) t) half_a in
    let halves : z / 2 ≡ x / 2 =
      half_z
      ∙ ap (λ (t : ℕ). bit_or (s / 2) t) (half_y ∙ ap (λ (t : ℕ). bit_and t (m / 2)) inner)
      ∙ absorb_below n (s / 2) (c / 2) (m / 2) (omega arith) (omega arith)
      ∙ sym inner in
    omega
      (arith, halves, bit_and_halves c m, bit_or_halves s a, bit_and_halves x m, bit_or_halves s y)

pub bit_or-absorb :
    (s c m : ℕ) → bit_or s (bit_and (bit_or s (bit_and c m)) m) ≡ bit_or s (bit_and c m)
bit_or-absorb s c m = absorb_below (max s c) s c m (omega arith) (omega arith)

bit_and_assoc_below : (n a b c : ℕ) → a ≤ n → bit_and (bit_and a b) c ≡ bit_and a (bit_and b c)
bit_and_assoc_below n zero b c h =
    ap (λ (t : ℕ). bit_and t c) (zero-bit_and b) ∙ zero-bit_and c ∙ sym (zero-bit_and (bit_and b c))
bit_and_assoc_below zero (suc a) b c h = absurd (omega arith)
bit_and_assoc_below (suc n) (suc a) b c h =
    let x = bit_and (suc a) b in
    let y = bit_and b c in
    let half_x : x / 2 ≡ bit_and (suc a / 2) (b / 2) = omega (arith, bit_and_halves (suc a) b) in
    let half_y : y / 2 ≡ bit_and (b / 2) (c / 2) = omega (arith, bit_and_halves b c) in
    let halves : bit_and (x / 2) (c / 2) ≡ bit_and (suc a / 2) (y / 2) =
      ap (λ (t : ℕ). bit_and t (c / 2)) half_x
      ∙ bit_and_assoc_below n (suc a / 2) (b / 2) (c / 2) (omega arith)
      ∙ ap (λ (t : ℕ). bit_and (suc a / 2) t) (sym half_y) in
    omega (
      arith,
      halves,
      bit_and_halves (suc a) b,
      bit_and_halves b c,
      bit_and_halves x c,
      bit_and_halves (suc a) y,
    )

-- Flags that are taken out are out.
pub bit_and-removed : (a b c : ℕ) → bit_and b c ≡ 0 → bit_and (bit_and a b) c ≡ 0
bit_and-removed a b c apart =
    bit_and_assoc_below a a b c (le_refl a)
    ∙ ap (λ (t : ℕ). bit_and a t) apart
    ∙ bit_and-zero_below a a (le_refl a)
