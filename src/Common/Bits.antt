-- ===== src/Common/Bits.antt =====
-- Masks and shifted fields as plain arithmetic.
use Prim.Native.Nat.{
  ℕ, zero, suc, ◌+◌, ◌-◌, ◌*◌, ◌/◌, ◌%◌, ◌^◌, ◌<◌, bit_and, bit_or, bit_or-bitwise,
}
use mathlib.Core.Path.{◌≡◌, refl, ap}
use mathlib.Core.Bool.{Bool, true, ◌&&◌}
use native.Mathlib.Nat.{pow-suc, one-le-pow}
use native.Mathlib.Omega.{arith}
use ios_college_work.Common.Tests.{◌==◌}
use ios_college_work.Common.Digits.{bit_or-halves, bit_and-halves}

zero-bit_or : (b : ℕ) → bit_or 0 b ≡ b
zero-bit_or b = bit_or-bitwise 0 b

bit_and-zero_below : (n a : ℕ) → a < n → bit_and a 0 ≡ 0
bit_and-zero_below zero a h = absurd (omega arith)
bit_and-zero_below (suc n) zero h = refl
bit_and-zero_below (suc n) (suc a) h =
    omega (arith, bit_and-halves (suc a) 0, bit_and-zero_below n (suc a / 2) (omega arith))

double_shift : (q k : ℕ) → q * 2 ^ suc k ≡ 2 * (q * 2 ^ k)
double_shift q k = omega (arith, ap (λ (t : ℕ). q * t) (pow-suc 2 k))

-- `r | (q << k)` is a sum where `r` fits the low `k` bits.
pub bit_or-shift : (k q r : ℕ) → r < 2 ^ k → bit_or r (q * 2 ^ k) ≡ r + q * 2 ^ k
bit_or-shift zero q r fits = ground (arith, zero-bit_or q)
bit_or-shift (suc k) q r fits = ground (
  arith,
  bit_or-halves r (q * 2 ^ suc k),
  double_shift q k,
  pow-suc 2 k,
  bit_or-shift k q (r / 2) (omega (arith, pow-suc 2 k)),
)

-- The other order, `(q << k) | r`.
pub shift-bit_or : (k q r : ℕ) → r < 2 ^ k → bit_or (q * 2 ^ k) r ≡ r + q * 2 ^ k
shift-bit_or zero q r fits = ground (arith, or-zero_below (suc q) q)
  where
    or-zero_below : (n a : ℕ) → a < n → bit_or a 0 ≡ a
    or-zero_below zero a h = absurd (omega arith)
    or-zero_below (suc n) zero h = refl
    or-zero_below (suc n) (suc a) h =
        omega (arith, bit_or-halves (suc a) 0, or-zero_below n (suc a / 2) (omega arith))
shift-bit_or (suc k) q r fits = ground (
  arith,
  bit_or-halves (q * 2 ^ suc k) r,
  double_shift q k,
  pow-suc 2 k,
  shift-bit_or k q (r / 2) (omega (arith, pow-suc 2 k)),
)

low_field : (k q r : ℕ) → r < 2 ^ k → bit_and (r + q * 2 ^ k) (2 ^ k - 1) ≡ r
low_field zero q r fits = ground (arith, bit_and-zero_below (suc (r + q * 1)) (r + q * 1))
low_field (suc k) q r fits = ground (
  arith,
  bit_and-halves (r + q * 2 ^ suc k) (2 ^ suc k - 1),
  double_shift q k,
  pow-suc 2 k,
  low_field k q (r / 2) (omega (arith, pow-suc 2 k)),
)

-- A mask of `k` ones is the remainder by `2 ^ k`.
pub bit_and-mask : (k a : ℕ) → bit_and a (2 ^ k - 1) ≡ a % 2 ^ k
bit_and-mask k a = ground (arith, one-le-pow k 2, low_field k (a / 2 ^ k) (a % 2 ^ k))

-- Facts about one byte, checked at each of its values.
all_below : ℕ → (ℕ → Bool) → Bool
all_below zero p = true
all_below (suc n) p = p n && all_below n p

all_below_lem : (n : ℕ) (p : ℕ → Bool) (x : ℕ) → all_below n p ≡ true → x < n → p x ≡ true
unfolding all_below
all_below_lem zero p x h lt = absurd (omega arith)
all_below_lem (suc n) p x h lt = ground (arith, all_below_lem n p x)

byte_eq : (f g : ℕ → ℕ) (n x : ℕ) → all_below n (λ b. f b == g b) ≡ true → x < n → f x ≡ g x
byte_eq f g n x table h = ground (arith, all_below_lem n (λ b. f b == g b) x table h)

pub low_bits : (b : ℕ) → bit_and b 0x7f ≡ b % 128
low_bits b = bit_and-mask 7 b

pub top_bit : (b : ℕ) → b < 256 → bit_and b 0x80 ≡ b / 128 * 128
unfolding all_below
top_bit b = byte_eq (λ x. bit_and x 0x80) (λ x. x / 128 * 128) 256 b refl

pub set_top_bit : (b : ℕ) → b < 128 → bit_or b 0x80 ≡ b + 128
unfolding all_below
set_top_bit b = byte_eq (λ x. bit_or x 0x80) (λ x. x + 128) 128 b refl

-- Ones that have been shifted out.
pub ones_shift : (c : ℕ) → c < 33 → (2 ^ 32 - 1) / 2 ^ (32 - c) ≡ 2 ^ c - 1
unfolding all_below
ones_shift c h = byte_eq (λ x. (2 ^ 32 - 1) / 2 ^ (32 - x)) (λ x. 2 ^ x - 1) 33 c refl h
