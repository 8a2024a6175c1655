-- ===== src/Wire/Scalars/Fixed.antt =====
-- `pb_encode_fixed32`, `pb_encode_fixed64` and the functions that read them.
use ios_college_work.Common.{
  ℕ, ◌+◌, ◌*◌, ◌/◌, ◌%◌, ◌^◌, ◌<◌, ◌≡◌, ap, ◌∙◌, List, [], ◌∷◌, arith, All,
}
use native.Mathlib.Numerals.{towards_suc}
use ios_college_work.Common.Bits.{bit_and-mask, bit_or-shift}
use ios_college_work.Stream.Writes.{Writes, pb_write-Writes}
use ios_college_work.Stream.Input.{pb_read}
use ios_college_work.Stream.Reads.{Reads, pb_read-Reads}
use ios_college_work.Wire.Encode.{
  byte_at, fixed32_bytes, fixed64_bytes, pb_encode_fixed32, pb_encode_fixed64,
}
use ios_college_work.Wire.Decode.{assemble, pb_decode_fixed32, pb_decode_fixed64}

-- The number that bytes stand for, the lowest first.
abbrev pub little_endian : List ℕ → ℕ
little_endian [] = 0
little_endian (b ∷ bs) = b + 256 * little_endian bs

abbrev pub IsByte : ℕ → Type 0
IsByte b = b < 256

eight_more : (s : ℕ) → 2 ^ (s + 8) ≡ 256 * 2 ^ s
eight_more s = simp towards_suc (omega arith)

-- Shifting and `|` put bytes together as the sum of their places.
pub assemble-little_endian :
    (shift value : ℕ) (bs : List ℕ)
    → value < 2 ^ shift
    → All IsByte bs
    → assemble shift value bs ≡ value + little_endian bs * 2 ^ shift
unfolding assemble
assemble-little_endian shift value [] low h = omega arith
assemble-little_endian shift value (b ∷ bs) low h = rw (bit_or-shift shift b value low) (
    assemble-little_endian (shift + 8) (value + b * 2 ^ shift) bs (grind (arith, eight_more shift))
      h.1
    ∙ omega (arith, ap (λ (t : ℕ). little_endian bs * t) (eight_more shift)))

pub byte_at_lem : (v k : ℕ) → byte_at v k ≡ v / 2 ^ k % 256
byte_at_lem v k = rw (bit_and-mask 8 (v / 2 ^ k)) (omega arith)

pub fixed32_bytes_lem :
    (v : ℕ) → v < 2 ^ 32 → All IsByte (fixed32_bytes v) × (little_endian (fixed32_bytes v) ≡ v)
unfolding fixed32_bytes
fixed32_bytes_lem v h =
    ground (arith, byte_at_lem v 0, byte_at_lem v 8, byte_at_lem v 16, byte_at_lem v 24)

pub fixed64_bytes_lem :
    (v : ℕ) → v < 2 ^ 64 → All IsByte (fixed64_bytes v) × (little_endian (fixed64_bytes v) ≡ v)
unfolding fixed64_bytes
fixed64_bytes_lem v h = ground (
  arith,
  byte_at_lem v 0,
  byte_at_lem v 8,
  byte_at_lem v 16,
  byte_at_lem v 24,
  byte_at_lem v 32,
  byte_at_lem v 40,
  byte_at_lem v 48,
  byte_at_lem v 56,
)

pub pb_encode_fixed32-Writes : (v : ℕ) → Writes (pb_encode_fixed32 v) (fixed32_bytes v)
unfolding pb_encode_fixed32 fixed32_bytes
pb_encode_fixed32-Writes v = pb_write-Writes (fixed32_bytes v)

pub pb_encode_fixed64-Writes : (v : ℕ) → Writes (pb_encode_fixed64 v) (fixed64_bytes v)
unfolding pb_encode_fixed64 fixed64_bytes
pb_encode_fixed64-Writes v = pb_write-Writes (fixed64_bytes v)

assembled : (v : ℕ) (bs : List ℕ) → All IsByte bs × (little_endian bs ≡ v) → assemble 0 0 bs ≡ v
assembled v bs h = assemble-little_endian 0 0 bs (omega arith) h.0 ∙ omega (arith, h.1)

read32 : (v : ℕ) → Reads (pb_read 4) (fixed32_bytes v) (fixed32_bytes v)
unfolding fixed32_bytes
read32 v = pb_read-Reads (fixed32_bytes v)

pub pb_decode_fixed32-Reads : (v : ℕ) → v < 2 ^ 32 → Reads pb_decode_fixed32 (fixed32_bytes v) v
unfolding pb_decode_fixed32
pb_decode_fixed32-Reads v h rest n e =
    rw (read32 v rest n e, assembled v (fixed32_bytes v) (fixed32_bytes_lem v h))

read64 : (v : ℕ) → Reads (pb_read 8) (fixed64_bytes v) (fixed64_bytes v)
unfolding fixed64_bytes
read64 v = pb_read-Reads (fixed64_bytes v)

pub pb_decode_fixed64-Reads : (v : ℕ) → v < 2 ^ 64 → Reads pb_decode_fixed64 (fixed64_bytes v) v
unfolding pb_decode_fixed64
pb_decode_fixed64-Reads v h rest n e =
    rw (read64 v rest n e, assembled v (fixed64_bytes v) (fixed64_bytes_lem v h))
