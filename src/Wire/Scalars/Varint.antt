-- ===== src/Wire/Scalars/Varint.antt =====
-- `pb_encode_varint`, `pb_decode_varint` and `pb_decode_varint32`.
use ios_college_work.Common.{
  ℕ, zero, suc, ◌+◌, ◌*◌, ◌/◌, ◌%◌, ◌^◌, ◌≤◌, ◌<◌, ◌≡◌, refl, ap, ◌∙◌, Option, List, ◌++◌, ltb,
  length, arith, Bool-cases, inl, inr, ok,
}
use ios_college_work.Common.Bits.{low_bits, top_bit}
use ios_college_work.Stream.Errors.{Error}
use ios_college_work.Stream.Buffers.{input, pb_readbyte-input}
use ios_college_work.Stream.Writes.{Writes, Writes-eq, pb_write-Writes}
use ios_college_work.Stream.Reads.{Reads}
use ios_college_work.Wire.Encode.{pb_encode_varint}
use ios_college_work.Wire.Decode.{varint_loop, pb_decode_varint, pb_decode_varint32}
use ios_college_work.Wire.Varint.{groups, varint}
use ios_college_work.Wire.Varint.Encode.{pb_encode_varint-groups}
use ios_college_work.Wire.Varint.Decode.{varint_loop-groups}

pub pb_encode_varint-Writes : (v : ℕ) → v < 2 ^ 64 → Writes (pb_encode_varint v) (varint v)
pb_encode_varint-Writes v h =
    Writes-eq (λ s. pb_encode_varint-groups v s h) (pb_write-Writes (varint v))

pub pb_decode_varint-Reads : (v : ℕ) → v < 2 ^ 64 → Reads pb_decode_varint (varint v) v
unfolding pb_decode_varint
pb_decode_varint-Reads v h rest n e =
    varint_loop-groups 64 e 9 11 0 0 v rest n (omega arith) (omega arith) (omega arith)
      (omega arith) (omega arith) (omega arith)
    ∙ ap (λ (t : ℕ). ok t (input rest n e)) (omega arith)

-- Groups that are not needed are not written.
pub groups-fewer : (j k v : ℕ) → j ≤ k → v < 128 ^ suc j → groups k v ≡ groups j v
unfolding groups
groups-fewer zero zero v h small = refl
groups-fewer zero (suc k) v h small = ground arith
groups-fewer (suc j) zero v h small = absurd (omega arith)
groups-fewer (suc j) (suc k) v h small =
    ground (arith, groups-fewer j k (v / 128) (omega arith) (omega arith))

-- The loop behind the first byte.
long_varint32 :
    (w g : ℕ) (rest : List ℕ) (n : ℕ) (e : Option Error)
    → g < 128
    → g + w * 2 ^ 7 < 2 ^ 32
    → varint_loop 32 6 7 g (input (groups 8 w ++ rest) (length (groups 8 w) + n) e)
      ≡ ok (g + w * 2 ^ 7) (input rest n e)
long_varint32 w g rest n e hg fits = rw (groups-fewer 4 8 w (omega arith) (omega arith)) (
    varint_loop-groups 32 e 4 6 7 g w rest n (omega arith) (omega arith) (omega arith) (omega arith)
      (omega arith) (omega arith))

pub pb_decode_varint32-Reads : (v : ℕ) → v < 2 ^ 32 → Reads pb_decode_varint32 (varint v) v
unfolding pb_decode_varint32 groups
pb_decode_varint32-Reads v h rest n e = elim (Bool-cases (ltb v 128)) [
  | inl small ↦ ground (arith, pb_readbyte-input v rest n e, top_bit v)
  | inr large ↦ ground (
    arith,
    pb_readbyte-input (v % 128 + 128) (groups 8 (v / 128) ++ rest) (length (groups 8 (v / 128)) + n)
        e,
    top_bit (v % 128 + 128),
    low_bits (v % 128 + 128),
    long_varint32 (v / 128) (v % 128) rest n e,
  )
]
