-- ===== src/Wire/Varint/Encode.antt =====
-- The loop of `pb_encode_varint` produces the groups.
use ios_college_work.Common.{
  ℕ, zero, suc, ◌+◌, ◌/◌, ◌%◌, ◌^◌, ◌≤◌, ◌<◌, ◌≡◌, refl, bit_and, bit_or, some, List, [], ◌∷◌, ltb,
  length, arith, Bool-cases, inl, inr,
}
use ios_college_work.Common.Bits.{low_bits, set_top_bit}
use ios_college_work.Stream.Output.{OStream, pb_write}
use ios_college_work.Wire.Encode.{varint_buffer, clear_last, pb_encode_varint}
use ios_college_work.Wire.Varint.{groups, varint}

inner_byte : (v : ℕ) → bit_or (bit_and v 0x7f) 0x80 % 2 ^ 8 ≡ v % 128 + 128
inner_byte v = rw (low_bits v) (rw (set_top_bit (v % 128) (omega arith)) (omega arith))

-- What the loop has stored in `buffer` for `v`.
record Stored (k v : ℕ) : Type 0 where
  first : ℕ
  others : List ℕ
  buffer : varint_buffer (suc k) v ≡ some (first ∷ others)
  cleared : clear_last (first ∷ others) ≡ groups k v
  size : suc (length others) ≡ length (groups k v)

last_round : (k v : ℕ) → 1 ≤ v → v < 128 → varint_buffer (suc k) v ≡ some ((v + 128) ∷ [])
unfolding varint_buffer
last_round zero v h lt = ground (arith, inner_byte v)
last_round (suc k) v h lt = ground (arith, inner_byte v)

stored : (k v : ℕ) → 1 ≤ v → v < 128 ^ suc k → Stored k v
unfolding varint_buffer clear_last groups
stored zero v h lt = record {
  first = v + 128;
  others = [];
  buffer = last_round zero v h (omega arith);
  cleared = ground (arith, low_bits (v + 128));
  size = refl;
}
stored (suc k) v h lt = elim (Bool-cases (ltb v 128)) [
  | inl small ↦ record {
    first = v + 128;
    others = [];
    buffer = last_round (suc k) v h (ground arith);
    cleared = ground (arith, low_bits (v + 128));
    size = ground arith;
  }
  | inr large ↦
      let ih = stored k (v / 128) (ground arith) (omega arith) in
      record {
        first = v % 128 + 128;
        others = ih.first ∷ ih.others;
        buffer = ground (arith, inner_byte v, ih.buffer);
        cleared = ground (arith, ih.cleared);
        size = ground (arith, ih.size);
      }
]

-- `pb_encode_varint` makes one call of `pb_write`, with the groups of its argument.
pub pb_encode_varint-groups :
    (v : ℕ) (s : OStream)
    → v < 2 ^ 64
    → pb_encode_varint v s ≡ pb_write (varint v) (length (varint v)) s
unfolding pb_encode_varint groups
pb_encode_varint-groups v s h = elim (Bool-cases (ltb v 128)) [
  | inl small ↦ ground arith
  | inr large ↦
      let st = stored 9 v (ground arith) (omega arith) in
      ground (arith, st.buffer, st.cleared, st.size)
]
