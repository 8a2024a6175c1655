-- ===== src/Wire/Safe.antt =====
-- The reading half of the wire format on arbitrary bytes.
use ios_college_work.Common.{
  ℕ, zero, suc, ◌+◌, ◌*◌, ◌%◌, ◌^◌, ◌≤◌, ◌<◌, ◌≡◌, Bool-cases, inl, inr, if◌then◌else◌, leb, le→leb,
  ◌==◌, bit_and, Option, List, [], ◌∷◌, length, arith, ok,
}
use native.Mathlib.Decide.{dec_lt}
use ios_college_work.Stream.Errors.{Error}
use ios_college_work.Stream.Input.{pb_read_null, pb_readbyte}
use ios_college_work.Stream.Buffers.{input, pb_read-short}
use ios_college_work.Stream.Safe.{
  Safe, Safe-trans, SafeCmd, Left-here, SafeCmd-bind, SafeCmd-ok, SafeCmd-if, Safe-if, Safe-pick,
  pb_readbyte-Safe, pb_read_null-Safe,
}
use ios_college_work.Stream.Reads.{pb_read-Reads}
use native.Mathlib.Numerals.{sub-one}
use ios_college_work.Wire.Encode.{wt_varint, wt_64bit, wt_string, wt_32bit}
use ios_college_work.Wire.Decode.{
  add_group, varint_loop, pb_decode_varint32, pb_decode_varint, pb_skip_string, pb_skip_varint,
  skip_varint_loop, pb_skip_field,
}

varint_loop_round :
    (width fuel b acc : ℕ)
    → ((byte : ℕ) → SafeCmd (varint_loop width fuel ((b + 7) % 2 ^ 8) (add_group width acc byte b)))
    → SafeCmd (varint_loop width (suc fuel) b acc)
unfolding varint_loop
varint_loop_round width fuel b acc next xs n e fits = elim (Bool-cases (leb width b)) [
  | inl over ↦ rw over (Left-here xs n _)
  | inr more ↦ rw more (
      SafeCmd-bind pb_readbyte _ pb_readbyte-Safe
        (λ byte.
          SafeCmd-if (bit_and byte 0x80 == 0) (ok (add_group width acc byte b)) _
            (SafeCmd-ok (add_group width acc byte b)) (next byte))
        xs n e fits)
]

-- Seven bits a round reach the width before the fuel is used up.
pub varint_loop-Safe :
    (width fuel b acc : ℕ)
    → width ≤ 64
    → b < width + 7
    → width + 7 ≤ b + 7 * fuel
    → SafeCmd (varint_loop width fuel b acc)
varint_loop-Safe width zero b acc hw hb enough = absurd (omega arith)
varint_loop-Safe width (suc fuel) b acc hw hb enough = elim (dec_lt b width) [
  | yes h ↦ varint_loop_round width fuel b acc (λ byte.
      varint_loop-Safe width fuel ((b + 7) % 2 ^ 8) (add_group width acc byte b) hw (omega arith)
        (omega arith))
  | no h ↦ λ xs n e fits. unfold varint_loop in rw (le→leb width b (omega arith)) (Left-here xs n _)
]

-- Whatever the bytes of the buffer are, `pb_decode_varint` returns, and takes at most `bytes_left` of them,
-- if the buffer holds as many.
pub pb_decode_varint-Safe :
    (xs : List ℕ) (n : ℕ) (e : Option Error)
    → n ≤ length xs
    → Safe xs n (pb_decode_varint (input xs n e))
unfolding pb_decode_varint
pb_decode_varint-Safe = varint_loop-Safe 64 11 0 0 (omega arith) (omega arith) (omega arith)

pub pb_decode_varint32-Safe : SafeCmd pb_decode_varint32
unfolding pb_decode_varint32
pb_decode_varint32-Safe = SafeCmd-bind pb_readbyte _ pb_readbyte-Safe λ byte.
    SafeCmd-if (bit_and byte 0x80 == 0) (ok byte) _ (SafeCmd-ok byte)
      (varint_loop-Safe 32 6 7 (bit_and byte 0x7f) (omega arith) (omega arith) (omega arith))

skip_step :
    (fuel b : ℕ) (xs : List ℕ) (n : ℕ) (e : Option Error)
    → skip_varint_loop (suc fuel) (input (b ∷ xs) (suc n) e)
      ≡ (if bit_and b 0x80 == 0 then ok tt else skip_varint_loop fuel) (input xs n e)
unfolding skip_varint_loop
skip_step fuel b xs n e = ground (arith, pb_read-Reads (b ∷ []) xs n e)

-- Each round takes a byte, so more rounds than bytes are enough.
skip_varint_loop-Safe :
    (fuel : ℕ) (xs : List ℕ) (n : ℕ) (e : Option Error)
    → n < fuel
    → n ≤ length xs
    → Safe xs n (skip_varint_loop fuel (input xs n e))
skip_varint_loop-Safe zero xs n e more fits = absurd (omega arith)
skip_varint_loop-Safe (suc fuel) xs zero e more fits =
    unfold skip_varint_loop in rw (pb_read-short xs 1 0 e (omega arith)) (Left-here xs 0 _)
skip_varint_loop-Safe (suc fuel) [] (suc n) e more fits = absurd (omega arith)
skip_varint_loop-Safe (suc fuel) (b ∷ xs) (suc n) e more fits = rw (skip_step fuel b xs n e) (
    Safe-trans (b ∷ xs) (suc n) 1 _ (omega arith) (
      rw sub-one (
        Safe-if xs n (bit_and b 0x80 == 0) (ok tt) (skip_varint_loop fuel) (input xs n e)
          (Left-here xs n e) (skip_varint_loop-Safe fuel xs n e (omega arith) (omega arith)))))

pub pb_skip_varint-Safe : SafeCmd pb_skip_varint
unfolding pb_skip_varint
pb_skip_varint-Safe xs n e fits = skip_varint_loop-Safe (suc n) xs n e (omega arith) fits

pub pb_skip_string-Safe : SafeCmd pb_skip_string
unfolding pb_skip_string
pb_skip_string-Safe =
    SafeCmd-bind pb_decode_varint32 pb_read_null pb_decode_varint32-Safe pb_read_null-Safe

-- Whatever the bytes of the buffer and the wire type are, `pb_skip_field` returns, and takes at most
-- `bytes_left` bytes, if the buffer holds as many.
pub pb_skip_field-Safe :
    (wire_type : ℕ) (xs : List ℕ) (n : ℕ) (e : Option Error)
    → n ≤ length xs
    → Safe xs n (pb_skip_field wire_type (input xs n e))
unfolding pb_skip_field
pb_skip_field-Safe w xs n e fits =
    Safe-pick xs n (w == wt_varint) _ _ (pb_skip_varint-Safe xs n e fits) (
      Safe-pick xs n (w == wt_64bit) _ _ (pb_read_null-Safe 8 xs n e fits) (
        Safe-pick xs n (w == wt_string) _ _ (pb_skip_string-Safe xs n e fits) (
          Safe-pick xs n (w == wt_32bit) _ _ (pb_read_null-Safe 4 xs n e fits) (Left-here xs n _))))
