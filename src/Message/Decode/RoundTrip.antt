-- ===== src/Message/Decode/RoundTrip.antt =====
-- What the field encoders of pb_encode.c write for a word in memory, the field decoders of pb_decode.c
-- store again.
use ios_college_work.Common.{
  ℕ, ◌+◌, ◌-◌, ◌*◌, ◌%◌, ◌^◌, ◌≤◌, ◌<◌, ◌≡◌, ap, ◌∙◌, true, ltb, ◌==◌, if◌then◌else◌, Option, none,
  List, ◌++◌, length, arith, ok, inl, inr, Bool-cases, sym,
}
use mathlib.Core.Path.{subst}
use ios_college_work.Stream.Errors.{Error}
use ios_college_work.Stream.Buffers.{input, output}
use ios_college_work.Stream.Writes.{HasRoom}
use ios_college_work.Wire.Varint.{varint}
use ios_college_work.Wire.Scalars.Varint.{pb_encode_varint-Writes, pb_decode_varint-Reads}
use ios_college_work.Wire.Scalars.Zigzag.{pb_encode_svarint-Writes, pb_decode_svarint-Reads}
use ios_college_work.Wire.Encode.{zigzagged}
use ios_college_work.Message.Memory.{Mem, load, sign_extend}
use ios_college_work.Message.Field.{Field}
use ios_college_work.Message.Encode.Items.{
  is_word_size, pb_enc_uvarint, pb_enc_varint, pb_enc_svarint,
}
use ios_college_work.Message.Encode.Contract.Items.{IsMem, load-lt, word-cases}
use ios_college_work.Message.Decode.Machine.{
  machine, on_memory, on_stream, store, write, load-store, load-store_high,
}
use ios_college_work.Message.Decode.Items.{
  clamp, same_number, put_unsigned, pb_dec_uvarint, put_signed, pb_dec_varint, pb_dec_svarint,
}

-- To show something of words of any width, show it of the four widths.
each_width : (P : ℕ → Type 0) → P 1 → P 2 → P 4 → P 8 → (d : ℕ) → is_word_size d ≡ true → P d
each_width P one two four eight d w = elim (word-cases d w) [
  | inl e ↦ subst P (sym e) one
  | inr (inl e) ↦ subst P (sym e) two
  | inr (inr (inl e)) ↦ subst P (sym e) four
  | inr (inr (inr e)) ↦ subst P (sym e) eight
]

-- An unsigned word fits a `uint64_t`, and its own width.
pub unsigned_word :
    (v d : ℕ) → is_word_size d ≡ true → v < 256 ^ d → (v < 2 ^ 64) × (v % 2 ^ (8 * d) ≡ v)
unsigned_word v =
    each_width (λ d. v < 256 ^ d → (v < 2 ^ 64) × (v % 2 ^ (8 * d) ≡ v)) (λ h. omega (arith, h))
      (λ h. omega (arith, h)) (λ h. omega (arith, h)) (λ h. omega (arith, h))

-- A signed word, as an `int64_t`, survives the casts of `pb_dec_varint`, and its low bytes are the word.
pub record IsSigned (d v x : ℕ) : Type 0 where
  pub small : x < 2 ^ 64
  cast : (if d == 8 then x else clamp 32 x) ≡ x
  clamped : clamp (8 * d) x ≡ x
  high : ℕ
  word : x ≡ v + high * 256 ^ d

pub IsSigned-word :
    (v d : ℕ) → is_word_size d ≡ true → v < 256 ^ d → IsSigned d v (sign_extend (8 * d) v)
unfolding sign_extend
IsSigned-word v =
    each_width (λ d. v < 256 ^ d → IsSigned d v (sign_extend (8 * d) v))
      (λ h. elim (Bool-cases (ltb v (2 ^ 7))) [
        | inl t ↦ record {
          small = ground arith;
          cast = ground arith;
          clamped = ground arith;
          high = 0;
          word = ground arith;
        }
        | inr t ↦ record {
          small = ground arith;
          cast = ground arith;
          clamped = ground arith;
          high = 2 ^ 56 - 1;
          word = ground arith;
        }
      ])
      (λ h. elim (Bool-cases (ltb v (2 ^ 15))) [
        | inl t ↦ record {
          small = ground arith;
          cast = ground arith;
          clamped = ground arith;
          high = 0;
          word = ground arith;
        }
        | inr t ↦ record {
          small = ground arith;
          cast = ground arith;
          clamped = ground arith;
          high = 2 ^ 48 - 1;
          word = ground arith;
        }
      ])
      (λ h. elim (Bool-cases (ltb v (2 ^ 31))) [
        | inl t ↦ record {
          small = ground arith;
          cast = ground arith;
          clamped = ground arith;
          high = 0;
          word = ground arith;
        }
        | inr t ↦ record {
          small = ground arith;
          cast = ground arith;
          clamped = ground arith;
          high = 2 ^ 32 - 1;
          word = ground arith;
        }
      ])
      (λ h. record {
        small = ground arith;
        cast = ground arith;
        clamped = ground arith;
        high = 0;
        word = ground arith;
      })

-- The `int64_t` of the signed word of a field.
abbrev pub signed_at : Mem → Field → ℕ → ℕ
signed_at m field src = sign_extend (8 * field.data_size) (load m src field.data_size)

-- A signed word reads back as the word that it comes from.
signed-load :
    {m : Mem}
    → IsMem m
    → (field : Field) (src dest : ℕ) (m' : Mem) → is_word_size field.data_size ≡ true
    → load (store m' dest field.data_size (signed_at m field src)) dest field.data_size
      ≡ load m src field.data_size
signed-load {m} mem field src dest m' w =
    let lt = load-lt mem src field.data_size in
    let i = IsSigned-word (load m src field.data_size) field.data_size w lt in
    ap (λ (x : ℕ). load (store m' dest field.data_size x) dest field.data_size) i.word
    ∙ load-store_high m' dest field.data_size (load m src field.data_size) i.high lt

module _ (xs : List ℕ) (room max_size written : ℕ) (h : HasRoom room max_size written) where
  module _ {m : Mem} (mem : IsMem m) (m' : Mem) (rest : List ℕ) (n : ℕ) (e : Option Error) where
    -- For a field of 1, 2, 4 or 8 bytes, the varint that `pb_enc_uvarint` appends for the word at `src`, on a
    -- memory buffer with room for it, is what `pb_dec_uvarint` takes; it succeeds, and stores at `dest` a word
    -- that reads as the one at `src`.
    pub uvarint_item-roundtrip :
        (field : Field) (src dest : ℕ)
        → is_word_size field.data_size ≡ true
        → written + length (varint (load m src field.data_size)) ≤ max_size
        → (pb_enc_uvarint m field src (output xs room max_size written none)
            ≡ ok tt (
                output
                  (xs ++ varint (load m src field.data_size))
                  (room - length (varint (load m src field.data_size)))
                  max_size
                  (written + length (varint (load m src field.data_size)))
                  none))
          × (pb_dec_uvarint field dest (
                machine
                  (input
                    (varint (load m src field.data_size) ++ rest)
                    (length (varint (load m src field.data_size)) + n)
                    e)
                  m')
              ≡ ok tt (
                  machine
                    (input rest n e)
                    (store m' dest field.data_size (load m src field.data_size))))
          × (load (store m' dest field.data_size (load m src field.data_size)) dest field.data_size
              ≡ load m src field.data_size)
    unfolding pb_enc_uvarint pb_dec_uvarint put_unsigned on_stream on_memory same_number write
    uvarint_item-roundtrip field src dest w fits =
        let lt = load-lt mem src field.data_size in
        let u = unsigned_word (load m src field.data_size) field.data_size w lt in
        (
          rw w (
              (pb_encode_varint-Writes (load m src field.data_size) u.0).stores xs room max_size
                written h fits),
          rw (pb_decode_varint-Reads (load m src field.data_size) u.0 rest n e, w)
              (rw u.1 (ground arith)),
          load-store m' dest field.data_size (load m src field.data_size) lt,
        )

    -- For a field of 1, 2, 4 or 8 bytes, the varint that `pb_enc_varint` appends for the signed word at `src`, on
    -- a memory buffer with room for it, is what `pb_dec_varint` takes; it succeeds, and stores at `dest` a word that
    -- reads as the one at `src`.
    pub varint_item-roundtrip :
        (field : Field) (src dest : ℕ)
        → is_word_size field.data_size ≡ true
        → written + length (varint (signed_at m field src)) ≤ max_size
        → (pb_enc_varint m field src (output xs room max_size written none)
            ≡ ok tt (
                output
                  (xs ++ varint (signed_at m field src))
                  (room - length (varint (signed_at m field src)))
                  max_size
                  (written + length (varint (signed_at m field src)))
                  none))
          × (pb_dec_varint field dest (
                machine
                  (input
                    (varint (signed_at m field src) ++ rest)
                    (length (varint (signed_at m field src)) + n)
                    e)
                  m')
              ≡ ok tt (
                  machine (input rest n e) (store m' dest field.data_size (signed_at m field src))))
          × (load (store m' dest field.data_size (signed_at m field src)) dest field.data_size
              ≡ load m src field.data_size)
    unfolding pb_enc_varint pb_dec_varint put_signed on_stream on_memory same_number write
    varint_item-roundtrip field src dest w fits =
        let i =
          IsSigned-word (load m src field.data_size) field.data_size w
            (load-lt mem src field.data_size) in
        (
          rw w (
              (pb_encode_varint-Writes (signed_at m field src) i.small).stores xs room max_size
                written h fits),
          rw (pb_decode_varint-Reads (signed_at m field src) i.small rest n e, i.cast, w, i.clamped)
              (ground arith),
          signed-load mem field src dest m' w,
        )

    -- For a field of 1, 2, 4 or 8 bytes, the zigzagged varint that `pb_enc_svarint` appends for the signed word at `src`, on
    -- a memory buffer with room for it, is what `pb_dec_svarint` takes; it succeeds, and stores at `dest` a word that
    -- reads as the one at `src`.
    pub svarint_item-roundtrip :
        (field : Field) (src dest : ℕ)
        → is_word_size field.data_size ≡ true
        → written + length (varint (zigzagged (signed_at m field src))) ≤ max_size
        → (pb_enc_svarint m field src (output xs room max_size written none)
            ≡ ok tt (
                output
                  (xs ++ varint (zigzagged (signed_at m field src)))
                  (room - length (varint (zigzagged (signed_at m field src))))
                  max_size
                  (written + length (varint (zigzagged (signed_at m field src))))
                  none))
          × (pb_dec_svarint field dest (
                machine
                  (input
                    (varint (zigzagged (signed_at m field src)) ++ rest)
                    (length (varint (zigzagged (signed_at m field src))) + n)
                    e)
                  m')
              ≡ ok tt (
                  machine (input rest n e) (store m' dest field.data_size (signed_at m field src))))
          × (load (store m' dest field.data_size (signed_at m field src)) dest field.data_size
              ≡ load m src field.data_size)
    unfolding pb_enc_svarint pb_dec_svarint put_signed on_stream on_memory same_number write
    svarint_item-roundtrip field src dest w fits =
        let i =
          IsSigned-word (load m src field.data_size) field.data_size w
            (load-lt mem src field.data_size) in
        (
          rw w (
              (pb_encode_svarint-Writes (signed_at m field src) i.small).stores xs room max_size
                written h fits),
          rw (pb_decode_svarint-Reads (signed_at m field src) i.small rest n e, w, i.clamped)
              (ground arith),
          signed-load mem field src dest m' w,
        )
