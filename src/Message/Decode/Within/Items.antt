-- ===== src/Message/Decode/Within/Items.antt =====
-- The functions of PB_DECODERS within the region of a message.
use ios_college_work.Common.{
  ℕ, ◌-◌, ◌≤◌, ◌≡◌, ◌⊎◌, inl, inr, true, false, Bool-cases, leb, ◌==◌, if◌then◌else◌, arith, Cmd,
  ok, ◌>>=◌,
}
use ios_college_work.Stream.Input.{IStream, pb_read}
use ios_college_work.Wire.Decode.{
  pb_decode_varint, pb_decode_svarint, pb_decode_fixed32, pb_decode_fixed64, unzigzag, assemble,
}
use ios_college_work.Message.Field.{
  Field, pb_ltype, ltype_varint, ltype_uvarint, ltype_svarint, ltype_fixed32, ltype_fixed64,
  ltype_bytes, ltype_string, ltype_submessage, ltype_fixed_length_bytes, ltype_last_packable,
}
use ios_college_work.Message.Decode.Machine.{on_memory, on_stream, write}
use ios_college_work.Message.Decode.Env.{DecodeEnv, Nested}
use ios_college_work.Message.Decode.Items.{
  put_signed, put_unsigned, clamp, pb_dec_bytes, pb_dec_string, pb_dec_fixed_length_bytes,
  pb_dec_varint, pb_dec_uvarint, pb_dec_svarint, pb_dec_fixed32, pb_dec_fixed64,
}
use ios_college_work.Message.Decode.Nest.{pb_dec_submessage, pb_decoder}
use ios_college_work.Message.Decode.Contained.Items.{
  put_signed-Contained, put_unsigned-Contained, pb_dec_bytes-Contained, pb_dec_string-Contained,
  pb_dec_fixed_length_bytes-Contained,
}
use ios_college_work.Message.Decode.Layout.{Inside}
use ios_college_work.Message.Decode.Within.{WithinCmd, Any, bind-Within, ok-Within}
use ios_college_work.Message.Decode.Within.Steps.{write-Within, less-Within, field-Within}
use ios_college_work.Message.Decode.Within.Numbers.{
  stream-Within, pb_read-Within, Bytes, pb_decode_varint-Within,
}

module _ (lo len : ℕ) where
  svarint-Within : (most : ℕ) → WithinCmd lo len (Any {A = ℕ}) 1 most (on_stream pb_decode_svarint)
  unfolding pb_decode_svarint on_stream on_memory
  svarint-Within most =
      stream-Within lo len (Any {A = ℕ}) (Any {A = ℕ}) 1 most pb_decode_varint
        (λ value. ok (unzigzag value)) (pb_decode_varint-Within lo len most)
        (λ value _. ok-Within lo len (Any {A = ℕ}) (most - 1) (unzigzag value) tt)

  word-Within :
      (most size : ℕ)
      → 1 ≤ size
      → WithinCmd lo len
          (Any {A = ℕ})
          1
          most
          (on_stream (pb_read size >>= (λ bytes. ok (assemble 0 0 bytes))))
  unfolding on_stream on_memory
  word-Within most size some =
      less-Within lo len (Any {A = ℕ}) size 1 most most
        (on_stream (pb_read size >>= (λ bytes. ok (assemble 0 0 bytes)))) some (omega arith)
        (stream-Within lo len (Bytes lo len size) (Any {A = ℕ}) size most (pb_read size)
          (λ bytes. ok (assemble 0 0 bytes)) (pb_read-Within lo len most size)
          (λ bytes _. ok-Within lo len (Any {A = ℕ}) (most - size) (assemble 0 0 bytes) tt))

  module _ (field : Field) (dest : ℕ) (inside : Inside lo len dest field.data_size) where
    signed-Within :
        (most : ℕ) (c : Cmd IStream ℕ) (f : ℕ → ℕ)
        → WithinCmd lo len (Any {A = ℕ}) 1 most (on_stream c)
        → WithinCmd lo len
            (Any {A = Unit {0}})
            1
            most
            (on_stream c >>= (λ v. put_signed field dest (f v)))
    signed-Within most c f first =
        bind-Within lo len (Any {A = ℕ}) (Any {A = Unit {0}}) 1 most (on_stream c)
          (λ v. put_signed field dest (f v)) first
          (λ v _.
            field-Within lo len dest field.data_size (most - 1) (put_signed field dest (f v)) inside
              (put_signed-Contained field dest (f v)))

    unsigned-Within :
        (most : ℕ)
        → WithinCmd lo len
            (Any {A = Unit {0}})
            1
            most
            (on_stream pb_decode_varint >>= put_unsigned field dest)
    unsigned-Within most =
        bind-Within lo len (Any {A = ℕ}) (Any {A = Unit {0}}) 1 most (on_stream pb_decode_varint)
          (put_unsigned field dest) (pb_decode_varint-Within lo len most)
          (λ v _.
            field-Within lo len dest field.data_size (most - 1) (put_unsigned field dest v) inside
              (put_unsigned-Contained field dest v))

    fixed-Within :
        (most size : ℕ)
        → 1 ≤ size
        → size ≤ field.data_size
        → WithinCmd lo len
            (Any {A = Unit {0}})
            1
            most
            (on_stream (pb_read size >>= (λ bytes. ok (assemble 0 0 bytes))) >>= write dest size)
    fixed-Within most size some le =
        bind-Within lo len (Any {A = ℕ}) (Any {A = Unit {0}}) 1 most
          (on_stream (pb_read size >>= (λ bytes. ok (assemble 0 0 bytes)))) (write dest size)
          (word-Within most size some)
          (λ v _. write-Within lo len (most - 1) dest size v (ground (arith, inside)))

    module _ (depth : ℕ) (env : DecodeEnv) (noinit : Nested)
        (four : pb_ltype field.type ≡ ltype_fixed32 → 4 ≤ field.data_size)
        (eight : pb_ltype field.type ≡ ltype_fixed64 → 8 ≤ field.data_size) where
      -- A number that may be packed takes a byte at least.
      pub number-Within :
          (most : ℕ)
          → pb_ltype field.type ≤ ltype_last_packable
          → WithinCmd lo len (Any {A = Unit {0}}) 1 most (pb_decoder depth env noinit field dest)
      unfolding pb_decoder pb_dec_varint pb_dec_uvarint pb_dec_svarint pb_dec_fixed32 pb_dec_fixed64
          pb_decode_fixed32 pb_decode_fixed64
      number-Within most packable = elim (Bool-cases (pb_ltype field.type == ltype_varint)) [
        | inl t0 ↦ rw t0 (
            signed-Within most pb_decode_varint
              (λ v. if field.data_size == 8 then v else clamp 32 v)
              (pb_decode_varint-Within lo len most))
        | inr t0 ↦ elim (Bool-cases (pb_ltype field.type == ltype_uvarint)) [
          | inl t1 ↦ rw (t0, t1) (unsigned-Within most)
          | inr t1 ↦ elim (Bool-cases (pb_ltype field.type == ltype_svarint)) [
            | inl t2 ↦
                rw (t0, t1, t2)
                  (signed-Within most pb_decode_svarint (λ v. v) (svarint-Within most))
            | inr t2 ↦ elim (Bool-cases (pb_ltype field.type == ltype_fixed32)) [
              | inl t3 ↦
                  rw (t0, t1, t2, t3) (fixed-Within most 4 (omega arith) (four (ground arith)))
              | inr t3 ↦
                  let t4 : (pb_ltype field.type == ltype_fixed64) ≡ true = ground arith in
                  rw (t0, t1, t2, t3, t4) (fixed-Within most 8 (omega arith) (eight (ground arith)))
            ]
          ]
        ]
      ]

      rest-Within :
          (most : ℕ)
          → (leb (pb_ltype field.type) ltype_last_packable) ≡ false
          → (pb_ltype field.type ≤ ltype_submessage)
            ⊎ (pb_ltype field.type ≡ ltype_fixed_length_bytes)
          → (pb_ltype field.type ≡ ltype_submessage
              → WithinCmd lo len
                  (Any {A = Unit {0}})
                  0
                  most
                  (pb_dec_submessage depth env noinit field dest))
          → WithinCmd lo len (Any {A = Unit {0}}) 0 most (pb_decoder depth env noinit field dest)
      unfolding pb_decoder
      rest-Within most above known nested =
          let t0 : (pb_ltype field.type == ltype_varint) ≡ false = ground arith in
          let t1 : (pb_ltype field.type == ltype_uvarint) ≡ false = ground arith in
          let t2 : (pb_ltype field.type == ltype_svarint) ≡ false = ground arith in
          let t3 : (pb_ltype field.type == ltype_fixed32) ≡ false = ground arith in
          let t4 : (pb_ltype field.type == ltype_fixed64) ≡ false = ground arith in
          rw (t0, t1, t2, t3, t4)
            (elim (Bool-cases (pb_ltype field.type == ltype_bytes)) [
              | inl u0 ↦ rw u0 (
                  field-Within lo len dest field.data_size most (pb_dec_bytes field dest) inside
                    (pb_dec_bytes-Contained field dest))
              | inr u0 ↦ elim (Bool-cases (pb_ltype field.type == ltype_string)) [
                | inl u1 ↦
                    rw (u0, u1)
                      (field-Within lo len dest field.data_size most (pb_dec_string field dest)
                        inside (pb_dec_string-Contained field dest))
                | inr u1 ↦ elim (Bool-cases (pb_ltype field.type == ltype_submessage)) [
                  | inl u2 ↦ rw (u0, u1, u2) (nested (ground arith))
                  | inr u2 ↦
                      let u3 : (pb_ltype field.type == ltype_fixed_length_bytes) ≡ true =
                        ground (arith, known) in
                      rw (u0, u1, u2, u3)
                        (field-Within lo len dest field.data_size most
                          (pb_dec_fixed_length_bytes field dest) inside
                          (pb_dec_fixed_length_bytes-Contained field dest))
                ]
              ]
            ])

      pub pb_decoder-Within :
          (most : ℕ)
          → (pb_ltype field.type ≤ ltype_submessage)
            ⊎ (pb_ltype field.type ≡ ltype_fixed_length_bytes)
          → (pb_ltype field.type ≡ ltype_submessage
              → WithinCmd lo len
                  (Any {A = Unit {0}})
                  0
                  most
                  (pb_dec_submessage depth env noinit field dest))
          → WithinCmd lo len (Any {A = Unit {0}}) 0 most (pb_decoder depth env noinit field dest)
      pb_decoder-Within most known nested =
          elim (Bool-cases (leb (pb_ltype field.type) ltype_last_packable)) [
            | inl t ↦
                less-Within lo len (Any {A = Unit {0}}) 1 0 most most
                  (pb_decoder depth env noinit field dest) (omega arith) (omega arith)
                  (number-Within most (ground arith))
            | inr t ↦ rest-Within most t known nested
          ]
