-- ===== src/Message/Decode/Within/RawValue.antt =====
-- `read_raw_value` on arbitrary bytes.
use ios_college_work.Common.{
  ℕ, zero, suc, ◌-◌, ◌<◌, refl, inl, inr, Bool-cases, ◌==◌, bit_and, if◌then◌else◌, List, [], ◌∷◌,
  All, arith, ok, ◌>>=◌,
}
use ios_college_work.Stream.Errors.{invalid_wire_type}
use ios_college_work.Stream.Input.{pb_read}
use ios_college_work.Wire.Encode.{wt_varint, wt_64bit, wt_32bit}
use ios_college_work.Wire.Decode.{byte_of}
use ios_college_work.Message.Decode.Machine.{on_memory, on_stream}
use ios_college_work.Message.Decode.Callbacks.{raw_varint, read_raw_value}
use ios_college_work.Message.Decode.Within.{
  WithinCmd, Stays-here, Stays-Strays, ok-Within, refuse-Within,
}
use ios_college_work.Message.Decode.Within.Steps.{less-Within, weaken-Within}
use ios_college_work.Message.Decode.Within.Numbers.{stream-Within, pb_read-Within, Bytes, Byte}

module _ (lo len : ℕ) where
  abbrev pub AllBytes : List ℕ → Type 0
  AllBytes bs = All (λ b. b < 256) bs

  byte_of-Within :
      (most : ℕ) (bs : List ℕ)
      → Bytes lo len 1 bs
      → WithinCmd lo len (Byte lo len) 0 most (on_stream (byte_of bs))
  unfolding on_stream on_memory byte_of
  byte_of-Within most [] (none_left, _) = absurd (omega (arith, none_left))
  byte_of-Within most (b ∷ bs) (_, fits) = ok-Within lo len (Byte lo len) most b fits.0

  octet-Within :
      (most : ℕ) → WithinCmd lo len (Byte lo len) 1 most (on_stream (pb_read 1 >>= byte_of))
  octet-Within most =
      stream-Within lo len (Bytes lo len 1) (Byte lo len) 1 most (pb_read 1) byte_of
        (pb_read-Within lo len most 1) (λ bs fits. byte_of-Within (most - 1) bs fits)

  raw_varint-Within :
      (room most : ℕ) → WithinCmd lo len AllBytes 0 most (on_stream (raw_varint room))
  unfolding raw_varint on_stream on_memory
  raw_varint-Within zero most =
      λ xs n e m small held. Stays-Strays lo len (Stays-here lo len xs n n e m refl)
  raw_varint-Within (suc room) most =
      less-Within lo len AllBytes 1 0 most most (on_stream (raw_varint (suc room))) (omega arith)
        (omega arith)
        (stream-Within lo len (Byte lo len) AllBytes 1 most (pb_read 1 >>= byte_of)
          (λ byte.
            if bit_and byte 0x80 == 0
            then ok (byte ∷ [])
            else (raw_varint room >>= (λ bytes. ok (byte ∷ bytes))))
          (octet-Within most)
          (λ byte fits. elim (Bool-cases (bit_and byte 0x80 == 0)) [
            | inl t ↦ rw t (ok-Within lo len AllBytes (most - 1) (byte ∷ []) (fits, tt))
            | inr t ↦ rw t (
                stream-Within lo len AllBytes AllBytes 0 (most - 1) (raw_varint room)
                  (λ bytes. ok (byte ∷ bytes)) (raw_varint-Within room (most - 1))
                  (λ bytes all.
                    ok-Within lo len AllBytes (most - 1 - 0) (byte ∷ bytes) (fits, all)))
          ]))

  word-Within : (most size : ℕ) → WithinCmd lo len AllBytes 0 most (on_stream (pb_read size))
  word-Within most size =
      less-Within lo len AllBytes size 0 most most (on_stream (pb_read size)) (omega arith)
        (omega arith)
        (weaken-Within lo len (Bytes lo len size) AllBytes size most (on_stream (pb_read size))
          (λ bs all. all.1) (pb_read-Within lo len most size))

  pub read_raw_value-Within :
      (most wire_type max_size : ℕ)
      → WithinCmd lo len AllBytes 0 most (on_stream (read_raw_value wire_type max_size))
  unfolding read_raw_value on_stream on_memory
  read_raw_value-Within most wire_type max_size = elim (Bool-cases (wire_type == wt_varint)) [
    | inl t ↦ rw t (raw_varint-Within max_size most)
    | inr t ↦ elim (Bool-cases (wire_type == wt_64bit)) [
      | inl u ↦ rw (t, u) (word-Within most 8)
      | inr u ↦ elim (Bool-cases (wire_type == wt_32bit)) [
        | inl v ↦ rw (t, u, v) (word-Within most 4)
        | inr v ↦ rw (t, u, v) (refuse-Within lo len AllBytes 0 most invalid_wire_type)
      ]
    ]
  ]
