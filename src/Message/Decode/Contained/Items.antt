-- ===== src/Message/Decode/Contained/Items.antt =====
-- `pb_dec_varint` and its kin store within their field.
use ios_college_work.Common.{
  ℕ, ◌+◌, ◌*◌, ◌%◌, ◌^◌, ◌≤◌, ◌<◌, ◌∙◌, inl, inr, Bool-cases, ltb, ◌==◌, if◌then◌else◌, Option,
  List, [], ◌∷◌, length, arith, Run, Cmd, ok, err, fault, stuck, ◌>>=◌, ◌>>◌,
}
use ios_college_work.Stream.Errors.{
  Error, invalid_data_size, bytes_overflow, size_too_large, string_overflow, no_malloc_support,
  incorrect_fixed_length,
}
use ios_college_work.Stream.Input.{pb_read}
use ios_college_work.Stream.Buffers.{input}
use ios_college_work.Stream.Safe.{SafeCmd, SafeCmd-bind, SafeCmd-ok}
use ios_college_work.Wire.Decode.{pb_decode_varint, pb_decode_varint32, pb_decode_svarint, unzigzag}
use ios_college_work.Wire.Safe.{pb_decode_varint-Safe, pb_decode_varint32-Safe}
use ios_college_work.Message.Memory.{Mem}
use ios_college_work.Message.Field.{Field, pb_atype, atype_pointer, pb_size_max}
use ios_college_work.Message.Encode.Items.{is_word_size, alloc_size}
use ios_college_work.Message.Decode.Machine.{
  Machine, machine, on_stream, refuse, write, write_bytes, store_bytes-outside,
}
use ios_college_work.Message.Decode.Items.{
  terminate, clamp, same_number, put_signed, put_unsigned, pb_dec_varint, pb_dec_uvarint,
  pb_dec_svarint, read_bytes, pb_dec_bytes, read_string, pb_dec_string, read_fixed_length,
  pb_dec_fixed_length_bytes,
}
use ios_college_work.Message.Decode.Contained.{
  Contained, ContainedCmd, bind-Contained, on_stream-Contained, refuse-Contained, if-Contained,
  write-Contained, put-Contained, read_into-Contained,
}

module _ (field : Field) (dest : ℕ) where
  pub put_signed-Contained :
      (svalue : ℕ) → ContainedCmd dest field.data_size (put_signed field dest svalue)
  unfolding put_signed
  put_signed-Contained svalue =
      if-Contained dest field.data_size (is_word_size field.data_size)
        (write dest field.data_size svalue
          >> same_number (clamp (8 * field.data_size) svalue) svalue)
        (refuse invalid_data_size)
        (λ _.
          put-Contained dest field.data_size field.data_size (clamp (8 * field.data_size) svalue)
            svalue (omega arith))
        (λ _. refuse-Contained dest field.data_size (Unit {0}) invalid_data_size)

  pub put_unsigned-Contained :
      (value : ℕ) → ContainedCmd dest field.data_size (put_unsigned field dest value)
  unfolding put_unsigned
  put_unsigned-Contained value =
      if-Contained dest field.data_size (is_word_size field.data_size)
        (write dest field.data_size value >> same_number (value % 2 ^ (8 * field.data_size)) value)
        (refuse invalid_data_size)
        (λ _.
          put-Contained dest field.data_size field.data_size (value % 2 ^ (8 * field.data_size))
            value (omega arith))
        (λ _. refuse-Contained dest field.data_size (Unit {0}) invalid_data_size)

  -- Whatever the bytes of the buffer and the descriptor are, `pb_dec_varint` returns, takes at most `bytes_left`
  -- bytes if the buffer holds as many, and stores only within the `data_size` bytes from `dest` on.
  pub pb_dec_varint-Contained :
      (xs : List ℕ) (n : ℕ) (e : Option Error) (m : Mem)
      → n ≤ length xs
      → Contained dest field.data_size xs n m (pb_dec_varint field dest (machine (input xs n e) m))
  unfolding pb_dec_varint
  pb_dec_varint-Contained =
      bind-Contained dest field.data_size (on_stream pb_decode_varint)
        (λ value. put_signed field dest (if field.data_size == 8 then value else clamp 32 value))
        (on_stream-Contained dest field.data_size pb_decode_varint pb_decode_varint-Safe)
        (λ value. put_signed-Contained _)

  -- Whatever the bytes of the buffer and the descriptor are, `pb_dec_uvarint` returns, takes at most `bytes_left`
  -- bytes if the buffer holds as many, and stores only within the `data_size` bytes from `dest` on.
  pub pb_dec_uvarint-Contained :
      (xs : List ℕ) (n : ℕ) (e : Option Error) (m : Mem)
      → n ≤ length xs
      → Contained dest field.data_size xs n m (pb_dec_uvarint field dest (machine (input xs n e) m))
  unfolding pb_dec_uvarint
  pb_dec_uvarint-Contained =
      bind-Contained dest field.data_size (on_stream pb_decode_varint) (put_unsigned field dest)
        (on_stream-Contained dest field.data_size pb_decode_varint pb_decode_varint-Safe)
        put_unsigned-Contained

  svarint-Safe : SafeCmd pb_decode_svarint
  unfolding pb_decode_svarint
  svarint-Safe =
      SafeCmd-bind pb_decode_varint _ pb_decode_varint-Safe (λ value. SafeCmd-ok (unzigzag value))

  pub pb_dec_svarint-Contained :
      (xs : List ℕ) (n : ℕ) (e : Option Error) (m : Mem)
      → n ≤ length xs
      → Contained dest field.data_size xs n m (pb_dec_svarint field dest (machine (input xs n e) m))
  unfolding pb_dec_svarint
  pb_dec_svarint-Contained =
      bind-Contained dest field.data_size (on_stream pb_decode_svarint) (put_signed field dest)
        (on_stream-Contained dest field.data_size pb_decode_svarint svarint-Safe)
        put_signed-Contained

  sized-Contained :
      (k : ℕ → Cmd Machine (Unit {0}))
      → ((size : ℕ) → ContainedCmd dest field.data_size (k size))
      → ContainedCmd dest field.data_size (on_stream pb_decode_varint32 >>= k)
  sized-Contained k each =
      bind-Contained dest field.data_size (on_stream pb_decode_varint32) k
        (on_stream-Contained dest field.data_size pb_decode_varint32 pb_decode_varint32-Safe) each

  refused : (msg : Error) → ContainedCmd dest field.data_size (refuse {A = Unit {0}} msg)
  refused msg = refuse-Contained dest field.data_size (Unit {0}) msg

  stored_bytes : ℕ → Cmd Machine (Unit {0})
  stored_bytes size = write dest 4 size >> (on_stream (pb_read size) >>= write_bytes (dest + 4))

  stored_bytes-Contained :
      (size : ℕ)
      → size + 4 ≤ field.data_size
      → ContainedCmd dest field.data_size (stored_bytes size)
  unfolding stored_bytes
  stored_bytes-Contained size le =
      bind-Contained dest field.data_size (write dest 4 size)
        (λ _. on_stream (pb_read size) >>= write_bytes (dest + 4))
        (write-Contained dest field.data_size dest 4 size (omega arith) (omega (arith, le)))
        (λ _.
          read_into-Contained dest field.data_size (dest + 4) size (omega arith)
            (omega (arith, le)))

  read_bytes-Contained : (size : ℕ) → ContainedCmd dest field.data_size (read_bytes field dest size)
  unfolding read_bytes stored_bytes
  read_bytes-Contained size xs n e m fits = elim (Bool-cases (ltb pb_size_max size)) [
    | inl t ↦ rw t (refused bytes_overflow xs n e m fits)
    | inr t1 ↦ elim (Bool-cases (ltb (alloc_size size) size)) [
      | inl t ↦ rw (t1, t) (refused size_too_large xs n e m fits)
      | inr t2 ↦ elim (Bool-cases (pb_atype field.type == atype_pointer)) [
        | inl t ↦ rw (t1, t2, t) (refused no_malloc_support xs n e m fits)
        | inr t3 ↦ elim (Bool-cases (ltb field.data_size (alloc_size size))) [
          | inl t ↦ rw (t1, t2, t3, t) (refused bytes_overflow xs n e m fits)
          | inr t4 ↦ rw (t1, t2, t3, t4) (stored_bytes-Contained size (ground arith) xs n e m fits)
        ]
      ]
    ]
  ]

  -- Whatever the bytes of the buffer and the descriptor are, `pb_dec_bytes` returns, takes at most `bytes_left`
  -- bytes if the buffer holds as many, and stores only within the `data_size` bytes from `dest` on.
  pub pb_dec_bytes-Contained :
      (xs : List ℕ) (n : ℕ) (e : Option Error) (m : Mem)
      → n ≤ length xs
      → Contained dest field.data_size xs n m (pb_dec_bytes field dest (machine (input xs n e) m))
  unfolding pb_dec_bytes
  pb_dec_bytes-Contained = sized-Contained (read_bytes field dest) read_bytes-Contained

  terminate-Contained :
      (p : ℕ) (xs : List ℕ) (n : ℕ) (m : Mem) (r : Run Machine (Unit {0}))
      → dest ≤ p
      → p < dest + field.data_size
      → Contained dest field.data_size xs n m r
      → Contained dest field.data_size xs n m (terminate p r)
  unfolding terminate
  terminate-Contained p xs n m (ok _ s) low high c = record {
    stream = c.stream;
    memory = λ q out. store_bytes-outside s.mem p (0 ∷ []) q (ground (arith, out)) ∙ c.memory q out;
  }
  terminate-Contained p xs n m (err s) low high c = record {
    stream = c.stream;
    memory = λ q out. store_bytes-outside s.mem p (0 ∷ []) q (ground (arith, out)) ∙ c.memory q out;
  }
  terminate-Contained p xs n m fault low high c = c
  terminate-Contained p xs n m stuck low high c = c

  read_string-Contained :
      (size : ℕ) → ContainedCmd dest field.data_size (read_string field dest size)
  unfolding read_string
  read_string-Contained size xs n e m fits = elim (Bool-cases (ltb ((size + 1) % 2 ^ 32) size)) [
    | inl t ↦ rw t (refused size_too_large xs n e m fits)
    | inr t1 ↦ elim (Bool-cases (pb_atype field.type == atype_pointer)) [
      | inl t ↦ rw (t1, t) (refused no_malloc_support xs n e m fits)
      | inr t2 ↦ elim (Bool-cases (ltb field.data_size ((size + 1) % 2 ^ 32))) [
        | inl t ↦ rw (t1, t2, t) (refused string_overflow xs n e m fits)
        | inr t3 ↦
            let room : size + 1 ≤ field.data_size = ground arith in
            rw (t1, t2, t3)
              (terminate-Contained (dest + size) xs n m
                ((on_stream (pb_read size) >>= write_bytes dest) (machine (input xs n e) m))
                (omega arith) (omega (arith, room))
                (read_into-Contained dest field.data_size dest size (omega arith)
                  (omega (arith, room)) xs n e m fits))
      ]
    ]
  ]

  -- Whatever the bytes of the buffer and the descriptor are, `pb_dec_string` returns, takes at most `bytes_left`
  -- bytes if the buffer holds as many, and stores only within the `data_size` bytes from `dest` on.
  pub pb_dec_string-Contained :
      (xs : List ℕ) (n : ℕ) (e : Option Error) (m : Mem)
      → n ≤ length xs
      → Contained dest field.data_size xs n m (pb_dec_string field dest (machine (input xs n e) m))
  unfolding pb_dec_string
  pb_dec_string-Contained = sized-Contained (read_string field dest) read_string-Contained

  read_fixed_length-Contained :
      (size : ℕ) → ContainedCmd dest field.data_size (read_fixed_length field dest size)
  unfolding read_fixed_length
  read_fixed_length-Contained size xs n e m fits = elim (Bool-cases (ltb pb_size_max size)) [
    | inl t ↦ rw t (refused bytes_overflow xs n e m fits)
    | inr t1 ↦ elim (Bool-cases (size == 0)) [
      | inl t ↦
          rw (t1, t)
            (write-Contained dest field.data_size dest field.data_size 0 (omega arith) (omega arith)
              xs n e m fits)
      | inr t2 ↦ elim (Bool-cases (size == field.data_size)) [
        | inl t ↦
            rw (t1, t2, t)
              (read_into-Contained dest field.data_size dest field.data_size (omega arith)
                (omega arith) xs n e m fits)
        | inr t3 ↦ rw (t1, t2, t3) (refused incorrect_fixed_length xs n e m fits)
      ]
    ]
  ]

  -- Whatever the bytes of the buffer and the descriptor are, `pb_dec_fixed_length_bytes` returns, takes at most `bytes_left`
  -- bytes if the buffer holds as many, and stores only within the `data_size` bytes from `dest` on.
  pub pb_dec_fixed_length_bytes-Contained :
      (xs : List ℕ) (n : ℕ) (e : Option Error) (m : Mem)
      → n ≤ length xs
      → Contained dest field.data_size xs n m
          (pb_dec_fixed_length_bytes field dest (machine (input xs n e) m))
  unfolding pb_dec_fixed_length_bytes
  pb_dec_fixed_length_bytes-Contained =
      sized-Contained (read_fixed_length field dest) read_fixed_length-Contained
