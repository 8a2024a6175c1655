-- ===== src/Message/Decode/Items.antt =====
-- The field decoders of pb_decode.c that PB_DECODERS holds for scalars, strings and bytes. `dest` is an
-- address.
use ios_college_work.Common.{
  ℕ, ◌+◌, ◌*◌, ◌%◌, ◌^◌, [], ◌∷◌, ltb, not, ◌==◌, if◌then◌else◌, Run, Cmd, ok, err, fault, stuck,
  ◌>>=◌, ◌>>◌,
}
use ios_college_work.Stream.Errors.{
  invalid_data_size, integer_too_large, bytes_overflow, size_too_large, string_overflow,
  no_malloc_support, incorrect_fixed_length,
}
use ios_college_work.Stream.Input.{pb_read}
use ios_college_work.Wire.Decode.{
  pb_decode_varint, pb_decode_varint32, pb_decode_svarint, pb_decode_fixed32, pb_decode_fixed64,
}
use ios_college_work.Message.Memory.{sign_extend}
use ios_college_work.Message.Field.{Field, pb_atype, atype_pointer, pb_size_max}
use ios_college_work.Message.Encode.Items.{is_word_size, alloc_size}
use ios_college_work.Message.Decode.Machine.{
  Machine, on_stream, refuse, store_bytes, write, write_bytes,
}

-- `if (clamped != value) PB_RETURN_ERROR(stream, "integer too large")`
unfoldable pub same_number : (clamped value : ℕ) → Cmd Machine (Unit {0})
same_number clamped value s = if clamped == value then ok tt s else refuse integer_too_large s

-- The bit pattern of `(int64_t)(intN_t)value` for N of `bits`.
abbrev pub clamp : (bits value : ℕ) → ℕ
clamp bits value = sign_extend bits (value % 2 ^ bits)

-- Behind the number: the store through a pointer of the width of the field, and the comparison.
unfoldable pub put_signed : Field → (dest svalue : ℕ) → Cmd Machine (Unit {0})
unfolding write same_number
put_signed field dest svalue s =
    if is_word_size field.data_size
    then (write dest field.data_size svalue
          >> same_number (clamp (8 * field.data_size) svalue) svalue)
        s
    else refuse invalid_data_size s

unfoldable pub put_unsigned : Field → (dest value : ℕ) → Cmd Machine (Unit {0})
unfolding write same_number
put_unsigned field dest value s =
    if is_word_size field.data_size
    then (write dest field.data_size value >> same_number (value % 2 ^ (8 * field.data_size)) value)
        s
    else refuse invalid_data_size s

unfoldable pub pb_dec_varint : Field → (dest : ℕ) → Cmd Machine (Unit {0})
pb_dec_varint field dest =
    on_stream pb_decode_varint
    >>= (λ value. put_signed field dest (if field.data_size == 8 then value else clamp 32 value))

unfoldable pub pb_dec_uvarint : Field → (dest : ℕ) → Cmd Machine (Unit {0})
pb_dec_uvarint field dest = on_stream pb_decode_varint >>= put_unsigned field dest

unfoldable pub pb_dec_svarint : Field → (dest : ℕ) → Cmd Machine (Unit {0})
pb_dec_svarint field dest = on_stream pb_decode_svarint >>= put_signed field dest

unfoldable pub pb_dec_fixed32 : Field → (dest : ℕ) → Cmd Machine (Unit {0})
pb_dec_fixed32 field dest = on_stream pb_decode_fixed32 >>= write dest 4

unfoldable pub pb_dec_fixed64 : Field → (dest : ℕ) → Cmd Machine (Unit {0})
pb_dec_fixed64 field dest = on_stream pb_decode_fixed64 >>= write dest 8

-- The bytes array stands behind its size, in a structure of `data_size` bytes.
unfoldable pub read_bytes : Field → (dest size : ℕ) → Cmd Machine (Unit {0})
unfolding write write_bytes
read_bytes field dest size s =
    if ltb pb_size_max size
    then refuse bytes_overflow s
    else if ltb (alloc_size size) size
    then refuse size_too_large s
    else if pb_atype field.type == atype_pointer
    then refuse no_malloc_support s
    else if ltb field.data_size (alloc_size size)
    then refuse bytes_overflow s
    else (write dest 4 size >> (on_stream (pb_read size) >>= write_bytes (dest + 4))) s

unfoldable pub pb_dec_bytes : Field → (dest : ℕ) → Cmd Machine (Unit {0})
unfolding read_bytes
pb_dec_bytes field dest = on_stream pb_decode_varint32 >>= read_bytes field dest

-- The terminator is stored whether the bytes could be read or not.
unfoldable pub terminate : (p : ℕ) → Run Machine (Unit {0}) → Run Machine (Unit {0})
terminate p (ok _ s) = ok tt (record s { mem = store_bytes s.mem p (0 ∷ []) })
terminate p (err s) = err (record s { mem = store_bytes s.mem p (0 ∷ []) })
terminate p fault = fault
terminate p stuck = stuck

-- `size + 1` is a `uint32_t`.
unfoldable pub read_string : Field → (dest size : ℕ) → Cmd Machine (Unit {0})
unfolding terminate write_bytes
read_string field dest size s =
    let alloc : ℕ = (size + 1) % 2 ^ 32 in
    if ltb alloc size
    then refuse size_too_large s
    else if pb_atype field.type == atype_pointer
    then refuse no_malloc_support s
    else if ltb field.data_size alloc
    then refuse string_overflow s
    else terminate (dest + size) ((on_stream (pb_read size) >>= write_bytes dest) s)

unfoldable pub pb_dec_string : Field → (dest : ℕ) → Cmd Machine (Unit {0})
unfolding read_string
pb_dec_string field dest = on_stream pb_decode_varint32 >>= read_string field dest

-- An empty string stands for zeros.
unfoldable pub read_fixed_length : Field → (dest size : ℕ) → Cmd Machine (Unit {0})
unfolding write write_bytes
read_fixed_length field dest size s =
    if ltb pb_size_max size
    then refuse bytes_overflow s
    else if size == 0
    then write dest field.data_size 0 s
    else if not (size == field.data_size)
    then refuse incorrect_fixed_length s
    else (on_stream (pb_read field.data_size) >>= write_bytes dest) s

unfoldable pub pb_dec_fixed_length_bytes : Field → (dest : ℕ) → Cmd Machine (Unit {0})
unfolding read_fixed_length
pb_dec_fixed_length_bytes field dest = on_stream pb_decode_varint32 >>= read_fixed_length field dest
