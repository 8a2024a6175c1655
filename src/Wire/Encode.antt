-- ===== src/Wire/Encode.antt =====
-- The helper functions of pb_encode.c that write one item of the wire format.
use ios_college_work.Common.{
  ℕ, zero, suc, ◌-◌, ◌*◌, ◌/◌, ◌%◌, ◌^◌, bit_and, bit_or, Option, none, some, List, [], ◌∷◌, leb,
  ◌==◌, if◌then◌else◌, length, Cmd, fault, ◌>>◌,
}
use mathlib.Core.Option
use ios_college_work.Stream.Output.{OStream, pb_write}

-- Wire types: the numbers of `pb_wire_type_t`.
abbrev pub wt_varint : ℕ
wt_varint = 0

abbrev pub wt_64bit : ℕ
wt_64bit = 1

abbrev pub wt_string : ℕ
wt_string = 2

abbrev pub wt_32bit : ℕ
wt_32bit = 5

-- The loop of `pb_encode_varint`: `room` is what `buffer[10]` has left, and `none` a store past its
-- end.
unfoldable pub varint_buffer : (room value : ℕ) → Option (List ℕ)
varint_buffer zero value = if value == 0 then some [] else none
varint_buffer (suc room) value =
    let rest = varint_buffer room (value / 2 ^ 7) in
    let byte = bit_or (bit_and value 0x7f) 0x80 % 2 ^ 8 in
    if value == 0 then some [] else Option.map (λ bytes. byte ∷ bytes) rest

-- `buffer[i-1] &= 0x7F`
unfoldable pub clear_last : List ℕ → List ℕ
clear_last [] = []
clear_last (b ∷ []) = bit_and b 0x7f ∷ []
clear_last (b ∷ c ∷ bs) = b ∷ clear_last (c ∷ bs)

write_buffer : Option (List ℕ) → Cmd OStream (Unit {0})
write_buffer none s = fault
write_buffer (some bytes) s = pb_write (clear_last bytes) (length bytes) s

unfoldable pub pb_encode_varint : ℕ → Cmd OStream (Unit {0})
unfolding write_buffer
pb_encode_varint value s =
    if leb value 0x7f
    then pb_write (value % 2 ^ 8 ∷ []) 1 s
    else write_buffer (varint_buffer 10 value) s

-- An `int64_t` is its bit pattern: it is negative where the top bit is set, and `~x` is 2^64 - 1 - x.
unfoldable pub zigzagged : ℕ → ℕ
zigzagged value = if leb (2 ^ 63) value then 2 ^ 64 - 1 - value * 2 % 2 ^ 64 else value * 2 % 2 ^ 64

unfoldable pub pb_encode_svarint : ℕ → Cmd OStream (Unit {0})
pb_encode_svarint value = pb_encode_varint (zigzagged value)

-- `(pb_byte_t)((val >> k) & 0xFF)`
abbrev pub byte_at : ℕ → ℕ → ℕ
byte_at val k = bit_and (val / 2 ^ k) 0xff % 2 ^ 8

unfoldable pub fixed32_bytes : ℕ → List ℕ
fixed32_bytes val = byte_at val 0 ∷ byte_at val 8 ∷ byte_at val 16 ∷ byte_at val 24 ∷ []

unfoldable pub fixed64_bytes : ℕ → List ℕ
fixed64_bytes val =
    byte_at val 0
    ∷ byte_at val 8
    ∷ byte_at val 16
    ∷ byte_at val 24
    ∷ byte_at val 32
    ∷ byte_at val 40
    ∷ byte_at val 48
    ∷ byte_at val 56
    ∷ []

-- The argument is the `uint32_t` that `value` points at.
unfoldable pub pb_encode_fixed32 : ℕ → Cmd OStream (Unit {0})
pb_encode_fixed32 val = pb_write (fixed32_bytes val) 4

unfoldable pub pb_encode_fixed64 : ℕ → Cmd OStream (Unit {0})
pb_encode_fixed64 val = pb_write (fixed64_bytes val) 8

unfoldable pub pb_encode_tag : (wiretype field_number : ℕ) → Cmd OStream (Unit {0})
pb_encode_tag wiretype field_number =
    pb_encode_varint (bit_or (field_number * 2 ^ 3 % 2 ^ 64) wiretype)

unfoldable pub pb_encode_string : List ℕ → ℕ → Cmd OStream (Unit {0})
pb_encode_string buffer size = do pb_encode_varint size; pb_write buffer size
