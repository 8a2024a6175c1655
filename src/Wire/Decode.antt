-- ===== src/Wire/Decode.antt =====
-- The helper functions of pb_decode.c that read one item of the wire format.
use ios_college_work.Common.{
  ℕ, zero, suc, ◌+◌, ◌-◌, ◌*◌, ◌/◌, ◌%◌, ◌^◌, bit_and, bit_or, Bool, true, false, List, [], ◌∷◌,
  leb, ltb, ◌==◌, if◌then◌else◌, Run, Cmd, ok, err, fault, stuck, ◌>>=◌,
}
use ios_college_work.Stream.Errors.{varint_overflow, invalid_wire_type, parent_stream_too_short}
use ios_college_work.Stream.Input.{IStream, fail, pb_read, pb_read_null, pb_readbyte}
use ios_college_work.Wire.Encode.{wt_varint, wt_64bit, wt_string, wt_32bit}

-- `result |= (uintW_t)(byte & 0x7F) << bitpos`
abbrev pub add_group : (width result byte bitpos : ℕ) → ℕ
add_group width result byte bitpos = bit_or result (bit_and byte 0x7f * 2 ^ bitpos % 2 ^ width)

-- The do-while loop of `pb_decode_varint32` (width 32) and of `pb_decode_varint` (width 64). `bitpos` is
-- a `uint_fast8_t` of eight bits.
unfoldable pub varint_loop : (width fuel bitpos result : ℕ) → Cmd IStream ℕ
varint_loop width zero bitpos result s = stuck
varint_loop width (suc fuel) bitpos result s =
    if leb width bitpos
    then fail varint_overflow s
    else (pb_readbyte >>= (λ byte.
          let result' = add_group width result byte bitpos in
          let more = varint_loop width fuel ((bitpos + 7) % 2 ^ 8) result' in
          if bit_and byte 0x80 == 0 then ok result' else more))
        s

-- Five rounds reach bit 32, where the loop gives up.
unfoldable pub pb_decode_varint32 : Cmd IStream ℕ
pb_decode_varint32 = do
  byte ← pb_readbyte
  if bit_and byte 0x80 == 0 then ok byte else varint_loop 32 6 7 (bit_and byte 0x7f)

-- Ten rounds reach bit 64.
unfoldable pub pb_decode_varint : Cmd IStream ℕ
pb_decode_varint = varint_loop 64 11 0 0

-- `~x` on 64 bits is 2^64 - 1 - x; the result is the bit pattern of an `int64_t`.
unfoldable pub unzigzag : ℕ → ℕ
unzigzag value = if bit_and value 1 == 0 then value / 2 else 2 ^ 64 - 1 - value / 2

unfoldable pub pb_decode_svarint : Cmd IStream ℕ
pb_decode_svarint = do value ← pb_decode_varint; ok (unzigzag value)

-- `bytes[0] << 0 | bytes[1] << 8 | …`
unfoldable pub assemble : (shift value : ℕ) → List ℕ → ℕ
assemble shift value [] = value
assemble shift value (b ∷ bs) = assemble (shift + 8) (bit_or value (b * 2 ^ shift)) bs

unfoldable pub pb_decode_fixed32 : Cmd IStream ℕ
pb_decode_fixed32 = do bytes ← pb_read 4; ok (assemble 0 0 bytes)

unfoldable pub pb_decode_fixed64 : Cmd IStream ℕ
pb_decode_fixed64 = do bytes ← pb_read 8; ok (assemble 0 0 bytes)

unfoldable pub byte_of : List ℕ → Cmd IStream ℕ
byte_of [] s = fault
byte_of (b ∷ _) s = ok b s

unfoldable pub skip_varint_loop : ℕ → Cmd IStream (Unit {0})
unfolding byte_of
skip_varint_loop zero s = stuck
skip_varint_loop (suc fuel) s =
    let more = skip_varint_loop fuel in
    (pb_read 1 >>= byte_of >>= (λ byte. if bit_and byte 0x80 == 0 then ok tt else more)) s

-- Each round takes a byte off `bytes_left`.
unfoldable pub pb_skip_varint : Cmd IStream (Unit {0})
unfolding skip_varint_loop
pb_skip_varint s = skip_varint_loop (suc s.bytes_left) s

unfoldable pub pb_skip_string : Cmd IStream (Unit {0})
pb_skip_string = do length ← pb_decode_varint32; pb_read_null length

unfoldable pub pb_skip_field : (wire_type : ℕ) → Cmd IStream (Unit {0})
pb_skip_field wire_type s =
    if wire_type == wt_varint
    then pb_skip_varint s
    else if wire_type == wt_64bit
    then pb_read_null 8 s
    else if wire_type == wt_string
    then pb_skip_string s
    else if wire_type == wt_32bit
    then pb_read_null 4 s
    else fail invalid_wire_type s

-- What `pb_decode_tag` leaves behind its pointers, with its result: a tag, or an error that may mean
-- the end of the message.
pub record Header : Type 0 where
  pub success : Bool
  pub wire_type : ℕ
  pub tag : ℕ
  pub eof : Bool

abbrev pub no_tag : Bool → Header
no_tag eof = record { success = false; wire_type = 0; tag = 0; eof = eof }

unfoldable pub tag_of : Run IStream ℕ → Run IStream Header
tag_of (err s) = ok (no_tag (s.bytes_left == 0)) s
tag_of fault = fault
tag_of stuck = stuck
tag_of (ok temp s) =
    if temp == 0
    then ok (no_tag true) s
    else ok (record { success = true; wire_type = bit_and temp 7; tag = temp / 2 ^ 3; eof = false })
        s

unfoldable pub pb_decode_tag : Cmd IStream Header
unfolding tag_of
pb_decode_tag s = tag_of (pb_decode_varint32 s)

-- Yields the substream, and leaves the parent with what stands behind it taken off `bytes_left`.
unfoldable pub pb_make_string_substream : Cmd IStream IStream
pb_make_string_substream = do
  size ← pb_decode_varint32
  λ s.
      if ltb s.bytes_left size
      then fail parent_stream_too_short s
      else ok (record s { bytes_left = size }) (record s { bytes_left = s.bytes_left - size })

-- `stream->state = substream->state`, and its error message.
adopt : IStream → Run IStream (Unit {0}) → Run IStream (Unit {0})
adopt s (ok _ sub) = ok tt (record s { state = sub.state; errmsg = sub.errmsg })
adopt s (err sub) = err s
adopt s fault = fault
adopt s stuck = stuck

unfoldable pub pb_close_string_substream : IStream → Cmd IStream (Unit {0})
unfolding adopt
pb_close_string_substream sub s =
    if sub.bytes_left == 0 then adopt s (ok tt sub) else adopt s (pb_read_null sub.bytes_left sub)
