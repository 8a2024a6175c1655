-- ===== src/Message/Encode/Items.antt =====
-- The field encoders of pb_encode.c: one for each LTYPE, with PB_ENCODERS. `src` is an address.
use ios_college_work.Common.{
  ℕ, zero, suc, ◌+◌, ◌-◌, ◌*◌, ◌%◌, ◌^◌, Bool, true, false, [], ltb, leb, ◌==◌, ◌&&◌, if◌then◌else◌,
  Run, Cmd, ok, err, fault, stuck, Option, none, some, ◌>>◌, none,
}
use ios_college_work.Stream.Errors.{
  invalid_data_size, invalid_field_type, invalid_field_descriptor, bytes_size_exceeded, stream_full,
  submsg_size_changed,
}
use ios_college_work.Stream.Output.{
  OStream, WriteFn, sizing, buf_write, custom, fail, pb_ostream_sizing, pb_write,
}
use ios_college_work.Wire.Encode.{
  wt_varint, wt_64bit, wt_string, wt_32bit, pb_encode_varint, pb_encode_svarint, pb_encode_fixed32,
  pb_encode_fixed64, pb_encode_tag, pb_encode_string,
}
use ios_college_work.Message.Memory.{Mem, bytes_at, load, sign_extend}
use ios_college_work.Message.Field.{
  Field, pb_ltype, pb_atype, ltype_varint, ltype_uvarint, ltype_svarint, ltype_fixed32,
  ltype_fixed64, ltype_bytes, ltype_string, ltype_submessage, ltype_fixed_length_bytes,
  atype_static, atype_pointer,
}
use ios_college_work.Message.Encode.Env.{Env, Submessage}

-- `*(const intN_t*)src` for the `data_size` of the field.
unfoldable pub is_word_size : ℕ → Bool
is_word_size size =
    if size == 1 then true else if size == 2 then true else if size == 4 then true else size == 8

unfoldable pub pb_enc_varint : Mem → Field → ℕ → Cmd OStream (Unit {0})
pb_enc_varint m field src s =
    if is_word_size field.data_size
    then pb_encode_varint (sign_extend (8 * field.data_size) (load m src field.data_size)) s
    else fail invalid_data_size s

unfoldable pub pb_enc_uvarint : Mem → Field → ℕ → Cmd OStream (Unit {0})
pb_enc_uvarint m field src s =
    if is_word_size field.data_size
    then pb_encode_varint (load m src field.data_size) s
    else fail invalid_data_size s

unfoldable pub pb_enc_svarint : Mem → Field → ℕ → Cmd OStream (Unit {0})
pb_enc_svarint m field src s =
    if is_word_size field.data_size
    then pb_encode_svarint (sign_extend (8 * field.data_size) (load m src field.data_size)) s
    else fail invalid_data_size s

unfoldable pub pb_enc_fixed32 : Mem → Field → ℕ → Cmd OStream (Unit {0})
pb_enc_fixed32 m field src = pb_encode_fixed32 (load m src 4)

unfoldable pub pb_enc_fixed64 : Mem → Field → ℕ → Cmd OStream (Unit {0})
pb_enc_fixed64 m field src = pb_encode_fixed64 (load m src 8)

-- `PB_BYTES_ARRAY_T_ALLOCSIZE(n)`: the bytes stand behind a `pb_size_t` of four bytes.
abbrev pub alloc_size : ℕ → ℕ
alloc_size n = (n + 4) % 2 ^ 64

unfoldable pub pb_enc_bytes : Mem → Field → ℕ → Cmd OStream (Unit {0})
pb_enc_bytes m field src s =
    let size = load m src 4 in
    if src == 0
    then pb_encode_string [] 0 s
    else if (pb_atype field.type == atype_static) && ltb field.data_size (alloc_size size)
    then fail bytes_size_exceeded s
    else pb_encode_string (bytes_at m (src + 4) size) size s

-- The loop of `pb_enc_string`: the number of bytes before the first NUL, at most `max_size`.
unfoldable pub string_size : Mem → (max_size p : ℕ) → ℕ
string_size m zero p = 0
string_size m (suc max_size) p = elim (m p == 0) [
  | true ↦ 0
  | false ↦ suc (string_size m max_size (p + 1))
]

unfoldable pub pb_enc_string : Mem → Field → ℕ → Cmd OStream (Unit {0})
pb_enc_string m field src =
    let max_size : ℕ =
      if pb_atype field.type == atype_pointer then 2 ^ 64 - 1 else field.data_size in
    let size : ℕ = elim (src == 0) [ true ↦ 0 | false ↦ string_size m max_size src ] in
    pb_encode_string (bytes_at m src size) size

unfoldable pub pb_enc_fixed_length_bytes : Mem → Field → ℕ → Cmd OStream (Unit {0})
pb_enc_fixed_length_bytes m field src =
    pb_encode_string (bytes_at m src field.data_size) field.data_size

-- The switch; `none` is its default branch.
unfoldable pub wire_type_of : (ltype : ℕ) → Option ℕ
wire_type_of ltype =
    if leb ltype ltype_svarint
    then some wt_varint
    else if ltype == ltype_fixed32
    then some wt_32bit
    else if ltype == ltype_fixed64
    then some wt_64bit
    else if leb ltype ltype_submessage
    then some wt_string
    else if ltype == ltype_fixed_length_bytes
    then some wt_string
    else none

unfoldable pub encode_typed_tag : Field → Option ℕ → Cmd OStream (Unit {0})
encode_typed_tag field none = fail invalid_field_type
encode_typed_tag field (some wiretype) = pb_encode_tag wiretype field.tag

unfoldable pub pb_encode_tag_for_field : Field → Cmd OStream (Unit {0})
unfolding encode_typed_tag wire_type_of
pb_encode_tag_for_field field = encode_typed_tag field (wire_type_of (pb_ltype field.type))

-- The second run of `pb_encode_submessage`, on a substream that holds it to `size` bytes, and what the
-- parent takes over from it.
absorb : (size : ℕ) → OStream → Run OStream (Unit {0}) → Run OStream (Unit {0})
absorb size s fault = fault
absorb size s stuck = stuck
absorb size s (ok _ sub) =
    let s' = record s {
      state = sub.state;
      room = sub.room;
      bytes_written = (s.bytes_written + sub.bytes_written) % 2 ^ 64;
      errmsg = sub.errmsg;
    } in
    if sub.bytes_written == size then ok tt s' else fail submsg_size_changed s'
absorb size s (err sub) =
    let s' = record s {
      state = sub.state;
      room = sub.room;
      bytes_written = (s.bytes_written + sub.bytes_written) % 2 ^ 64;
      errmsg = sub.errmsg;
    } in
    if sub.bytes_written == size then err s' else fail submsg_size_changed s'

unfoldable pub write_submessage : (run : Cmd OStream (Unit {0})) (size : ℕ) → Cmd OStream (Unit {0})
unfolding absorb
write_submessage run size s =
    if ltb s.max_size ((s.bytes_written + size) % 2 ^ 64)
    then fail stream_full s
    else absorb size s (run (record s { max_size = size; bytes_written = 0; errmsg = none }))

is_sizing : WriteFn → Bool
is_sizing sizing = true
is_sizing buf_write = false
is_sizing (custom _) = false

-- Behind the length: just counting, or the second run.
unfoldable pub sized_tail : (run : Cmd OStream (Unit {0})) (size : ℕ) → Cmd OStream (Unit {0})
unfolding write_submessage is_sizing
sized_tail run size s =
    if is_sizing s.callback then pb_write [] size s else write_submessage run size s

-- Behind the first run, on a sizing stream.
sized : Cmd OStream (Unit {0}) → Run OStream (Unit {0}) → Cmd OStream (Unit {0})
sized run fault s = fault
sized run stuck s = stuck
sized run (err sub) s = err (record s { errmsg = sub.errmsg })
sized run (ok _ sub) s = (pb_encode_varint sub.bytes_written >> sized_tail run sub.bytes_written) s

-- `pb_encode_submessage`, where `run` is `pb_encode` on the table and the structure.
unfoldable pub pb_encode_submessage : (run : Cmd OStream (Unit {0})) → Cmd OStream (Unit {0})
unfolding sized
pb_encode_submessage run s = sized run (run pb_ostream_sizing) s

unfoldable pub pb_enc_submessage : Env → Submessage → Field → ℕ → Cmd OStream (Unit {0})
pb_enc_submessage env sub field src s =
    if field.ptr == 0
    then fail invalid_field_descriptor s
    else pb_encode_submessage (sub (env.table field.ptr) src) s

-- `PB_ENCODERS[ltype](stream, field, src)`; there is none for extensions, and none behind the end.
unfoldable pub pb_encoder : Env → Submessage → Mem → Field → ℕ → Cmd OStream (Unit {0})
pb_encoder env sub m field src s =
    let ltype = pb_ltype field.type in
    if ltype == ltype_varint
    then pb_enc_varint m field src s
    else if ltype == ltype_uvarint
    then pb_enc_uvarint m field src s
    else if ltype == ltype_svarint
    then pb_enc_svarint m field src s
    else if ltype == ltype_fixed32
    then pb_enc_fixed32 m field src s
    else if ltype == ltype_fixed64
    then pb_enc_fixed64 m field src s
    else if ltype == ltype_bytes
    then pb_enc_bytes m field src s
    else if ltype == ltype_string
    then pb_enc_string m field src s
    else if ltype == ltype_submessage
    then pb_enc_submessage env sub field src s
    else if ltype == ltype_fixed_length_bytes
    then pb_enc_fixed_length_bytes m field src s
    else fault
