-- ===== src/Message/Encode/Fields.antt =====
-- `encode_array`, `encode_basic_field`, the callback and extension fields, and `pb_encode`.
use ios_college_work.Common.{
  ℕ, zero, suc, ◌+◌, ◌*◌, Bool, true, false, not, Option, none, some, [], ltb, leb, ◌==◌, ◌&&◌,
  ◌||◌, if◌then◌else◌, Run, Cmd, ok, err, fault, stuck, ◌>>=◌, ◌>>◌,
}
use ios_college_work.Stream.Errors.{
  array_max_size_exceeded, missing_required_field, invalid_field_type, callback_error,
}
use ios_college_work.Stream.Output.{
  OStream, WriteFn, sizing, buf_write, custom, fail, pb_ostream_sizing, pb_write,
}
use ios_college_work.Wire.Encode.{wt_string, pb_encode_varint, pb_encode_tag}
use ios_college_work.Message.Memory.{Mem, load, load_pointer, displace}
use ios_college_work.Message.Field.{
  Field, pb_ltype, pb_htype, pb_atype, ltype_fixed32, ltype_fixed64, ltype_last_packable,
  ltype_bytes, ltype_string, ltype_fixed_length_bytes, htype_required, htype_optional,
  htype_repeated, htype_oneof, atype_static, atype_pointer, atype_callback,
}
use ios_college_work.Message.Encode.Env.{Env, Submessage}
use ios_college_work.Message.Encode.Items.{pb_encoder, pb_encode_tag_for_field}
use ios_college_work.Message.Encode.Default.{Answer, pb_check_proto3_default_value}

-- `for (i = 0; i < count; i++) { item(p); p += data_size; }`
unfoldable pub each_item :
    (ℕ → Cmd OStream (Unit {0})) → (count p data_size : ℕ) → Cmd OStream (Unit {0})
each_item item zero p data_size = ok tt
each_item item (suc count) p data_size = item p >> each_item item count (p + data_size) data_size

-- The size of the packed data, counted on a stream of its own where items vary in size.
unfoldable pub packed_size : Field → (count : ℕ) → Cmd OStream (Unit {0}) → Cmd OStream ℕ
packed_size field count items s =
    if pb_ltype field.type == ltype_fixed32
    then ok (4 * count) s
    else if pb_ltype field.type == ltype_fixed64
    then ok (8 * count) s
    else elim (items pb_ostream_sizing) [
      | ok _ counted ↦ ok counted.bytes_written s
      | err _ ↦ err s
      | fault ↦ fault
      | stuck ↦ stuck
    ]

is_sizing : WriteFn → Bool
is_sizing sizing = true
is_sizing buf_write = false
is_sizing (custom _) = false

-- The data itself, or just its size.
unfoldable pub packed_tail : Cmd OStream (Unit {0}) → (size : ℕ) → Cmd OStream (Unit {0})
unfolding is_sizing
packed_tail items size s = if is_sizing s.callback then pb_write [] size s else items s

unfoldable pub packed_body :
    Field → (count : ℕ) → (items : Cmd OStream (Unit {0})) → Cmd OStream (Unit {0})
packed_body field count items = do
  size ← packed_size field count items
  pb_encode_varint size
  packed_tail items size

unfoldable pub encode_packed :
    Field → (count : ℕ) → (items : Cmd OStream (Unit {0})) → Cmd OStream (Unit {0})
encode_packed field count items = pb_encode_tag wt_string field.tag >> packed_body field count items

-- An entry of an unpacked array; entries of pointer-type string and bytes fields are pointers.
unfoldable pub array_entry : Mem → Field → (ℕ → Cmd OStream (Unit {0})) → ℕ → Cmd OStream (Unit {0})
array_entry m field func p =
    let data_p =
      if (pb_atype field.type == atype_pointer)
        && (pb_ltype field.type == ltype_string || pb_ltype field.type == ltype_bytes)
      then load_pointer m p
      else p in
    pb_encode_tag_for_field field >> func data_p

unfoldable pub encode_array :
    Mem → Field → (p_data count : ℕ) → (ℕ → Cmd OStream (Unit {0})) → Cmd OStream (Unit {0})
encode_array m field p_data count func s =
    if count == 0
    then ok tt s
    else if not (pb_atype field.type == atype_pointer) && ltb field.array_size count
    then fail array_max_size_exceeded s
    else if leb (pb_ltype field.type) ltype_last_packable
    then encode_packed field count (each_item func count p_data field.data_size) s
    else each_item (array_entry m field func) count p_data field.data_size s

-- Where `pSize` points: into the message, or at the local variable `implicit_has`.
pub data SizePtr : Type 0 where
  at : ℕ → SizePtr
  implicit_has : Bool → SizePtr

-- `*(const bool*)pSize`, and `*(const pb_size_t*)pSize`, which reads past the end of a `bool`.
unfoldable pub read_has : Mem → SizePtr → Bool
read_has m (at p) = not (m p == 0)
read_has m (implicit_has b) = b

unfoldable pub read_size : Mem → SizePtr → Option ℕ
read_size m (at p) = some (load m p 4)
read_size m (implicit_has b) = none

unfoldable pub tag_and_item : Field → Cmd OStream (Unit {0}) → Cmd OStream (Unit {0})
tag_and_item field item = pb_encode_tag_for_field field >> item

unfoldable pub with_size : Option ℕ → (ℕ → Cmd OStream (Unit {0})) → Cmd OStream (Unit {0})
with_size none k s = fault
with_size (some size) k s = k size s

-- The switch on the HTYPE. `p_data` is the data itself, 0 if there is none.
unfoldable pub encode_by_htype :
    Mem → Field → SizePtr → (p_data : ℕ) → (ℕ → Cmd OStream (Unit {0})) → Cmd OStream (Unit {0})
unfolding read_has read_size tag_and_item with_size
encode_by_htype m field p_size p_data func s =
    let htype = pb_htype field.type in
    if htype == htype_required
    then if p_data == 0 then fail missing_required_field s else tag_and_item field (func p_data) s
    else if htype == htype_optional
    then if read_has m p_size then tag_and_item field (func p_data) s else ok tt s
    else if htype == htype_repeated
    then with_size (read_size m p_size) (λ count. encode_array m field p_data count func) s
    else if htype == htype_oneof
    then with_size (read_size m p_size)
        (λ which. if which == field.tag then tag_and_item field (func p_data) else ok tt) s
    else fail invalid_field_type s

-- `pSize`, before the data pointer is followed.
unfoldable pub size_ptr : Field → (p_data : ℕ) → (default present : Bool) → SizePtr
size_ptr field p_data default present =
    if field.size_offset == 0
    then implicit_has (
        if pb_atype field.type == atype_pointer
        then present
        else if pb_htype field.type == htype_optional
        then not default
        else true)
    else at (displace p_data field.size_offset)

-- With the outcome of the proto3 check, which is made where no size is stored.
unfoldable pub encode_present :
    Env → Submessage → Mem → Field → (p_data : ℕ) → (default : Bool) → Cmd OStream (Unit {0})
unfolding encode_by_htype size_ptr
encode_present env sub m field p_data default =
    let target = if pb_atype field.type == atype_pointer then load_pointer m p_data else p_data in
    encode_by_htype m field (size_ptr field p_data default (not (target == 0))) target
      (pb_encoder env sub m field)

unfoldable pub checked : Answer → (Bool → Cmd OStream (Unit {0})) → Cmd OStream (Unit {0})
checked (ok b t) k s = k b s
checked (err t) k s = err s
checked fault k s = fault
checked stuck k s = stuck

-- `func = PB_ENCODERS[PB_LTYPE(field->type)]` comes first, and the table ends with LTYPE_FIXED_LENGTH_BYTES.
unfoldable pub encode_basic_field :
    (depth : ℕ) → Env → Submessage → Mem → Field → (p_data : ℕ) → Cmd OStream (Unit {0})
unfolding checked encode_present
encode_basic_field depth env sub m field p_data s =
    if ltb ltype_fixed_length_bytes (pb_ltype field.type)
    then fault
    else if (field.size_offset == 0) && (pb_htype field.type == htype_optional)
    then checked (pb_check_proto3_default_value (suc depth) env m field p_data)
        (encode_present env sub m field p_data) s
    else encode_present env sub m field p_data false s

-- `struct pb_callback_s` is two pointers: the function, and `arg`, whose address the function is given.
unfoldable pub callback_result : Run OStream (Unit {0}) → Run OStream (Unit {0})
callback_result (ok _ s) = ok tt s
callback_result (err s) = fail callback_error s
callback_result fault = fault
callback_result stuck = stuck

unfoldable pub encode_callback_field : Env → Mem → Field → (p_data : ℕ) → Cmd OStream (Unit {0})
unfolding callback_result
encode_callback_field env m field p_data s =
    let func = load_pointer m p_data in
    if func == 0 then ok tt s else callback_result (env.encode_callback func field (p_data + 8) m s)

unfoldable pub encode_field :
    (depth : ℕ) → Env → Submessage → Mem → Field → (p_data : ℕ) → Cmd OStream (Unit {0})
encode_field depth env sub m field p_data s =
    let atype = pb_atype field.type in
    if atype == atype_static || atype == atype_pointer
    then encode_basic_field depth env sub m field p_data s
    else if atype == atype_callback
    then encode_callback_field env m field p_data s
    else fail invalid_field_type s
