-- ===== src/Message/Decode/Static.antt =====
-- `decode_static_field`.
use ios_college_work.Common.{
  ℕ, zero, suc, ◌+◌, ◌*◌, ◌%◌, ◌^◌, Bool, true, false, not, ltb, leb, ◌==◌, ◌&&◌, if◌then◌else◌,
  Run, Cmd, ok, err, fault, stuck, and_then, ◌>>=◌, ◌>>◌,
}
use ios_college_work.Stream.Errors.{invalid_field_type, array_overflow}
use ios_college_work.Stream.Input.{IStream}
use ios_college_work.Wire.Encode.{wt_string}
use ios_college_work.Wire.Decode.{pb_make_string_substream}
use ios_college_work.Message.Memory.{load}
use ios_college_work.Message.Field.{
  pb_ltype, pb_htype, Field, ltype_last_packable, ltype_submessage, ltype_fixed_length_bytes,
  htype_required, htype_optional, htype_repeated, htype_oneof,
}
use ios_college_work.Message.Iter.{FieldIter, current}
use ios_college_work.Message.Decode.Machine.{Machine, machine, on_stream, refuse, write}
use ios_college_work.Message.Decode.Env.{DecodeEnv, Nested}
use ios_college_work.Message.Decode.Nest.{outcome, close, pb_message_set, pb_decoder}

-- `(char*)iter->pData + data_size * (*size)`: both factors are a `uint32_t`.
abbrev pub item_address : FieldIter → (size : ℕ) → ℕ
item_address iter size = iter.p_data + ((current iter).data_size * size) % 2 ^ 32

-- `(*size)++`
unfoldable pub count_item : (p_size : ℕ) → Cmd Machine (Unit {0})
unfolding write
count_item p_size s = write p_size 4 ((load s.mem p_size 4 + 1) % 2 ^ 32) s

-- The loop over a packed array, on the substream: `status`. Each item takes a byte at least.
unfoldable pub packed_items :
    (fuel : ℕ) → (func : ℕ → Cmd Machine (Unit {0})) → FieldIter → Cmd Machine Bool
unfolding outcome count_item
packed_items zero func iter s = stuck
packed_items (suc fuel) func iter s =
    let more = packed_items fuel func iter in
    let size = load s.mem iter.p_size 4 in
    if ltb 0 s.stream.bytes_left && ltb size (current iter).array_size
    then and_then (outcome (func (item_address iter size) s))
        (λ status. if status then (count_item iter.p_size >> more) else ok false)
    else ok true s

-- Behind the loop.
unfoldable pub close_packed : (parent : IStream) → Run Machine Bool → Run Machine (Unit {0})
unfolding close
close_packed parent (ok status s) =
    if not (s.stream.bytes_left == 0)
    then refuse array_overflow (machine parent s.mem)
    else close parent (ok status s)
close_packed parent (err s) = err s
close_packed parent fault = fault
close_packed parent stuck = stuck

unfoldable pub packed_body :
    (func : ℕ → Cmd Machine (Unit {0})) → FieldIter → IStream → Cmd Machine (Unit {0})
unfolding packed_items close_packed
packed_body func iter substream s =
    close_packed s.stream
      (packed_items (suc substream.bytes_left) func iter (machine substream s.mem))

unfoldable pub decode_entry :
    (func : ℕ → Cmd Machine (Unit {0})) → FieldIter → Cmd Machine (Unit {0})
unfolding count_item
decode_entry func iter s =
    let size = load s.mem iter.p_size 4 in
    if leb (current iter).array_size size
    then refuse array_overflow s
    else (count_item iter.p_size >> func (item_address iter size)) s

-- `pb_message_set_to_defaults(iter->pos->ptr, iter->pData)`
unfoldable pub set_submessage :
    (depth : ℕ) → DecodeEnv → Field → (dest : ℕ) → Cmd Machine (Unit {0})
unfolding pb_message_set
set_submessage depth env field dest s =
    if field.ptr == 0 then fault else pb_message_set depth env (env.table field.ptr) dest s

unfoldable pub decode_oneof :
    (depth : ℕ)
    → DecodeEnv
    → (func : ℕ → Cmd Machine (Unit {0})) → FieldIter
    → Cmd Machine (Unit {0})
unfolding write set_submessage
decode_oneof depth env func iter =
    let field = current iter in
    write iter.p_size 4 field.tag
    >> (if pb_ltype field.type == ltype_submessage
        then write iter.p_data field.data_size 0 >> set_submessage depth env field iter.p_data
        else ok tt)
    >> func iter.p_data

-- `func = PB_DECODERS[PB_LTYPE(type)]` comes first, and the table ends with LTYPE_FIXED_LENGTH_BYTES.
unfoldable pub decode_static_field :
    (depth : ℕ) → DecodeEnv → Nested → (wire_type : ℕ) → FieldIter → Cmd Machine (Unit {0})
unfolding packed_body decode_entry decode_oneof write
decode_static_field depth env noinit wire_type iter s =
    let field = current iter in
    let htype = pb_htype field.type in
    let func = pb_decoder depth env noinit field in
    if ltb ltype_fixed_length_bytes (pb_ltype field.type)
    then fault
    else if htype == htype_required
    then func iter.p_data s
    else if htype == htype_optional
    then ((if iter.p_size == iter.p_data then ok tt else write iter.p_size 1 1) >> func iter.p_data)
        s
    else if htype == htype_repeated
    then if wire_type == wt_string && leb (pb_ltype field.type) ltype_last_packable
      then (on_stream pb_make_string_substream >>= packed_body func iter) s
      else decode_entry func iter s
    else if htype == htype_oneof
    then decode_oneof depth env func iter s
    else refuse invalid_field_type s
