-- ===== src/Message/Decode/Nest.antt =====
-- Submessages, and the table PB_DECODERS.
use ios_college_work.Common.{
  ℕ, Bool, true, false, List, ◌==◌, if◌then◌else◌, Run, Cmd, ok, err, fault, stuck, and_then, ◌>>=◌,
  ◌>>◌,
}
use ios_college_work.Stream.Errors.{invalid_field_descriptor}
use ios_college_work.Stream.Input.{IStream}
use ios_college_work.Wire.Decode.{pb_make_string_substream, pb_close_string_substream}
use ios_college_work.Message.Memory.{Mem}
use ios_college_work.Message.Field.{
  Field, pb_ltype, pb_htype, ltype_varint, ltype_uvarint, ltype_svarint, ltype_fixed32,
  ltype_fixed64, ltype_bytes, ltype_string, ltype_submessage, ltype_fixed_length_bytes,
  htype_repeated,
}
use ios_college_work.Message.Decode.Machine.{Machine, machine, on_memory, on_stream, refuse}
use ios_college_work.Message.Decode.Env.{DecodeEnv, Nested}
use ios_college_work.Message.Decode.Defaults.{pb_message_set_to_defaults}
use ios_college_work.Message.Decode.Items.{
  pb_dec_varint, pb_dec_uvarint, pb_dec_svarint, pb_dec_fixed32, pb_dec_fixed64, pb_dec_bytes,
  pb_dec_string, pb_dec_fixed_length_bytes,
}

-- A function on the memory, where the stream stays as it is.
unfoldable pub off_stream : {A : Type 0} → IStream → Run Mem A → Run Machine A
off_stream t (ok a m) = ok a (machine t m)
off_stream t (err m) = err (machine t m)
off_stream t fault = fault
off_stream t stuck = stuck

unfoldable pub pb_message_set :
    (depth : ℕ) → DecodeEnv → List Field → (dest : ℕ) → Cmd Machine (Unit {0})
unfolding off_stream
pb_message_set depth env fields dest s =
    off_stream s.stream (pb_message_set_to_defaults depth env.table fields dest s.mem)

-- `status`, and the machine as it was left.
unfoldable pub outcome : Run Machine (Unit {0}) → Run Machine Bool
outcome (ok _ s) = ok true s
outcome (err s) = ok false s
outcome fault = fault
outcome stuck = stuck

-- `return status;`
unfoldable pub returned : Bool → Cmd Machine (Unit {0})
returned true s = ok tt s
returned false s = err s

-- Behind the work on a substream: `if (!pb_close_string_substream(stream, &substream)) return false;`
unfoldable pub close : (parent : IStream) → Run Machine Bool → Run Machine (Unit {0})
unfolding returned
close parent (ok status s) =
    and_then (on_memory s.mem (pb_close_string_substream s.stream parent)) (λ _. returned status)
close parent (err s) = err s
close parent fault = fault
close parent stuck = stuck

-- `pb_decode` or `pb_decode_noinit` on the fields of a submessage.
unfoldable pub decode_nested :
    (depth : ℕ) → DecodeEnv → (noinit : Nested) → Field → (dest : ℕ) → Cmd Machine (Unit {0})
unfolding pb_message_set
decode_nested depth env noinit field dest s =
    let fields = env.table field.ptr in
    if pb_htype field.type == htype_repeated
    then (pb_message_set depth env fields dest >> noinit fields dest) s
    else noinit fields dest s

unfoldable pub submessage_body :
    (depth : ℕ) → DecodeEnv → Nested → Field → (dest : ℕ) → IStream → Cmd Machine (Unit {0})
unfolding decode_nested close outcome
submessage_body depth env noinit field dest substream s =
    if field.ptr == 0
    then refuse invalid_field_descriptor s
    else close s.stream
        (outcome (decode_nested depth env noinit field dest (machine substream s.mem)))

unfoldable pub pb_dec_submessage :
    (depth : ℕ) → DecodeEnv → Nested → Field → (dest : ℕ) → Cmd Machine (Unit {0})
unfolding submessage_body
pb_dec_submessage depth env noinit field dest =
    on_stream pb_make_string_substream >>= submessage_body depth env noinit field dest

-- `PB_DECODERS[ltype](stream, field, dest)`; there is none for extensions, and none behind the end.
unfoldable pub pb_decoder :
    (depth : ℕ) → DecodeEnv → Nested → Field → (dest : ℕ) → Cmd Machine (Unit {0})
pb_decoder depth env noinit field dest s =
    let ltype = pb_ltype field.type in
    if ltype == ltype_varint
    then pb_dec_varint field dest s
    else if ltype == ltype_uvarint
    then pb_dec_uvarint field dest s
    else if ltype == ltype_svarint
    then pb_dec_svarint field dest s
    else if ltype == ltype_fixed32
    then pb_dec_fixed32 field dest s
    else if ltype == ltype_fixed64
    then pb_dec_fixed64 field dest s
    else if ltype == ltype_bytes
    then pb_dec_bytes field dest s
    else if ltype == ltype_string
    then pb_dec_string field dest s
    else if ltype == ltype_submessage
    then pb_dec_submessage depth env noinit field dest s
    else if ltype == ltype_fixed_length_bytes
    then pb_dec_fixed_length_bytes field dest s
    else fault
