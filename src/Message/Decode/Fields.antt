-- ===== src/Message/Decode/Fields.antt =====
-- `decode_field`.
use ios_college_work.Common.{ℕ, ◌==◌, if◌then◌else◌, Cmd}
use ios_college_work.Stream.Errors.{invalid_field_type, no_malloc_support}
use ios_college_work.Message.Field.{pb_atype, atype_static, atype_pointer, atype_callback}
use ios_college_work.Message.Iter.{FieldIter, current}
use ios_college_work.Message.Decode.Machine.{Machine, refuse}
use ios_college_work.Message.Decode.Env.{DecodeEnv, Nested}
use ios_college_work.Message.Decode.Static.{decode_static_field}
use ios_college_work.Message.Decode.Callbacks.{decode_callback_field}

-- Without PB_ENABLE_MALLOC, `decode_pointer_field` only refuses.
unfoldable pub decode_pointer_field : Cmd Machine (Unit {0})
decode_pointer_field = refuse no_malloc_support

unfoldable pub decode_field :
    (depth : ℕ) → DecodeEnv → Nested → (wire_type : ℕ) → FieldIter → Cmd Machine (Unit {0})
unfolding decode_static_field decode_callback_field decode_pointer_field
decode_field depth env noinit wire_type iter s =
    let atype = pb_atype (current iter).type in
    if atype == atype_static
    then decode_static_field depth env noinit wire_type iter s
    else if atype == atype_pointer
    then decode_pointer_field s
    else if atype == atype_callback
    then decode_callback_field env wire_type iter s
    else refuse invalid_field_type s
