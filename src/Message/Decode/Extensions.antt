-- ===== src/Message/Decode/Extensions.antt =====
-- Extension fields of the decoder.
use ios_college_work.Common.{
  ℕ, zero, suc, ◌+◌, Bool, true, false, not, length, ◌==◌, ◌&&◌, if◌then◌else◌, Cmd, ok, stuck,
  ◌>>◌,
}
use ios_college_work.Message.Memory.{load_pointer}
use ios_college_work.Message.Field.{field_at, pb_ltype, ltype_extension}
use ios_college_work.Message.Iter.{FieldIter, current, pb_field_iter_next}
use ios_college_work.Message.Encode.Messages.{extension_next}
use ios_college_work.Message.Decode.Machine.{Machine, write}
use ios_college_work.Message.Decode.Env.{DecodeEnv, Nested}
use ios_college_work.Message.Decode.Defaults.{extension_found, iter_from_extension}
use ios_college_work.Message.Decode.Fields.{decode_field}

unfoldable pub default_extension_decoder :
    (depth : ℕ) → DecodeEnv → Nested → (extension tag wire_type : ℕ) → Cmd Machine (Unit {0})
unfolding write
default_extension_decoder depth env noinit extension tag wire_type s =
    let field = field_at (env.table (load_pointer s.mem (load_pointer s.mem extension + 16))) 0 in
    let iter = iter_from_extension env.table s.mem extension in
    if not (field.tag == tag)
    then ok tt s
    else (write (extension_found extension) 1 1 >> decode_field depth env noinit wire_type iter) s

unfoldable pub decode_one_extension :
    (depth : ℕ) → DecodeEnv → Nested → (extension tag wire_type : ℕ) → Cmd Machine (Unit {0})
unfolding default_extension_decoder
decode_one_extension depth env noinit extension tag wire_type s =
    let func = load_pointer s.mem (load_pointer s.mem extension) in
    if func == 0
    then default_extension_decoder depth env noinit extension tag wire_type s
    else env.decode_extension func extension tag wire_type s

-- The loop over the extensions, until one of them has taken something. `pos` is where the stream was.
unfoldable pub decode_extensions :
    (fuel : ℕ) → (one : ℕ → Cmd Machine (Unit {0})) → (extension pos : ℕ) → Cmd Machine (Unit {0})
decode_extensions zero one extension pos s = stuck
decode_extensions (suc fuel) one extension pos s =
    let more = λ (t : Machine).
      decode_extensions fuel one (load_pointer t.mem (extension_next extension)) pos t in
    if not (extension == 0) && (pos == s.stream.bytes_left)
    then (one extension >> more) s
    else ok tt s

-- `depth` is the fuel for the list too.
unfoldable pub decode_extension :
    (depth : ℕ) → DecodeEnv → Nested → (tag wire_type : ℕ) → FieldIter → Cmd Machine (Unit {0})
unfolding decode_extensions decode_one_extension
decode_extension depth env noinit tag wire_type iter s =
    decode_extensions depth
      (λ extension. decode_one_extension depth env noinit extension tag wire_type)
      (load_pointer s.mem iter.p_data) s.stream.bytes_left s

-- The search around the table, as in `pb_field_iter_find`.
unfoldable pub find_extension_loop : (fuel start : ℕ) → FieldIter → FieldIter × Bool
find_extension_loop zero start iter = (iter, false)
find_extension_loop (suc fuel) start iter =
    let next = (pb_field_iter_next iter).0 in
    let more = find_extension_loop fuel start next in
    if pb_ltype (current iter).type == ltype_extension
    then (iter, true)
    else if next.pos == start
    then (next, false)
    else more

unfoldable pub find_extension_field : FieldIter → FieldIter × Bool
unfolding find_extension_loop
find_extension_field iter = find_extension_loop (suc (length iter.start)) iter.pos iter
