-- ===== src/Message/Encode/Messages.antt =====
-- Extension fields and whole messages: `pb_encode` and its kin.
use ios_college_work.Common.{
  ℕ, zero, suc, ◌+◌, Bool, true, false, List, length, ◌==◌, if◌then◌else◌, Run, Cmd, ok, stuck,
  ◌>>=◌, ◌>>◌,
}
use ios_college_work.Stream.Output.{OStream, pb_ostream_sizing}
use ios_college_work.Message.Memory.{Mem, load_pointer}
use ios_college_work.Message.Field.{
  Field, field_at, pb_ltype, pb_atype, ltype_extension, atype_pointer,
}
use ios_college_work.Message.Iter.{FieldIter, current, pb_field_iter_begin, pb_field_iter_next}
use ios_college_work.Message.Encode.Env.{Env, Submessage}
use ios_college_work.Message.Encode.Items.{pb_encode_submessage}
use ios_college_work.Message.Encode.Fields.{encode_field}

-- `struct pb_extension_s` holds the pointers `type`, `dest` and `next`; `pb_extension_type_t` the pointers
-- `decode`, `encode` and `arg`, the last of which leads to the descriptor.
abbrev pub extension_dest : ℕ → ℕ
extension_dest extension = extension + 8

abbrev pub extension_next : ℕ → ℕ
extension_next extension = extension + 16

unfoldable pub default_extension_encoder :
    (depth : ℕ) → Env → Submessage → Mem → (extension : ℕ) → Cmd OStream (Unit {0})
default_extension_encoder depth env sub m extension =
    let field = field_at (env.table (load_pointer m (load_pointer m extension + 16))) 0 in
    if pb_atype field.type == atype_pointer
    then encode_field depth env sub m field (extension_dest extension)
    else encode_field depth env sub m field (load_pointer m (extension_dest extension))

-- The walk along the list, with fuel for its length.
unfoldable pub encode_extensions :
    (fuel : ℕ) → (one : ℕ → Cmd OStream (Unit {0})) → Mem → (extension : ℕ) → Cmd OStream (Unit {0})
encode_extensions zero one m extension s = stuck
encode_extensions (suc fuel) one m extension s =
    let more = encode_extensions fuel one m (load_pointer m (extension_next extension)) in
    if extension == 0 then ok tt s else (one extension >> more) s

unfoldable pub encode_one_extension :
    (depth : ℕ) → Env → Submessage → Mem → (extension : ℕ) → Cmd OStream (Unit {0})
encode_one_extension depth env sub m extension =
    let func = load_pointer m (load_pointer m extension + 8) in
    if func == 0
    then default_extension_encoder depth env sub m extension
    else env.encode_extension func extension m

unfoldable pub encode_extension_field :
    (depth : ℕ) → Env → Submessage → Mem → (p_data : ℕ) → Cmd OStream (Unit {0})
encode_extension_field depth env sub m p_data =
    encode_extensions depth (encode_one_extension depth env sub m) m (load_pointer m p_data)

-- `do { … } while (pb_field_iter_next(&iter));`
unfoldable pub each_field :
    (fuel : ℕ) → (FieldIter → Cmd OStream (Unit {0})) → FieldIter → Cmd OStream (Unit {0})
each_field zero encode iter s = stuck
each_field (suc fuel) encode iter s =
    let next = pb_field_iter_next iter in
    let more = each_field fuel encode next.0 in (encode iter >> (if next.1 then more else ok tt)) s

unfoldable pub encode_entry :
    (depth : ℕ) → Env → Submessage → Mem → FieldIter → Cmd OStream (Unit {0})
encode_entry depth env sub m iter s =
    if pb_ltype (current iter).type == ltype_extension
    then encode_extension_field depth env sub m iter.p_data s
    else encode_field depth env sub m (current iter) iter.p_data s

unfoldable pub encode_from :
    (FieldIter → Cmd OStream (Unit {0})) → FieldIter × Bool → Cmd OStream (Unit {0})
unfolding each_field
encode_from encode (iter, false) = ok tt
encode_from encode (iter, true) = each_field (suc (length iter.start)) encode iter

-- `depth` bounds the nesting of submessages, and the length of the lists of extensions.
unfoldable pub pb_encode : (depth : ℕ) → Env → Mem → Submessage
unfolding encode_entry
pb_encode zero env m fields src s = stuck
pb_encode (suc depth) env m fields src s =
    encode_from (encode_entry depth env (pb_encode depth env m) m) (pb_field_iter_begin fields src)
      s

unfoldable pub pb_encode_delimited : (depth : ℕ) → Env → Mem → Submessage
pb_encode_delimited depth env m fields src = pb_encode_submessage (pb_encode depth env m fields src)

-- The size, or the sizing stream where `pb_encode` has failed.
unfoldable pub pb_get_encoded_size : (depth : ℕ) → Env → Mem → List Field → ℕ → Run OStream ℕ
pb_get_encoded_size depth env m fields src =
    (pb_encode depth env m fields src >>= (λ _ s. ok s.bytes_written s)) pb_ostream_sizing
