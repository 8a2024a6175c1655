-- ===== src/Message/Decode/Defaults.antt =====
-- Default values: `pb_field_set_to_default` and `pb_message_set_to_defaults`, on the memory alone.
use ios_college_work.Common.{
  ℕ, zero, suc, ◌+◌, Bool, true, false, not, List, length, ◌==◌, ◌&&◌, ◌||◌, if◌then◌else◌, Cmd, ok,
  fault, stuck, ◌>>◌,
}
use ios_college_work.Message.Memory.{Mem, bytes_at, load_pointer}
use ios_college_work.Message.Field.{
  Field, pb_ltype, pb_htype, pb_atype, ltype_submessage, ltype_extension, htype_optional,
  htype_repeated, htype_oneof, atype_static, atype_pointer,
}
use ios_college_work.Message.Iter.{FieldIter, current, pb_field_iter_begin, pb_field_iter_next}
use ios_college_work.Message.Encode.Messages.{extension_dest, extension_next}
use ios_college_work.Message.Decode.Machine.{store, store_bytes}

-- `found` of `struct pb_extension_s`.
abbrev pub extension_found : ℕ → ℕ
extension_found extension = extension + 24

-- The iterator on the entry of an extension, which stands in the memory.
unfoldable pub iter_from_extension : (table : ℕ → List Field) → Mem → (extension : ℕ) → FieldIter
iter_from_extension table m extension =
    let fields = table (load_pointer m (load_pointer m extension + 16)) in
    let dest = load_pointer m (extension_dest extension) in
    let iter = (pb_field_iter_begin fields dest).0 in
    record iter {
      p_data =
          if pb_atype (current iter).type == atype_pointer then extension_dest extension else dest;
      p_size = extension_found extension;
    }

abbrev pub poke : (p size value : ℕ) → Cmd Mem (Unit {0})
poke p size value m = ok tt (store m p size value)

-- The loop over the extensions of a message, with fuel for their list.
unfoldable pub default_extensions :
    (fuel : ℕ)
    → (table : ℕ → List Field) → (FieldIter → Cmd Mem (Unit {0}))
    → (extension : ℕ) → Cmd Mem (Unit {0})
default_extensions zero table set extension m = stuck
default_extensions (suc fuel) table set extension m =
    let more = λ (m' : Mem).
      default_extensions fuel table set (load_pointer m' (extension_next extension)) m' in
    if extension == 0
    then ok tt m
    else (poke (extension_found extension) 1 0
          >> (λ m'. set (iter_from_extension table m' extension) m')
          >> more)
        m

-- `do { pb_field_set_to_default(&iter); } while (pb_field_iter_next(&iter));`
unfoldable pub default_fields :
    (fuel : ℕ) → (FieldIter → Cmd Mem (Unit {0})) → FieldIter → Cmd Mem (Unit {0})
default_fields zero set iter m = stuck
default_fields (suc fuel) set iter m =
    let next = pb_field_iter_next iter in
    let more = default_fields fuel set next.0 in (set iter >> (if next.1 then more else ok tt)) m

-- `pb_message_set_to_defaults`, where `set` is `pb_field_set_to_default`.
unfoldable pub default_message :
    (FieldIter → Cmd Mem (Unit {0})) → FieldIter × Bool → Cmd Mem (Unit {0})
unfolding default_fields
default_message set (iter, false) = ok tt
default_message set (iter, true) = default_fields (suc (length iter.start)) set iter

-- The value of a static field that is not an array: its submessage, whose table is dereferenced, the value at `ptr`, or zeros.
unfoldable pub default_value :
    (message : List Field → ℕ → Cmd Mem (Unit {0}))
    → (table : ℕ → List Field) → Field
    → (p_data : ℕ) → Cmd Mem (Unit {0})
default_value message table field p_data m =
    if pb_ltype field.type == ltype_submessage
    then if field.ptr == 0 then fault else message (table field.ptr) p_data m
    else if not (field.ptr == 0)
    then ok tt (store_bytes m p_data (bytes_at m field.ptr field.data_size))
    else poke p_data field.data_size 0 m

unfoldable pub default_static :
    (message : List Field → ℕ → Cmd Mem (Unit {0}))
    → (table : ℕ → List Field) → FieldIter
    → Cmd Mem (Unit {0})
unfolding default_value
default_static message table iter m =
    let field = current iter in
    let htype = pb_htype field.type in
    let value = default_value message table field iter.p_data in
    if htype == htype_optional && not (iter.p_size == iter.p_data)
    then (poke iter.p_size 1 0 >> value) m
    else if htype == htype_repeated || htype == htype_oneof
    then poke iter.p_size 4 0 m
    else value m

unfoldable pub default_pointer : FieldIter → Cmd Mem (Unit {0})
default_pointer iter m =
    let htype = pb_htype (current iter).type in
    (poke iter.p_data 8 0
        >> (if htype == htype_repeated || htype == htype_oneof
            then poke iter.p_size 4 0
            else ok tt))
      m

-- `depth` bounds the nesting of submessages, and the length of the lists of extensions.
unfoldable pub pb_field_set_to_default :
    (depth : ℕ) → (table : ℕ → List Field) → FieldIter → Cmd Mem (Unit {0})
unfolding default_extensions default_message default_static default_pointer
pb_field_set_to_default zero table iter m = stuck
pb_field_set_to_default (suc depth) table iter m =
    let set = pb_field_set_to_default depth table in
    let type = (current iter).type in
    if pb_ltype type == ltype_extension
    then default_extensions depth table set (load_pointer m iter.p_data) m
    else if pb_atype type == atype_static
    then default_static (λ fields dest. default_message set (pb_field_iter_begin fields dest)) table
        iter m
    else if pb_atype type == atype_pointer
    then default_pointer iter m
    else ok tt m

unfoldable pub pb_message_set_to_defaults :
    (depth : ℕ) → (table : ℕ → List Field) → List Field → (dest_struct : ℕ) → Cmd Mem (Unit {0})
unfolding default_message
pb_message_set_to_defaults depth table fields dest_struct =
    default_message (pb_field_set_to_default depth table) (pb_field_iter_begin fields dest_struct)
