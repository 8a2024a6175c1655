-- ===== src/Message/Encode/Default.antt =====
-- `pb_check_proto3_default_value`.
use ios_college_work.Common.{
  ℕ, zero, suc, Bool, true, false, Run, ok, err, fault, stuck, length, ◌==◌, if◌then◌else◌,
}
use ios_college_work.Message.Memory.{Mem, load, all_zero}
use ios_college_work.Message.Field.{
  Field, pb_ltype, pb_atype, ltype_bytes, ltype_string, ltype_submessage, ltype_fixed_length_bytes,
  atype_static,
}
use ios_college_work.Message.Iter.{FieldIter, current, pb_field_iter_begin, pb_field_iter_next}
use ios_college_work.Message.Encode.Env.{Env}

-- The answer, `fault` where NULL is dereferenced, or `stuck`.
abbrev pub Answer : Type 0
Answer = Run (Unit {0}) Bool

abbrev answer : Bool → Answer
answer b = ok b tt

-- The do-while loop over the fields of a submessage.
unfoldable pub all_default : (fuel : ℕ) → (Field → ℕ → Answer) → FieldIter → Answer
all_default zero check iter = stuck
all_default (suc fuel) check iter =
    let next = pb_field_iter_next iter in
    let more = all_default fuel check next.0 in
    elim (check (current iter) iter.p_data) [
      | ok b t ↦ if b then (if next.1 then more else answer true) else answer false
      | err t ↦ err t
      | fault ↦ fault
      | stuck ↦ stuck
    ]

unfoldable pub submessage_default : (Field → ℕ → Answer) → FieldIter × Bool → Answer
unfolding all_default
submessage_default check (iter, false) = answer true
submessage_default check (iter, true) = all_default (suc (length iter.start)) check iter

-- `depth` bounds the nesting of submessages.
unfoldable pub pb_check_proto3_default_value : (depth : ℕ) → Env → Mem → Field → ℕ → Answer
pb_check_proto3_default_value zero env m field p = stuck
pb_check_proto3_default_value (suc depth) env m field p =
    let check = pb_check_proto3_default_value depth env m in
    let ltype = pb_ltype field.type in
    let bytewise = answer (all_zero m p field.data_size) in
    if pb_atype field.type == atype_static
    then if ltype == ltype_bytes
      then answer (load m p 4 == 0)
      else if ltype == ltype_string
      then answer (m p == 0)
      else if ltype == ltype_fixed_length_bytes
      then answer (field.data_size == 0)
      else if ltype == ltype_submessage
      then if field.ptr == 0
        then fault
        else submessage_default check (pb_field_iter_begin (env.table field.ptr) p)
      else bytewise
    else bytewise
