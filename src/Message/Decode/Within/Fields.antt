-- ===== src/Message/Decode/Within/Fields.antt =====
-- `decode_field` within the region of a message.
use ios_college_work.Common.{ℕ, Bool-cases, inl, inr, ◌==◌, List, arith}
use ios_college_work.Stream.Errors.{invalid_field_type, no_malloc_support}
use ios_college_work.Message.Field.{Field, pb_atype, atype_static, atype_pointer, atype_callback}
use ios_college_work.Message.Iter.{FieldIter, current}
use ios_college_work.Message.Decode.Env.{DecodeEnv, Nested}
use ios_college_work.Message.Decode.Fields.{decode_pointer_field, decode_field}
use ios_college_work.Message.Decode.Layout.{FieldFits, IsLaidOut}
use ios_college_work.Message.Decode.Within.{WithinCmd, Any, refuse-Within}
use ios_college_work.Message.Decode.Within.Static.{decode_static_field-Within}
use ios_college_work.Message.Decode.Within.Callbacks.{CallbacksFit, decode_callback_field-Within}

module _ (lo len depth : ℕ) (env : DecodeEnv) (noinit : Nested) (fit : CallbacksFit lo len env)
    (each : (fields : List Field) (dest most : ℕ)
      → IsLaidOut depth lo len env.table fields dest
      → WithinCmd lo len (Any {A = Unit {0}}) 0 most (noinit fields dest))
    (iter : FieldIter)
    (fits : FieldFits lo len (IsLaidOut depth lo len env.table) env.table iter) where
  pub decode_field-Within :
      (most wire_type : ℕ)
      → WithinCmd lo len (Any {A = Unit {0}}) 0 most (decode_field depth env noinit wire_type iter)
  unfolding decode_field decode_pointer_field
  decode_field-Within most wire_type =
      let atype = pb_atype (current iter).type in
      elim (Bool-cases (atype == atype_static)) [
        | inl t ↦ rw t (
            decode_static_field-Within lo len depth env noinit each iter fits (ground arith) most
              wire_type)
        | inr t0 ↦ elim (Bool-cases (atype == atype_pointer)) [
          | inl t ↦ rw (t0, t) (refuse-Within lo len (Any {A = Unit {0}}) 0 most no_malloc_support)
          | inr t1 ↦ elim (Bool-cases (atype == atype_callback)) [
            | inl t ↦
                rw (t0, t1, t) (decode_callback_field-Within lo len env fit iter most wire_type)
            | inr t ↦
                rw (t0, t1, t) (refuse-Within lo len (Any {A = Unit {0}}) 0 most invalid_field_type)
          ]
        ]
      ]
