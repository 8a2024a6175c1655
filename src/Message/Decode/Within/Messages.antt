-- ===== src/Message/Decode/Within/Messages.antt =====
-- `pb_decode_noinit`, `pb_decode` and `pb_decode_delimited` on arbitrary bytes.
use ios_college_work.Common.{
  ℕ, zero, suc, ◌-◌, ◌^◌, ◌<◌, ◌≡◌, ◌≢◌, refl, inl, inr, true, Bool-cases, ltb, Option, List,
  length, arith, ok, ◌>>◌,
}
use ios_college_work.Stream.Errors.{Error}
use ios_college_work.Stream.Buffers.{input}
use ios_college_work.Wire.Decode.{Header, pb_skip_field}
use ios_college_work.Wire.Safe.{pb_skip_field-Safe}
use ios_college_work.Message.Memory.{Mem}
use ios_college_work.Message.Field.{Field, pb_ltype, ltype_extension}
use ios_college_work.Message.Iter.{FieldIter, current, pb_field_iter_begin, pb_field_iter_find}
use ios_college_work.Message.Decode.Machine.{machine, on_stream}
use ios_college_work.Message.Decode.Env.{DecodeEnv}
use ios_college_work.Message.Decode.Nest.{pb_message_set}
use ios_college_work.Message.Decode.Fields.{decode_field}
use ios_college_work.Message.Decode.Extensions.{find_extension_field}
use ios_college_work.Message.Decode.Messages.{
  Progress, mark_seen, known_field, skip_unknown, unknown_field, tagged_field, decode_fields,
  check_required, first_progress, pb_decode_noinit, pb_decode, delimited_body, pb_decode_delimited,
}
use ios_college_work.Message.Decode.Layout.{
  FieldFits, CountFits, IsLaidOut, On, On-begin, On-here, On-find,
}
use ios_college_work.Message.Decode.Within.{Holds, Within, WithinCmd, Any, bind-Within, ok-Within}
use ios_college_work.Message.Decode.Within.Steps.{on_stream-Within}
use ios_college_work.Message.Decode.Within.Callbacks.{CallbacksFit}
use ios_college_work.Message.Decode.Within.Fields.{decode_field-Within}
use ios_college_work.Message.Decode.Within.Seek.{seek_end-last, find_extension_field-none}
use ios_college_work.Message.Decode.Within.Seen.{mark_seen-Within, check_end-Within}
use ios_college_work.Message.Decode.Within.Rounds.{decode_fields-Within}
use ios_college_work.Message.Decode.Within.Nest.{pb_message_set-Within, closed-Framed}
use ios_college_work.Message.Decode.Within.Substream.{substream-Within}

module _ (lo len : ℕ) (env : DecodeEnv) (fit : CallbacksFit lo len env) where
  module _ (depth : ℕ)
      (each : (fields : List Field) (dest most : ℕ)
        → IsLaidOut depth lo len env.table fields dest
        → WithinCmd lo len (Any {A = Unit {0}}) 0 most (pb_decode_noinit depth env fields dest))
      (fields : List Field) (dest : ℕ) where
    abbrev Fits : FieldIter → Type 0
    Fits = FieldFits lo len (IsLaidOut depth lo len env.table) env.table

    -- The iterator stays on the table, and the bitmap has its two words.
    abbrev Good : Progress → Type 0
    Good prog = On fields dest Fits CountFits prog.iter × (length prog.fields_seen ≡ 2)

    module _ (whole : On fields dest Fits CountFits (pb_field_iter_begin fields dest).0) where
      known-Within :
          (header : Header) (prog : Progress) (most : ℕ)
          → Good prog
          → WithinCmd lo len Good 0 most
              (known_field depth env (pb_decode_noinit depth env) header prog)
      unfolding known_field
      known-Within header prog most good =
          bind-Within lo len Good Good 0 most (mark_seen prog)
            (λ p.
              decode_field depth env (pb_decode_noinit depth env) header.wire_type p.iter >> ok p)
            (mark_seen-Within lo len (On fields dest Fits CountFits) most prog good.0 good.1)
            (λ p fine.
              bind-Within lo len (Any {A = Unit {0}}) Good 0 (most - 0)
                (decode_field depth env (pb_decode_noinit depth env) header.wire_type p.iter)
                (λ _. ok p)
                (decode_field-Within lo len depth env (pb_decode_noinit depth env) fit each p.iter
                  (On-here fields dest Fits CountFits p.iter fine.0) (most - 0) header.wire_type)
                (λ _ _. ok-Within lo len Good (most - 0 - 0) p fine))

      skip-Within :
          (header : Header) (prog : Progress) (most : ℕ)
          → Good prog
          → WithinCmd lo len Good 0 most (skip_unknown header prog)
      unfolding skip_unknown
      skip-Within header prog most good =
          bind-Within lo len (Any {A = Unit {0}}) Good 0 most
            (on_stream (pb_skip_field header.wire_type)) (λ _. ok prog)
            (on_stream-Within lo len most (pb_skip_field header.wire_type)
              (pb_skip_field-Safe header.wire_type))
            (λ _ _. ok-Within lo len Good (most - 0) prog good)

      plain : (iter : FieldIter) → Fits iter → pb_ltype (current iter).type ≢ ltype_extension
      plain iter fits = ground (arith, fits.known)

      -- A tag of 29 bits is below the range for extensions, where the table has none.
      unknown-Within :
          (header : Header) (prog : Progress) (most : ℕ)
          → Good prog
          → header.tag < 2 ^ 29
          → WithinCmd lo len Good 0 most
              (unknown_field depth env (pb_decode_noinit depth env) header prog)
      unfolding unknown_field
      unknown-Within header prog most good low =
          let found = find_extension_field prog.iter in
          let (missing, on) =
            find_extension_field-none fields dest Fits CountFits whole plain prog.iter good.0 in
          let below : ltb header.tag (2 ^ 32 - 1) ≡ true = ground (arith, low) in
          let prog' : Progress = record prog {
            iter = found.0;
            extension_range_start = 2 ^ 32 - 1;
          } in
          elim (Bool-cases (ltb header.tag prog.extension_range_start)) [
            | inl t ↦ rw t (skip-Within header prog most good)
            | inr t ↦ rw (t, missing, below) (skip-Within header prog' most (on, good.1))
          ]

      tagged-Within :
          (header : Header) (prog : Progress) (most : ℕ)
          → Good prog
          → header.tag < 2 ^ 29
          → WithinCmd lo len Good 0 most
              (tagged_field depth env (pb_decode_noinit depth env) header prog)
      unfolding tagged_field
      tagged-Within header prog most good low =
          let found = pb_field_iter_find prog.iter header.tag in
          let prog' : Progress = record prog { iter = found.0 } in
          let good' : Good prog' =
            (On-find fields dest Fits CountFits whole prog.iter header.tag good.0, good.1) in
          elim (Bool-cases found.1) [
            | inl t ↦ rw t (known-Within header prog' most good')
            | inr t ↦ rw t (unknown-Within header prog' most good' low)
          ]

      check-Within :
          (prog : Progress) (most : ℕ)
          → Good prog
          → WithinCmd lo len (Any {A = Unit {0}}) 0 most (check_required prog)
      unfolding check_required
      check-Within prog most (on, two) =
          let (last, e, fits) =
            seek_end-last Fits (suc (length prog.iter.start)) on.left prog.iter (omega arith)
              (omega arith) on.entries in
          rw e (check_end-Within lo len most last prog.fields_seen fits two)

  pub pb_decode_noinit-Within :
      (depth : ℕ) (fields : List Field) (dest most : ℕ)
      → IsLaidOut depth lo len env.table fields dest
      → WithinCmd lo len (Any {A = Unit {0}}) 0 most (pb_decode_noinit depth env fields dest)
  unfolding pb_decode_noinit
  pb_decode_noinit-Within zero fields dest most laid = absurd laid
  pb_decode_noinit-Within (suc depth) fields dest most laid = λ xs n e m small held.
      let each = pb_decode_noinit-Within depth in
      let whole =
        On-begin fields dest (Fits depth each fields dest) CountFits (suc (length fields)) laid in
      let start = first_progress (pb_field_iter_begin fields dest).0 in
      bind-Within lo len (Good depth each fields dest) (Any {A = Unit {0}}) 0 n
        (decode_fields (suc n) (tagged_field depth env (pb_decode_noinit depth env)) start)
        check_required
        (decode_fields-Within lo len (Good depth each fields dest)
          (tagged_field depth env (pb_decode_noinit depth env))
          (λ header p k good low. tagged-Within depth each fields dest whole header p k good low)
          (suc n) start n (omega arith) (whole, refl))
        (λ p good. check-Within depth each fields dest whole p (n - 0) good) xs n e m (omega arith)
        held

  pub pb_decode-within_most :
      (depth : ℕ) (fields : List Field) (dest most : ℕ)
      → IsLaidOut depth lo len env.table fields dest
      → WithinCmd lo len (Any {A = Unit {0}}) 0 most (pb_decode depth env fields dest)
  unfolding pb_decode
  pb_decode-within_most depth fields dest most laid =
      bind-Within lo len (Any {A = Unit {0}}) (Any {A = Unit {0}}) 0 most
        (pb_message_set depth env fields dest) (λ _. pb_decode_noinit depth env fields dest)
        (pb_message_set-Within lo len depth env fields dest most laid)
        (λ _ _. pb_decode_noinit-Within depth fields dest (most - 0) laid)

  -- The table and those of its submessages, nested less than `depth` deep, have no extensions, fewer than 64
  -- required fields and not 32, a table for each static submessage, and their fields stand in the region; the callbacks of the application end, stay
  -- within their stream and the region, and take a byte at least where there is one. Then `pb_decode` ends on every
  -- buffer of bytes that holds `bytes_left` of them, without undefined behaviour, takes at most `bytes_left` bytes,
  -- and stores only within the region, whether it succeeds or not.
  pub pb_decode-Within :
      (depth : ℕ) (fields : List Field) (dest : ℕ) (xs : List ℕ) (n : ℕ) (e : Option Error)
      (m : Mem)
      → IsLaidOut depth lo len env.table fields dest
      → Holds xs n
      → Within lo len
          (Any {A = Unit {0}})
          0
          xs
          n
          m
          (pb_decode depth env fields dest (machine (input xs n e) m))
  pb_decode-Within depth fields dest xs n e m laid held =
      pb_decode-within_most depth fields dest n laid xs n e m (omega arith) held

  -- Under the conditions of `pb_decode-Within`, `pb_decode_delimited` ends on every buffer of bytes that holds
  -- `bytes_left` of them, without undefined behaviour, takes at most `bytes_left` bytes, and stores only within the
  -- region, whether it succeeds or not.
  pub pb_decode_delimited-Within :
      (depth : ℕ) (fields : List Field) (dest : ℕ) (xs : List ℕ) (n : ℕ) (e : Option Error)
      (m : Mem)
      → IsLaidOut depth lo len env.table fields dest
      → Holds xs n
      → Within lo len
          (Any {A = Unit {0}})
          0
          xs
          n
          m
          (pb_decode_delimited depth env fields dest (machine (input xs n e) m))
  unfolding pb_decode_delimited delimited_body
  pb_decode_delimited-Within depth fields dest xs n e m laid held =
      substream-Within lo len n (delimited_body depth env fields dest)
        (λ ys size rest e' m' small held'.
          closed-Framed lo len size (pb_decode depth env fields dest)
            (pb_decode-within_most depth fields dest size laid) ys size rest e' m' (omega arith)
            held')
        xs n e m (omega arith) held
