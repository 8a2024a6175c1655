-- ===== src/Message/Decode/Trip/Static.antt =====
-- `decode_field` on a static field that is required or optional, from the contract of its decoder.
use ios_college_work.Common.{
  ltb, ℕ, ◌+◌, ◌<◌, ◌≡◌, ◌∙◌, ◌⊎◌, inl, inr, false, ◌==◌, if◌then◌else◌, List, arith,
}
use ios_college_work.Message.Memory.{Mem}
use ios_college_work.Message.Field.{
  pb_ltype, ltype_fixed_length_bytes, pb_htype, pb_atype, htype_required, htype_optional,
  atype_static,
}
use ios_college_work.Message.Iter.{FieldIter, current}
use ios_college_work.Message.Decode.Machine.{store, store-outside, write}
use ios_college_work.Message.Decode.Env.{DecodeEnv, Nested}
use ios_college_work.Message.Decode.Nest.{pb_decoder}
use ios_college_work.Message.Decode.Static.{decode_static_field}
use ios_college_work.Message.Decode.Fields.{decode_field}
use ios_college_work.Message.Decode.Trip.Takes.{Local, Takes}

-- The bytes of a field in the structure: its `has_` byte, if it is optional, stands in front of its data.
abbrev pub first_byte : FieldIter → ℕ
first_byte iter =
    if pb_htype (current iter).type == htype_optional then iter.p_size else iter.p_data

abbrev pub end_byte : FieldIter → ℕ
end_byte iter = iter.p_data + (current iter).data_size

-- A field that has been stored: the `has_` byte of an optional one is set.
abbrev pub Stored : (Same : Mem → Type 0) → FieldIter → Mem → Type 0
Stored Same iter m = (pb_htype (current iter).type ≡ htype_optional → m iter.p_size ≡ 1) × Same m

module _ (depth : ℕ) (env : DecodeEnv) (noinit : Nested) (w : ℕ) (iter : FieldIter) (bs : List ℕ)
    (known : ltb ltype_fixed_length_bytes (pb_ltype (current iter).type) ≡ false)
    {Ready Same : Mem → Type 0} where
  required-Takes :
      pb_atype (current iter).type ≡ atype_static
      → pb_htype (current iter).type ≡ htype_required
      → Takes
          (pb_decoder depth env noinit (current iter) iter.p_data)
          bs
          iter.p_data
          (end_byte iter)
          Ready
          Same
      → Takes
          (decode_field depth env noinit w iter)
          bs
          (first_byte iter)
          (end_byte iter)
          Ready
          (Stored Same iter)
  required-Takes static required takes m ready rest n e =
      let t = takes m ready rest n e in
      record {
        after = t.after;
        runs = unfold decode_field decode_static_field in rw (static, required, known) t.runs;
        kept = rw required t.kept;
        same = (λ o. absurd (omega (arith, o, required)), t.same);
      }

  optional-Takes :
      pb_atype (current iter).type ≡ atype_static
      → pb_htype (current iter).type ≡ htype_optional
      → iter.p_size < iter.p_data
      → Local iter.p_data (end_byte iter) Ready
      → Takes
          (pb_decoder depth env noinit (current iter) iter.p_data)
          bs
          iter.p_data
          (end_byte iter)
          Ready
          Same
      → Takes
          (decode_field depth env noinit w iter)
          bs
          (first_byte iter)
          (end_byte iter)
          Ready
          (Stored Same iter)
  optional-Takes static optional front local takes m ready rest n e =
      let marked : Mem = store m iter.p_size 1 1 in
      let ready' : Ready marked =
        local m marked
          (λ q le lt. store-outside m iter.p_size 1 1 q (inr (omega (arith, le, front)))) ready in
      let t = takes marked ready' rest n e in
      let apart : (iter.p_size == iter.p_data) ≡ false = ground (arith, front) in
      record {
        after = t.after;
        runs =
            unfold decode_field decode_static_field write in
            rw (static, optional, apart, known) t.runs;
        kept = rw optional (λ q out.
            t.kept q (ground (arith, out, front))
            ∙ store-outside m iter.p_size 1 1 q (ground (arith, out, front)));
        same = (λ _. t.kept iter.p_size (inl front) ∙ ground arith, t.same);
      }

  -- Either way.
  pub decode_field-Takes :
      pb_atype (current iter).type ≡ atype_static
      → (pb_htype (current iter).type ≡ htype_required)
        ⊎ ((pb_htype (current iter).type ≡ htype_optional) × (iter.p_size < iter.p_data))
      → Local iter.p_data (end_byte iter) Ready
      → Takes
          (pb_decoder depth env noinit (current iter) iter.p_data)
          bs
          iter.p_data
          (end_byte iter)
          Ready
          Same
      → Takes
          (decode_field depth env noinit w iter)
          bs
          (first_byte iter)
          (end_byte iter)
          Ready
          (Stored Same iter)
  decode_field-Takes static (inl required) local takes = required-Takes static required takes
  decode_field-Takes static (inr (optional, front)) local takes =
      optional-Takes static optional front local takes
