-- ===== src/Message/Decode/Unknown.antt =====
-- Fields that the table does not have.
use ios_college_work.Common.{
  ℕ, zero, suc, ◌-◌, ◌^◌, ◌<◌, ◌≡◌, ◌≢◌, refl, inl, inr, true, false, Bool-cases, ltb, ◌==◌, List,
  length, arith, ok, ◌>>◌,
}
use ios_college_work.Wire.Decode.{pb_skip_field}
use ios_college_work.Message.Field.{Field, pb_ltype, ltype_extension}
use ios_college_work.Message.Iter.{
  FieldIter, current, pb_field_iter_begin, pb_field_iter_next, find_loop, pb_field_iter_find,
}
use ios_college_work.Message.Decode.Machine.{Machine, on_stream}
use ios_college_work.Message.Decode.Env.{DecodeEnv, Nested}
use ios_college_work.Message.Decode.Extensions.{find_extension_field}
use ios_college_work.Message.Decode.Messages.{Progress, skip_unknown, unknown_field, tagged_field}
use ios_college_work.Message.Decode.Layout.{On, On-here, On-next, On-find}
use ios_college_work.Message.Decode.Within.Seek.{find_extension_field-none}

module _ (fields : List Field) (dest tag : ℕ) (P Q : FieldIter → Type 0)
    (whole : On fields dest P Q (pb_field_iter_begin fields dest).0)
    (plain : (iter : FieldIter) → P iter → pb_ltype (current iter).type ≢ ltype_extension)
    (foreign : (iter : FieldIter) → P iter → (current iter).tag ≢ tag) where
  find-none :
      (fuel start : ℕ) (iter : FieldIter)
      → On fields dest P Q iter
      → (find_loop fuel start tag iter).1 ≡ false
  unfolding find_loop
  find-none zero start iter o = refl
  find-none (suc fuel) start iter o =
      let other = foreign iter (On-here fields dest P Q iter o) in
      let miss : ((current iter).tag == tag) ≡ false = ground (arith, other) in
      let rest =
        find-none fuel start (pb_field_iter_next iter).0 (On-next fields dest P Q whole iter o) in
      elim (Bool-cases ((pb_field_iter_next iter).0.pos == start)) [
        | inl u ↦ rw (miss, u) refl
        | inr u ↦ rw (miss, u) rest
      ]

  -- The iterator and the range do not depend on the stream and the memory.
  pub unknown-skip :
      (depth : ℕ) (env : DecodeEnv) (noinit : Nested) (wire_type : ℕ) (prog : Progress)
      → On fields dest P Q prog.iter
      → tag < 2 ^ 32 - 1
      → (prog' : Progress) × ((s : Machine)
          → tagged_field depth env noinit
              (record { success = true; wire_type = wire_type; tag = tag; eof = false })
              prog
              s
            ≡ (on_stream (pb_skip_field wire_type) >> ok prog') s)
        × (prog'.fields_seen ≡ prog.fields_seen)
        × On fields dest P Q prog'.iter
  unfolding tagged_field unknown_field skip_unknown pb_field_iter_find
  unknown-skip depth env noinit wire_type prog on low =
      let found = pb_field_iter_find prog.iter tag in
      let missing : found.1 ≡ false =
        find-none (suc (length prog.iter.start)) prog.iter.pos prog.iter on in
      let on' = On-find fields dest P Q whole prog.iter tag on in
      let (none_left, on'') = find_extension_field-none fields dest P Q whole plain found.0 on' in
      let below : ltb tag (2 ^ 32 - 1) ≡ true = ground (arith, low) in
      let first : Progress = record prog { iter = found.0 } in
      let second : Progress = record first {
        iter = (find_extension_field found.0).0;
        extension_range_start = 2 ^ 32 - 1;
      } in
      elim (Bool-cases (ltb tag prog.extension_range_start)) [
        | inl t ↦ (first, (λ s. rw (missing, t) refl), refl, on')
        | inr t ↦ (second, (λ s. rw (missing, t, none_left, below) refl), refl, on'')
      ]

  -- Where no entry of the table has the tag, which is below 2^32 - 1, nor is for extensions, a field is skipped by its
  -- wire type: the memory stays, and so do the bits of the required fields.
  pub tagged_field-unknown :
      (depth : ℕ) (env : DecodeEnv) (noinit : Nested) (wire_type : ℕ) (prog : Progress)
      (s : Machine)
      → On fields dest P Q prog.iter
      → tag < 2 ^ 32 - 1
      → (prog' : Progress) × (tagged_field depth env noinit
            (record { success = true; wire_type = wire_type; tag = tag; eof = false })
            prog
            s
          ≡ (on_stream (pb_skip_field wire_type) >> ok prog') s)
        × (prog'.fields_seen ≡ prog.fields_seen)
        × On fields dest P Q prog'.iter
  tagged_field-unknown depth env noinit wire_type prog s on low =
      let (prog', run, seen, on') = unknown-skip depth env noinit wire_type prog on low in
      (prog', run s, seen, on')
