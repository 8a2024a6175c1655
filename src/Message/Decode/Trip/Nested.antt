-- ===== src/Message/Decode/Trip/Nested.antt =====
-- `pb_dec_submessage` on what `pb_enc_submessage` writes.
use ios_college_work.Common.{
  ℕ, ◌+◌, ◌^◌, ◌<◌, ◌≡◌, ◌≢◌, refl, ap, ◌∙◌, Option, List, ◌++◌, [], length, arith, ok, ne→==,
}
use mathlib.Core.Path.{subst}
use ios_college_work.Stream.Input.{IStream}
use ios_college_work.Stream.Errors.{Error}
use ios_college_work.Stream.Buffers.{input}
use ios_college_work.Wire.Varint.{varint}
use ios_college_work.Wire.Fields.Substream.{
  pb_make_string_substream-ok, pb_close_string_substream-ok,
}
use ios_college_work.Stream.Writes.{Writes, Writes-eq}
use ios_college_work.Message.Memory.{Mem}
use ios_college_work.Message.Field.{Field, pb_ltype, pb_htype, ltype_submessage, htype_repeated}
use ios_college_work.Message.Encode.Env.{Env, Submessage}
use ios_college_work.Message.Encode.Items.{pb_encode_submessage, pb_enc_submessage, pb_encoder}
use ios_college_work.Message.Encode.Contract.Submessage.{submessage-Writes}
use ios_college_work.Message.Decode.Machine.{machine, on_memory, on_stream}
use ios_college_work.Message.Decode.Env.{DecodeEnv, Nested}
use ios_college_work.Message.Decode.Nest.{
  outcome, returned, close, decode_nested, submessage_body, pb_dec_submessage, pb_decoder,
}
use ios_college_work.Message.Decode.Trip.Takes.{Took, Takes, Takes-eq}
use ios_college_work.Message.Decode.Trip.Arrays.{counted-input}

module _ (depth : ℕ) (env : DecodeEnv) (noinit : Nested) (field : Field) (dest : ℕ)
    (bs : List ℕ) where
  run :
      (m after : Mem) (rest : List ℕ) (n : ℕ) (e : Option Error)
      → field.ptr ≢ 0
      → pb_htype field.type ≢ htype_repeated
      → length bs < 2 ^ 32
      → noinit (env.table field.ptr) dest (machine (input (bs ++ rest) (length bs) e) m)
        ≡ ok tt (machine (input rest 0 e) after)
      → pb_dec_submessage depth env noinit field dest (
          machine
            (input ((varint (length bs) ++ bs) ++ rest) (length (varint (length bs) ++ bs) + n) e)
            m)
        ≡ ok tt (machine (input rest n e) after)
  unfolding pb_dec_submessage submessage_body decode_nested outcome close returned on_stream
      on_memory
  run m after rest n e there once small nested =
      ap (λ (s : IStream). pb_dec_submessage depth env noinit field dest (machine s m))
        (counted-input (length bs) n bs rest e refl)
      ∙ rw
          (
            pb_make_string_substream-ok (length bs) n (bs ++ rest) e small,
            ne→== field.ptr 0 there,
            ne→== (pb_htype field.type) htype_repeated once,
            nested,
            pb_close_string_substream-ok [] (bs ++ rest) rest n e e,
          )
          refl

  pub submessage-Takes :
      {Ready Same : Mem → Type 0}
      → pb_ltype field.type ≡ ltype_submessage
      → field.ptr ≢ 0
      → pb_htype field.type ≢ htype_repeated
      → length bs < 2 ^ 32
      → ((m : Mem)
          → Ready m
          → (rest : List ℕ) (e : Option Error)
          → Took
              (noinit (env.table field.ptr) dest)
              bs
              dest
              (dest + field.data_size)
              Same
              m
              rest
              0
              e)
      → Takes
          (pb_decoder depth env noinit field dest)
          (varint (length bs) ++ bs)
          dest
          (dest + field.data_size)
          Ready
          Same
  submessage-Takes kind there once small nested =
      Takes-eq {c = pb_dec_submessage depth env noinit field dest}
        (λ s. unfold pb_decoder in rw kind refl)
        λ m ready rest n e.
          let t = nested m ready rest e in
          record {
            after = t.after;
            runs = run m t.after rest n e there once small (
                subst
                  (λ (k : ℕ).
                    noinit (env.table field.ptr) dest (machine (input (bs ++ rest) k e) m)
                    ≡ ok tt (machine (input rest 0 e) t.after))
                  no_more t.runs);
            kept = t.kept;
            same = t.same;
          }
    where
      no_more : length bs + 0 ≡ length bs
      no_more = omega arith

module _ (m : Mem) (field : Field) (src : ℕ) where
  pub submessage_field-Writes :
      (env : Env) (sub : Submessage) (bs : List ℕ)
      → pb_ltype field.type ≡ ltype_submessage
      → field.ptr ≢ 0
      → Writes (sub (env.table field.ptr) src) bs
      → Writes (pb_encoder env sub m field src) (varint (length bs) ++ bs)
  submessage_field-Writes env sub bs kind there w =
      Writes-eq {c = pb_encode_submessage (sub (env.table field.ptr) src)}
        (λ s. unfold pb_encoder pb_enc_submessage in rw (kind, ne→== field.ptr 0 there) refl)
        (submessage-Writes w)
