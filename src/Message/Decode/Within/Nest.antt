-- ===== src/Message/Decode/Within/Nest.antt =====
-- Submessages within the region of a message.
use ios_college_work.Common.{
  ℕ, ◌+◌, ◌-◌, ◌≤◌, refl, inl, inr, Bool-cases, ◌==◌, Option, List, arith, Run, Cmd, ok, err, fault,
  stuck, ◌>>◌,
}
use ios_college_work.Stream.Errors.{Error, set_error, invalid_field_descriptor}
use ios_college_work.Stream.Buffers.{input}
use ios_college_work.Message.Memory.{Mem}
use ios_college_work.Message.Field.{Field, pb_htype, htype_repeated}
use ios_college_work.Message.Decode.Machine.{Machine, machine}
use ios_college_work.Message.Decode.Env.{DecodeEnv, Nested}
use ios_college_work.Message.Decode.Defaults.{pb_message_set_to_defaults}
use ios_college_work.Message.Decode.Nest.{
  off_stream, pb_message_set, outcome, close, decode_nested, submessage_body, pb_dec_submessage,
}
use ios_college_work.Message.Decode.Layout.{IsLaidOut}
use ios_college_work.Message.Decode.Within.{Holds, Within, WithinCmd, Any, Stays-here, bind-Within}
use ios_college_work.Message.Decode.Within.Steps.{if-Within}
use ios_college_work.Message.Decode.Within.Defaults.{Sets, pb_message_set_to_defaults-Sets}
use ios_college_work.Message.Decode.Within.Substream.{
  Framed, outcome-Ended, close-Framed, parent-Strays, substream-Within,
}

module _ (lo len : ℕ) where
  off_stream-Within :
      (xs : List ℕ) (n : ℕ) (e : Option Error) (m : Mem) (r : Run Mem (Unit {0}))
      → Sets lo len m r
      → Within lo len (Any {A = Unit {0}}) 0 xs n m (off_stream (input xs n e) r)
  unfolding off_stream
  off_stream-Within xs n e m (ok _ m') kept = (
    tt,
    omega arith,
    record { stream = (Stays-here lo len xs (n - 0) n e m (omega arith)).stream; memory = kept },
  )
  off_stream-Within xs n e m (err m') kept = absurd kept
  off_stream-Within xs n e m fault kept = absurd kept
  off_stream-Within xs n e m stuck kept = absurd kept

  -- The default values of a structure in the region.
  pub pb_message_set-Within :
      (depth : ℕ) (env : DecodeEnv) (fields : List Field) (dest most : ℕ)
      → IsLaidOut depth lo len env.table fields dest
      → WithinCmd lo len (Any {A = Unit {0}}) 0 most (pb_message_set depth env fields dest)
  unfolding pb_message_set
  pb_message_set-Within depth env fields dest most laid xs n e m small fits =
      off_stream-Within xs n e m (pb_message_set_to_defaults depth env.table fields dest m)
        (pb_message_set_to_defaults-Sets lo len depth env.table fields dest laid m)

  -- Work on a substream of which the parent learns the status.
  pub closed-Framed :
      (most : ℕ) (c : Cmd Machine (Unit {0}))
      → WithinCmd lo len (Any {A = Unit {0}}) 0 most c
      → (ys : List ℕ) (size rest : ℕ) (e : Option Error) (m : Mem) → size ≤ most
      → Holds ys (size + rest)
      → Framed lo len ys size rest m
          (close (input ys rest e) (outcome (c (machine (input ys size e) m))))
  closed-Framed most c within ys size rest e m small fits =
      close-Framed lo len ys size rest e m (outcome (c (machine (input ys size e) m))) fits.0 (
        outcome-Ended lo len ys size m (c (machine (input ys size e) m))
          (within ys size e m small (omega (arith, fits.0), fits.1)))

  module _ (depth : ℕ) (env : DecodeEnv) (noinit : Nested) (field : Field) (dest : ℕ)
      (laid : IsLaidOut depth lo len env.table (env.table field.ptr) dest)
      (each : (most : ℕ)
        → WithinCmd lo len (Any {A = Unit {0}}) 0 most (noinit (env.table field.ptr) dest)) where
    decode_nested-Within :
        (most : ℕ)
        → WithinCmd lo len (Any {A = Unit {0}}) 0 most (decode_nested depth env noinit field dest)
    unfolding decode_nested
    decode_nested-Within most =
        let fields = env.table field.ptr in
        if-Within lo len (Any {A = Unit {0}}) 0 most (pb_htype field.type == htype_repeated)
          (pb_message_set depth env fields dest >> noinit fields dest) (noinit fields dest)
          (λ _.
            bind-Within lo len (Any {A = Unit {0}}) (Any {A = Unit {0}}) 0 most
              (pb_message_set depth env fields dest) (λ _. noinit fields dest)
              (pb_message_set-Within depth env fields dest most laid) (λ _ _. each (most - 0)))
          (λ _. each most)

    body-Framed :
        (most : ℕ) (ys : List ℕ) (size rest : ℕ) (e : Option Error) (m : Mem)
        → size ≤ most
        → Holds ys (size + rest)
        → Framed lo len ys size rest m (
            submessage_body depth env noinit field dest
              (input ys size e)
              (machine (input ys rest e) m))
    unfolding submessage_body
    body-Framed most ys size rest e m small fits = elim (Bool-cases (field.ptr == 0)) [
      | inl t ↦ rw t (
          parent-Strays lo len ys size rest (set_error invalid_field_descriptor e) m m
            (λ q out. refl))
      | inr t ↦ rw t (
          closed-Framed most (decode_nested depth env noinit field dest) (decode_nested-Within most)
            ys size rest e m small fits)
    ]

    pub pb_dec_submessage-Within :
        (most : ℕ)
        → WithinCmd lo len
            (Any {A = Unit {0}})
            0
            most
            (pb_dec_submessage depth env noinit field dest)
    unfolding pb_dec_submessage
    pb_dec_submessage-Within most =
        substream-Within lo len most (submessage_body depth env noinit field dest)
          (body-Framed most)
