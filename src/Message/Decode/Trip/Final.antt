-- ===== src/Message/Decode/Trip/Final.antt =====
-- A message that `pb_encode` has written, read by `pb_decode`.
use ios_college_work.Common.{
  ℕ, ◌+◌, ◌-◌, ◌^◌, ◌≤◌, ◌<◌, ◌≡◌, refl, ap, ◌∙◌, Option, none, List, [], ◌++◌, length, arith, ok,
}
use mathlib.Core.Path.{subst}
use ios_college_work.Stream.Input.{IStream}
use ios_college_work.Wire.Varint.{varint}
use ios_college_work.Wire.Fields.Substream.{
  pb_make_string_substream-ok, pb_close_string_substream-ok,
}
use ios_college_work.Message.Encode.Contract.Submessage.{submessage-Writes}
use ios_college_work.Message.Decode.Trip.Arrays.{counted-input}
use ios_college_work.Stream.Errors.{Error}
use ios_college_work.Stream.Buffers.{input, output}
use ios_college_work.Stream.Writes.{HasRoom, Writes}
use ios_college_work.Message.Memory.{Mem}
use ios_college_work.Message.Field.{Field}
use ios_college_work.Message.Encode.Env.{Env}
use ios_college_work.Message.Encode.Messages.{pb_encode, pb_encode_delimited}
use ios_college_work.Message.Encode.Contract.Items.{IsMem}
use ios_college_work.Message.Decode.Machine.{machine, on_memory, on_stream}
use ios_college_work.Message.Decode.Env.{DecodeEnv}
use ios_college_work.Message.Decode.Nest.{outcome, returned, close, off_stream, pb_message_set}
use ios_college_work.Message.Decode.Defaults.{pb_message_set_to_defaults}
use ios_college_work.Message.Decode.Messages.{
  pb_decode_noinit, pb_decode, delimited_body, pb_decode_delimited,
}
use ios_college_work.Message.Decode.Trip.Takes.{Kept, Took}
use ios_college_work.Message.Decode.Trip.Plan.{message_bytes, SameFields, IsCleared, IsTrip}
use ios_college_work.Message.Decode.Trip.Messages.{messages-NestedTrip}
use ios_college_work.Message.Decode.Trip.Defaults.{pb_message_set_to_defaults-Clears}

module _ {m : Mem} (mem : IsMem m) (env : Env) (denv : DecodeEnv) (tables : denv.table ≡ env.table)
    (depth : ℕ) (fields : List Field) (src dest top : ℕ)
    (trip : IsTrip depth env.table m fields src dest top) where
  same_tables : (p : ℕ) → denv.table p ≡ env.table p
  same_tables p = ap (λ (t : ℕ → List Field). t p) tables

  abbrev bytes : List ℕ
  bytes = message_bytes depth env.table m fields src

  -- The structure at `src` has a table that is read in its order, with an entry at least: no terminator inside, no oneof, no entry for
  -- extensions, every tag once, and fewer than 64 required fields and not 32. Its fields are static, required or optional with a
  -- stored `has_` byte, of any LTYPE, with the `data_size` of their C type, bytes arrays that fit, strings with their
  -- terminator within it, and submessages below 2 ^ 32 bytes, themselves of this kind and nested less than `depth` deep. At `dest` would be a
  -- place for another one where the fields stand one behind the other before `top`, the `has_` byte of an optional one in front of
  -- its data. Then `pb_encode` writes
  -- `message_bytes` to every stream with room for it, with "stream full" on a smaller one, and counts it on a
  -- sizing stream: the fields in the order of the table, each that is there as its tag and its value.
  pub pb_encode-message_bytes : Writes (pb_encode depth env m fields src) bytes
  pb_encode-message_bytes =
      (messages-NestedTrip mem env denv same_tables depth).writes fields src dest top trip

  -- `pb_decode` on what `pb_decode_noinit` takes once the fields are cleared.
  pub Took-decoded :
      (bs : List ℕ) (m' : Mem) (rest : List ℕ) (e : Option Error)
      → ((clear : Mem)
          → IsCleared depth env.table fields dest clear
          → Took
              (pb_decode_noinit depth denv fields dest)
              bs
              dest
              top
              (SameFields depth env.table m fields src dest)
              clear
              rest
              0
              e)
      → (after : Mem) × (pb_decode depth denv fields dest
            (machine (input (bs ++ rest) (length bs) e) m')
          ≡ ok tt (machine (input rest 0 e) after))
        × Kept dest top m' after
        × SameFields depth env.table m fields src dest after
  unfolding pb_decode pb_message_set off_stream
  Took-decoded bs m' rest e taken =
      let c =
        pb_message_set_to_defaults-Clears mem env denv same_tables depth fields src dest top trip
          m' in
      let t = taken c.after c.ready in
      let cleared : pb_message_set_to_defaults depth denv.table fields dest m' ≡ ok tt c.after =
        ap (λ (t : ℕ → List Field). pb_message_set_to_defaults depth t fields dest m') tables
        ∙ c.runs in
      (
        t.after,
        rw cleared (
            subst
              (λ (n : ℕ).
                pb_decode_noinit depth denv fields dest (machine (input (bs ++ rest) n e) c.after)
                ≡ ok tt (machine (input rest 0 e) t.after))
              no_more t.runs),
        (λ q out. t.kept q out ∙ c.kept q out),
        t.same,
      )
    where
      no_more : length bs + 0 ≡ length bs
      no_more = omega arith

  -- `pb_decode` after `pb_encode`, on any memory.
  decoded :
      (m' : Mem) (rest : List ℕ) (e : Option Error)
      → (after : Mem) × (pb_decode depth denv fields dest
            (machine (input (bytes ++ rest) (length bytes) e) m')
          ≡ ok tt (machine (input rest 0 e) after))
        × Kept dest top m' after
        × SameFields depth env.table m fields src dest after
  decoded m' rest e = Took-decoded bytes m' rest e λ clear ready.
      (messages-NestedTrip mem env denv same_tables depth).takes fields src dest top trip clear
        ready rest e

  module _ (m' : Mem) (rest : List ℕ) (e : Option Error) where
    -- The structure at `src` has a table that is read in its order, with an entry at least: no terminator inside, no oneof, no entry for extensions,
    -- every tag once, and fewer than 64 required fields and not 32. Its fields are static, required or optional with a stored
    -- `has_` byte, of any LTYPE, with the `data_size` of their C type, bytes arrays that fit, strings with their terminator
    -- within it, and submessages below 2 ^ 32 bytes, themselves of this kind and nested less than `depth` deep. At `dest` is a
    -- place for another one where the fields stand one behind the other before `top`, the `has_` byte of an optional one in
    -- front of its data.
    -- Then, on a memory buffer with room for it, `pb_encode` appends `message_bytes`; `pb_decode`, with the same
    -- tables, takes these bytes from a substream of their size, whatever the memory holds and whatever stands behind them. It
    -- succeeds, leaves the stream right behind them and the memory outside of `dest` to `top` as it was, and the structure at
    -- `dest` has the fields of the one at `src`: the same optional fields are there, and all that are there have the same
    -- value, in submessages too.
    pub message-roundtrip :
        (xs : List ℕ) (room max_size written : ℕ)
        → HasRoom room max_size written
        → written + length bytes ≤ max_size
        → (pb_encode depth env m fields src (output xs room max_size written none)
            ≡ ok tt
                (output (xs ++ bytes) (room - length bytes) max_size (written + length bytes) none))
          × ((after : Mem) × (pb_decode depth denv fields dest
                  (machine (input (bytes ++ rest) (length bytes) e) m')
                ≡ ok tt (machine (input rest 0 e) after))
              × Kept dest top m' after
              × SameFields depth env.table m fields src dest after)
    message-roundtrip xs room max_size written h fits =
        (pb_encode-message_bytes.stores xs room max_size written h fits, decoded m' rest e)

    -- The structure at `src` has a table that is read in its order, with an entry at least: no terminator inside, no oneof, no entry for extensions,
    -- every tag once, and fewer than 64 required fields and not 32. Its fields are static, required or optional with a stored
    -- `has_` byte, of any LTYPE, with the `data_size` of their C type, bytes arrays that fit, strings with their terminator
    -- within it, and submessages below 2 ^ 32 bytes, themselves of this kind and nested less than `depth` deep. At `dest` is a
    -- place for another one where the fields stand one behind the other before `top`, the `has_` byte of an optional one in
    -- front of its data.
    -- Then, where `message_bytes` is shorter than 2 ^ 32 bytes, `pb_encode_delimited` appends its length and the message
    -- on a memory buffer with room for both; `pb_decode_delimited`, with the same tables, takes them from a stream with
    -- anything behind them, leaves the stream right behind them and the memory outside of `dest` to `top` as it was, and the
    -- structure at `dest` has the fields of the one at `src`.
    pub delimited-roundtrip :
        (n : ℕ) (xs : List ℕ) (room max_size written : ℕ)
        → HasRoom room max_size written
        → length bytes < 2 ^ 32
        → written + length (varint (length bytes) ++ bytes) ≤ max_size
        → (pb_encode_delimited depth env m fields src (output xs room max_size written none)
            ≡ ok tt (
                output
                  (xs ++ (varint (length bytes) ++ bytes))
                  (room - length (varint (length bytes) ++ bytes))
                  max_size
                  (written + length (varint (length bytes) ++ bytes))
                  none))
          × ((after : Mem) × (pb_decode_delimited depth denv fields dest (
                  machine
                    (input
                      ((varint (length bytes) ++ bytes) ++ rest)
                      (length (varint (length bytes) ++ bytes) + n)
                      e)
                    m')
                ≡ ok tt (machine (input rest n e) after))
              × Kept dest top m' after
              × SameFields depth env.table m fields src dest after)
    unfolding pb_encode_delimited
    delimited-roundtrip n xs room max_size written h small fits =
        let (after, run, kept, same) = decoded m' rest e in
        (
          (submessage-Writes pb_encode-message_bytes).stores xs room max_size written h fits,
          (
            after,
            ap (λ (s : IStream). pb_decode_delimited depth denv fields dest (machine s m'))
                  (counted-input (length bytes) n bytes rest e refl)
                ∙ (unfold pb_decode_delimited delimited_body outcome close returned on_stream
                      on_memory in
                    rw
                      (
                        pb_make_string_substream-ok (length bytes) n (bytes ++ rest) e small,
                        run,
                        pb_close_string_substream-ok [] (bytes ++ rest) rest n e e,
                      )
                      refl),
            kept,
            same,
          ),
        )
