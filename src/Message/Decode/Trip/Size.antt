-- ===== src/Message/Decode/Trip/Size.antt =====
-- `pb_get_encoded_size` and `pb_encode_delimited` of a whole message.
use ios_college_work.Common.{ℕ, ◌^◌, ◌<◌, ◌≡◌, ◌∙◌, none, List, [], ◌++◌, length, arith, ok}
use ios_college_work.Stream.Output.{pb_ostream_from_buffer}
use ios_college_work.Stream.Buffers.{output}
use ios_college_work.Stream.Writes.{sizer, Full, Writes}
use ios_college_work.Wire.Varint.{varint}
use ios_college_work.Message.Memory.{Mem}
use ios_college_work.Message.Field.{Field}
use ios_college_work.Message.Encode.Env.{Env}
use ios_college_work.Message.Encode.Messages.{pb_encode, pb_encode_delimited, pb_get_encoded_size}
use ios_college_work.Message.Encode.Contract.Items.{IsMem}
use ios_college_work.Message.Encode.Contract.Submessage.{submessage-Writes}
use ios_college_work.Message.Decode.Env.{DecodeEnv}
use ios_college_work.Message.Decode.Trip.Plan.{message_bytes, IsTrip}
use ios_college_work.Message.Decode.Trip.Final.{pb_encode-message_bytes}

module _ {m : Mem} (mem : IsMem m) (env : Env) (denv : DecodeEnv) (tables : denv.table ≡ env.table)
    (depth : ℕ) (fields : List Field) (src dest top : ℕ)
    (trip : IsTrip depth env.table m fields src dest top) where
  abbrev bytes : List ℕ
  bytes = message_bytes depth env.table m fields src

  written : Writes (pb_encode depth env m fields src) bytes
  written = pb_encode-message_bytes mem env denv tables depth fields src dest top trip

  -- The structure at `src` has a table that is read in its order, with an entry at least: no terminator inside, no oneof, no
  -- entry for extensions, every tag once, and fewer than 64 required fields and not 32. Its fields are static, required or
  -- optional with a stored `has_` byte, of any LTYPE, with the `data_size` of their C type, bytes arrays that fit, strings
  -- with their terminator within it, and submessages below 2 ^ 32 bytes, themselves of this kind and nested less than `depth`
  -- deep; at `dest` would be a place for another one where the fields stand one behind the other before `top`, the `has_`
  -- byte of an optional one in front of its data.
  -- Then, where `message_bytes` is shorter than 2 ^ 64 bytes, `pb_get_encoded_size` returns its length; `pb_encode` fills a
  -- buffer of that size with `message_bytes`, and fails with "stream full" on every smaller one.
  pub pb_get_encoded_size-exact :
      (small : ℕ)
      → length bytes < 2 ^ 64
      → small < length bytes
      → (pb_get_encoded_size depth env m fields src
          ≡ ok (length bytes) (sizer [] 0 0 (length bytes) none))
        × (pb_encode depth env m fields src (pb_ostream_from_buffer (length bytes) (length bytes))
            ≡ ok tt (output bytes 0 (length bytes) (length bytes) none))
        × Full small (pb_encode depth env m fields src (pb_ostream_from_buffer small small))
  unfolding pb_ostream_from_buffer
  pb_get_encoded_size-exact small h less = (
    unfold pb_get_encoded_size in rw (written.counts [] 0 0 0 (omega (arith, h))) (ground arith),
    written.stores [] (length bytes) (length bytes) 0
          (record { within = omega arith; holds = omega arith; bound = h }) (omega arith)
        ∙ ground arith,
    written.full [] small small 0
        (record { within = omega arith; holds = omega arith; bound = omega (arith, h, less) })
        (omega (arith, less)) (omega (arith, h)),
  )

  -- The structure at `src` has a table that is read in its order, with an entry at least: no terminator inside, no oneof, no
  -- entry for extensions, every tag once, and fewer than 64 required fields and not 32. Its fields are static, required or
  -- optional with a stored `has_` byte, of any LTYPE, with the `data_size` of their C type, bytes arrays that fit, strings
  -- with their terminator within it, and submessages below 2 ^ 32 bytes, themselves of this kind and nested less than `depth`
  -- deep; at `dest` would be a place for another one where the fields stand one behind the other before `top`, the `has_`
  -- byte of an optional one in front of its data.
  -- Then `pb_encode_delimited` writes the length of `message_bytes` as a varint and `message_bytes` to every stream with room
  -- for both, with "stream full" on a smaller one, and counts both on a sizing stream.
  pub pb_encode_delimited-message_bytes :
      Writes (pb_encode_delimited depth env m fields src) (varint (length bytes) ++ bytes)
  unfolding pb_encode_delimited
  pb_encode_delimited-message_bytes = submessage-Writes written
