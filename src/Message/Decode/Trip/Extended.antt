-- ===== src/Message/Decode/Trip/Extended.antt =====
-- A message of a later version of its definition, read by `pb_decode` with the table of an earlier one.
use ios_college_work.Common.{ℕ, suc, ◌≡◌, ap, Option, List, ◌++◌, length, All, ok}
use ios_college_work.Stream.Errors.{Error}
use ios_college_work.Stream.Buffers.{input}
use ios_college_work.Message.Memory.{Mem}
use ios_college_work.Message.Field.{Field}
use ios_college_work.Message.Encode.Env.{Env}
use ios_college_work.Message.Encode.Contract.Items.{IsMem}
use ios_college_work.Message.Decode.Machine.{machine}
use ios_college_work.Message.Decode.Env.{DecodeEnv}
use ios_college_work.Message.Decode.Messages.{pb_decode_noinit, pb_decode}
use ios_college_work.Message.Decode.Trip.Takes.{Kept}
use ios_college_work.Message.Decode.Trip.Whole.{padded}
use ios_college_work.Message.Decode.Trip.Plan.{field_bytes, SameFields, IsCleared, IsTrip}
use ios_college_work.Message.Decode.Trip.Entry.{ReadyAt, SameAt}
use ios_college_work.Message.Decode.Trip.Messages.{
  IsNested, lo, hi, messages-NestedTrip, padded-Took,
}
use ios_college_work.Message.Decode.Trip.Unknown.{Foreign, IsForeign, all_bytes, Fed-all_bytes}
use ios_college_work.Message.Decode.Trip.Final.{Took-decoded}

-- The fields of the entries in the order of the table, with others in front of each and behind the last.
abbrev pub extended_bytes :
    (depth : ℕ) (table : ℕ → List Field) (m : Mem)
    → List Field
    → (src : ℕ) → (gaps : ℕ → List Foreign) → List ℕ
extended_bytes depth table m fields src gaps =
    padded (λ k. all_bytes (gaps k)) (field_bytes depth table m fields src) (length fields) 0

module _ {m : Mem} (mem : IsMem m) (env : Env) (denv : DecodeEnv) (tables : denv.table ≡ env.table)
    (depth : ℕ) (fields : List Field) (src dest top : ℕ)
    (trip : IsTrip (suc depth) env.table m fields src dest top) where
  same : (p : ℕ) → denv.table p ≡ env.table p
  same p = ap (λ (t : ℕ → List Field). t p) tables

  nested : IsNested mem env denv same depth
  nested = messages-NestedTrip mem env denv same depth

  -- The structure at `src` has a table that is read in its order, with an entry at least: no terminator inside, no oneof, no entry for extensions,
  -- every tag once, and fewer than 64 required fields and not 32. Its fields are static, required or optional with a stored
  -- `has_` byte, of any LTYPE, with the `data_size` of their C type, bytes arrays that fit, strings with their terminator
  -- within it, and submessages below 2 ^ 32 bytes, themselves of this kind and nested less than `suc depth` deep. At `dest` is a
  -- place for another one where the fields stand one behind the other before `top`, the `has_` byte of an optional one in
  -- front of its data.
  -- The bytes are its fields in the order of the table, each that is there as its tag and its value, with any number
  -- of other fields in front of each and behind the last: varints below 2 ^ 64, fixed-size values, and strings below 2 ^ 32
  -- bytes, with field numbers below 2 ^ 29 that are not 0 and not in the table. Then `pb_decode`, with the same tables, takes it all from a
  -- substream of its size, whatever the memory holds and whatever stands behind: it succeeds, skips the other fields, leaves
  -- the stream right behind the message and the memory outside of `dest` to `top` as it was, and the structure at `dest` has
  -- the fields of the one at `src`.
  pub extended-roundtrip :
      (gaps : ℕ → List Foreign)
      → ((k : ℕ) → All (λ u. IsForeign fields u) (gaps k))
      → (m' : Mem) (rest : List ℕ) (e : Option Error)
      → (after : Mem) × (pb_decode (suc depth) denv fields dest (
            machine
              (input
                (extended_bytes depth env.table m fields src gaps ++ rest)
                (length (extended_bytes depth env.table m fields src gaps))
                e)
              m')
          ≡ ok tt (machine (input rest 0 e) after))
        × Kept dest top m' after
        × SameFields (suc depth) env.table m fields src dest after
  extended-roundtrip gaps foreign m' rest e =
      Took-decoded mem env denv tables (suc depth) fields src dest top trip
        (extended_bytes depth env.table m fields src gaps) m' rest e
        λ clear ready.
          padded-Took mem env denv same depth nested fields src dest top trip
            (λ k. all_bytes (gaps k))
            (λ k bs iter ws range seen next.
              Fed-all_bytes fields dest trip.0 depth denv (pb_decode_noinit depth denv)
                (lo mem env denv same depth nested fields src dest top trip)
                (hi mem env denv same depth nested fields src dest top trip)
                (ReadyAt env.table fields dest (IsCleared depth env.table))
                (SameAt env.table fields dest (SameFields depth env.table m) m src) (gaps k)
                (foreign k) k iter ws range seen next)
            clear ready rest e
