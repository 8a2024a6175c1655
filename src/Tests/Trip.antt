-- ===== src/Tests/Trip.antt =====
-- The structure of Person, encoded and decoded again.
use ios_college_work.Common.{
  ℕ, zero, suc, ◌+◌, ◌-◌, ◌≤◌, ◌<◌, ◌≡◌, ◌≢◌, refl, none, List, [], ◌∷◌, ◌++◌, length, All, arith,
  ok,
}
use ios_college_work.Wire.Fields.Skip.{varint_value, string_value}
use ios_college_work.Stream.Buffers.{input, output}
use ios_college_work.Stream.Writes.{sizer, HasRoom, Full, Writes}
use ios_college_work.Wire.Varint.{groups, varint}
use ios_college_work.Message.Memory.{Mem, displace}
use ios_college_work.Message.Field.{field_at}
use ios_college_work.Message.Iter.{pb_field_iter_begin, pb_field_iter_next, advance, previous_size}
use ios_college_work.Message.Encode.Items.{string_size}
use ios_college_work.Message.Encode.Messages.{pb_encode, pb_encode_delimited, pb_get_encoded_size}
use ios_college_work.Message.Decode.Machine.{machine}
use ios_college_work.Message.Decode.Messages.{pb_decode, pb_decode_delimited}
use ios_college_work.Message.Decode.Trip.Takes.{Kept}
use ios_college_work.Message.Decode.Trip.Plan.{message_bytes, SameFields}
use ios_college_work.Message.Decode.Trip.Unknown.{Foreign, IsForeign}
use ios_college_work.Message.Decode.Trip.Extended.{extended_bytes, extended-roundtrip}
use ios_college_work.Stream.Output.{pb_ostream_from_buffer}
use ios_college_work.Message.Decode.Trip.Size.{
  pb_get_encoded_size-exact, pb_encode_delimited-message_bytes,
}
use ios_college_work.Message.Decode.Trip.Final.{
  pb_encode-message_bytes, message-roundtrip, delimited-roundtrip,
}
use ios_college_work.Tests.Person.{image, person, table, env, denv, image-IsMem, person-IsTrip}

-- The bytes of the message.
sent :
    message_bytes 2 table image person 64 ≡ 8 ∷ 150 ∷ 1 ∷ 18 ∷ 2 ∷ 104 ∷ 105 ∷ 26 ∷ 2 ∷ 8 ∷ 5 ∷ []
unfolding pb_field_iter_begin pb_field_iter_next advance previous_size displace groups string_size
sent = refl

sixteen : HasRoom 16 16 0
sixteen = record { within = omega arith; holds = omega arith; bound = omega arith }

pb_encode-message_bytes_example :
    Writes (pb_encode 2 env image person 64) (message_bytes 2 table image person 64)
pb_encode-message_bytes_example =
    pb_encode-message_bytes image-IsMem env denv refl 2 person 64 128 148 person-IsTrip

message-roundtrip_example :
    (pb_encode 2 env image person 64 (output [] 16 16 0 none)
      ≡ ok tt (
          output
            ([] ++ message_bytes 2 table image person 64)
            (16 - length (message_bytes 2 table image person 64))
            16
            (0 + length (message_bytes 2 table image person 64))
            none))
    × ((after : Mem) × (pb_decode 2 denv person 128 (
            machine
              (input
                (message_bytes 2 table image person 64 ++ (9 ∷ []))
                (length (message_bytes 2 table image person 64))
                none)
              (λ p. 255))
          ≡ ok tt (machine (input (9 ∷ []) 0 none) after))
        × Kept 128 148 (λ p. 255) after
        × SameFields 2 table image person 64 128 after)
message-roundtrip_example =
    message-roundtrip image-IsMem env denv refl 2 person 64 128 148 person-IsTrip (λ p. 255)
      (9 ∷ []) none [] 16 16 0 sixteen (rw sent (omega arith))

delimited-roundtrip_example :
    (pb_encode_delimited 2 env image person 64 (output [] 16 16 0 none)
      ≡ ok tt (
          output
            ([]
              ++ (varint (length (message_bytes 2 table image person 64))
                  ++ message_bytes 2 table image person 64))
            (16
              - length (
                  varint (length (message_bytes 2 table image person 64))
                  ++ message_bytes 2 table image person 64))
            16
            (0
              + length (
                  varint (length (message_bytes 2 table image person 64))
                  ++ message_bytes 2 table image person 64))
            none))
    × ((after : Mem) × (pb_decode_delimited 2 denv person 128 (
            machine
              (input
                ((varint (length (message_bytes 2 table image person 64))
                    ++ message_bytes 2 table image person 64)
                  ++ (9 ∷ []))
                (length (
                    varint (length (message_bytes 2 table image person 64))
                    ++ message_bytes 2 table image person 64)
                  + 1)
                none)
              (λ p. 255))
          ≡ ok tt (machine (input (9 ∷ []) 1 none) after))
        × Kept 128 148 (λ p. 255) after
        × SameFields 2 table image person 64 128 after)
delimited-roundtrip_example =
    delimited-roundtrip image-IsMem env denv refl 2 person 64 128 148 person-IsTrip (λ p. 255)
      (9 ∷ []) none 1 [] 16 16 0 sixteen (rw sent (omega arith)) delimited_fits
  where
    delimited_fits :
        0
          + length (
              varint (length (message_bytes 2 table image person 64))
              ++ message_bytes 2 table image person 64)
        ≤ 16
    delimited_fits = rw sent (unfold groups in omega arith)

-- Two fields that the table does not have: 300 with the number 7, "x" with the number 9.
abbrev others : List Foreign
others =
    record { field_number = 7; payload = varint_value 300 }
    ∷ record { field_number = 9; payload = string_value (120 ∷ []) }
    ∷ []

missing : (n k : ℕ) → 3 < n → k < 3 → (field_at person k).tag ≢ n
missing n zero above h e = absurd (omega (arith, e, above))
missing n (suc zero) above h e = absurd (omega (arith, e, above))
missing n (suc (suc zero)) above h e = absurd (omega (arith, e, above))
missing n (suc (suc (suc k))) above h e = absurd (omega (arith, h))

others-IsForeign : All (λ u. IsForeign person u) others
others-IsForeign = (
  record {
    number = (omega arith, omega arith);
    value = omega arith;
    missing = λ k. missing 7 k (omega arith);
  },
  (
    record {
      number = (omega arith, omega arith);
      value = omega arith;
      missing = λ k. missing 9 k (omega arith);
    },
    tt,
  ),
)

extended-roundtrip_example :
    (after : Mem) × (pb_decode 2 denv person 128 (
        machine
          (input
            (extended_bytes 1 table image person 64 (λ _. others) ++ (9 ∷ []))
            (length (extended_bytes 1 table image person 64 (λ _. others)))
            none)
          (λ p. 255))
      ≡ ok tt (machine (input (9 ∷ []) 0 none) after))
    × Kept 128 148 (λ p. 255) after
    × SameFields 2 table image person 64 128 after
extended-roundtrip_example =
    extended-roundtrip image-IsMem env denv refl 1 person 64 128 148 person-IsTrip (λ _. others)
      (λ _. others-IsForeign) (λ p. 255) (9 ∷ []) none

pb_get_encoded_size-exact_example :
    (pb_get_encoded_size 2 env image person 64
      ≡ ok
          (length (message_bytes 2 table image person 64))
          (sizer [] 0 0 (length (message_bytes 2 table image person 64)) none))
    × (pb_encode 2 env image person 64 (
          pb_ostream_from_buffer
            (length (message_bytes 2 table image person 64))
            (length (message_bytes 2 table image person 64)))
        ≡ ok tt (
            output
              (message_bytes 2 table image person 64)
              0
              (length (message_bytes 2 table image person 64))
              (length (message_bytes 2 table image person 64))
              none))
    × Full 10 (pb_encode 2 env image person 64 (pb_ostream_from_buffer 10 10))
pb_get_encoded_size-exact_example =
    pb_get_encoded_size-exact image-IsMem env denv refl 2 person 64 128 148 person-IsTrip 10
      (rw sent (omega arith)) (rw sent (omega arith))

pb_encode_delimited-message_bytes_example : Writes (pb_encode_delimited 2 env image person 64) (
    varint (length (message_bytes 2 table image person 64))
    ++ message_bytes 2 table image person 64)
pb_encode_delimited-message_bytes_example =
    pb_encode_delimited-message_bytes image-IsMem env denv refl 2 person 64 128 148 person-IsTrip
