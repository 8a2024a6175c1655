-- ===== src/Tests/Message.antt =====
-- A message with a number, a packed array and a submessage.
use ios_college_work.Common.{
  true, ℕ, zero, suc, ◌^◌, ◌<◌, ◌≡◌, refl, inl, none, List, [], ◌∷◌, get_or, ◌-◌, arith, ok, length,
  ◌++◌, ◌+◌, ◌*◌, inr,
}
use ios_college_work.Stream.Errors.{callback_error}
use ios_college_work.Stream.Output.{OStream, fail, pb_ostream_from_buffer, pb_write}
use ios_college_work.Stream.Buffers.{output}
use ios_college_work.Stream.Writes.{Writes, Writes-eq}
use ios_college_work.Wire.Encode.{pb_encode_varint, pb_encode_tag, clear_last, varint_buffer}
use ios_college_work.Wire.Varint.{varint}
use ios_college_work.Wire.Scalars.Varint.{pb_encode_varint-Writes}
use ios_college_work.Message.Memory.{Mem, displace, all_zero}
use ios_college_work.Message.Field.{Field}
use ios_college_work.Message.Encode.Env.{Env, Submessage}
use ios_college_work.Message.Encode.Default.{pb_check_proto3_default_value}
use ios_college_work.Message.Encode.Items.{
  pb_encode_submessage, pb_encoder, pb_encode_tag_for_field, pb_enc_uvarint, pb_enc_submessage,
  sized_tail, write_submessage, is_word_size, encode_typed_tag, wire_type_of,
}
use ios_college_work.Message.Encode.Fields.{
  encode_array, encode_field, encode_basic_field, encode_packed, packed_size, packed_tail,
  packed_body, each_item, checked, encode_present, encode_by_htype, size_ptr, read_has, read_size,
  tag_and_item, with_size,
}
use ios_college_work.Message.Encode.Messages.{pb_encode, encode_from, each_field, encode_entry}
use ios_college_work.Message.Iter.{
  FieldIter, current, pb_field_iter_find, pb_field_iter_begin, pb_field_iter_next, advance,
  previous_size,
}
use ios_college_work.Wire.Fields.Tag.{IsTag}
use ios_college_work.Message.Encode.Contract.Singular.{singular_bytes, encode_field-singular}
use ios_college_work.Message.Encode.Contract.Array.{
  array_bytes, entry_address, items_address, items_count, encode_array-Writes,
  encode_field-repeated,
}
use ios_college_work.Message.Iter.Find.{IsClosed, matches, pb_field_iter_find_lem}
use ios_college_work.Message.Encode.Contract.Submessage.{submessage-Writes}

-- `struct { uint32_t number; pb_size_t count; uint32_t items[2]; struct { uint32_t number; } inner; }` with
-- 150, the items 3 and 270, and 5, at the address 64.
abbrev bytes : List ℕ
bytes = 150 ∷ 0 ∷ 0 ∷ 0 ∷ 2 ∷ 0 ∷ 0 ∷ 0 ∷ 3 ∷ 0 ∷ 0 ∷ 0 ∷ 14 ∷ 1 ∷ 0 ∷ 0 ∷ 5 ∷ 0 ∷ 0 ∷ 0 ∷ []

abbrev image : Mem
image p = get_or bytes (p - 64) 0

abbrev number : Field
number = record {
  tag = 1;
  type = 1;
  data_offset = 0;
  size_offset = 0;
  data_size = 4;
  array_size = 0;
  ptr = 0;
}

-- A packed array: its offset is counted from the end of `number`, and its count stands just before it.
abbrev items : Field
items = record {
  tag = 4;
  type = 0x21;
  data_offset = 4;
  size_offset = 2 ^ 32 - 4;
  data_size = 4;
  array_size = 2;
  ptr = 0;
}

abbrev inner : Field
inner = record {
  tag = 3;
  type = 7;
  data_offset = 0;
  size_offset = 0;
  data_size = 4;
  array_size = 0;
  ptr = 1;
}

abbrev outer_table : List Field
outer_table = number ∷ items ∷ inner ∷ []

abbrev env : Env
env = record {
  table = λ p. number ∷ [];
  encode_callback = λ func field arg m. fail callback_error;
  encode_extension = λ func extension m. fail callback_error;
}

-- What the example is encoded to.
encoded :
    pb_encode 2 env image outer_table 64 (pb_ostream_from_buffer 16 16)
    ≡ ok tt (output (8 ∷ 150 ∷ 1 ∷ 34 ∷ 3 ∷ 3 ∷ 142 ∷ 2 ∷ 26 ∷ 2 ∷ 8 ∷ 5 ∷ []) 4 16 12 none)
unfolding pb_encode encode_from each_field encode_entry encode_field encode_basic_field encode_array
    encode_packed packed_size packed_tail packed_body each_item checked encode_present
    encode_by_htype size_ptr read_has read_size tag_and_item with_size pb_check_proto3_default_value
    pb_encoder pb_encode_tag_for_field pb_enc_uvarint pb_enc_submessage pb_encode_submessage
    sized_tail write_submessage is_word_size encode_typed_tag wire_type_of pb_field_iter_begin
    pb_field_iter_next advance previous_size pb_encode_varint pb_encode_tag clear_last varint_buffer
    pb_write pb_ostream_from_buffer displace all_zero
encoded = refl

one : IsTag 0 1
one = record { wire = omega arith; small = omega arith }

-- The encoder of `number` at its address.
number-Writes : (sub : Submessage) → Writes (pb_encoder env sub image number 64) (varint 150)
number-Writes sub = Writes-eq same (pb_encode_varint-Writes 150 (omega arith))
  where
    same : (s : OStream) → pb_encoder env sub image number 64 s ≡ pb_encode_varint 150 s
    same s = unfold pb_encoder pb_enc_uvarint is_word_size in refl

abbrev no_submessages : Submessage
no_submessages fields p = fail callback_error

encode_field-singular_example :
    Writes
      (encode_field 1 env no_submessages image number 64)
      (singular_bytes image number 64 0 (varint 150))
encode_field-singular_example =
    encode_field-singular env no_submessages image number 64 0 (varint 150) 1 refl (inl refl)
      (omega arith) (unfold wire_type_of in refl) one (number-Writes no_submessages)

submessage-Writes_example :
    Writes
      (pb_encode_submessage (pb_encode_varint 150))
      (varint (length (varint 150)) ++ varint 150)
submessage-Writes_example = submessage-Writes (pb_encode_varint-Writes 150 (omega arith))

-- The items 3 and 270 of the packed array.
abbrev item_bytes : ℕ → List ℕ
item_bytes zero = varint 3
item_bytes (suc i) = varint 270

items-Writes :
    (i : ℕ)
    → i < items_count image items 72
    → Writes
        (pb_encoder env no_submessages image items
          (entry_address image items (items_address image items 72 + i * 4)))
        (item_bytes i)
unfolding displace
items-Writes zero h = Writes-eq same (pb_encode_varint-Writes 3 (omega arith))
  where
    same : (s : OStream) → pb_encoder env no_submessages image items 72 s ≡ pb_encode_varint 3 s
    same s = unfold pb_encoder pb_enc_uvarint is_word_size in refl
items-Writes (suc zero) h = Writes-eq same (pb_encode_varint-Writes 270 (omega arith))
  where
    same : (s : OStream) → pb_encoder env no_submessages image items 76 s ≡ pb_encode_varint 270 s
    same s = unfold pb_encoder pb_enc_uvarint is_word_size in refl
items-Writes (suc (suc i)) h = absurd (omega (arith, h))

encode_field-repeated_example :
    Writes
      (encode_field 1 env no_submessages image items 72)
      (array_bytes items 0 item_bytes (items_count image items 72))
unfolding displace
encode_field-repeated_example =
    encode_field-repeated env no_submessages image items 72 0 item_bytes 1 (inl refl) refl
      (λ e. absurd (omega (arith, e))) (inr (omega arith)) (unfold wire_type_of in refl)
      (record { wire = omega arith; small = omega arith }) (λ e. absurd (omega (arith, e)))
      (λ e. absurd (omega (arith, e))) items-Writes

-- `number` in a proto3 message.
abbrev plain_number : Field
plain_number = record number { type = 0x11 }

-- An array of submessages.
abbrev inners : Field
inners = record inner { type = 0x27; array_size = 2 }

encode_array-Writes_example :
    Writes
      (encode_array image inners 72 2 (λ p. pb_encode_varint 150))
      (array_bytes inners 2 (λ i. varint 150) 2)
encode_array-Writes_example =
    encode_array-Writes image inners (λ p. pb_encode_varint 150) 72 2 2 (λ i. varint 150)
      (inr (omega arith)) (unfold wire_type_of in refl)
      (record { wire = omega arith; small = omega arith }) (λ e. absurd (omega (arith, e)))
      (λ e. absurd (omega (arith, e))) (λ i h. pb_encode_varint-Writes 150 (omega arith))

-- A callback field, and a function that writes a number.
abbrev hook : Field
hook = record number { type = 0x40; data_size = 16 }

abbrev hooked : Env
hooked = record env { encode_callback = λ func field arg m. pb_encode_varint arg }

-- An iterator at `items`, from where `number` is found around the end of the table.
abbrev at_items : FieldIter
at_items = record {
  start = outer_table;
  pos = 1;
  required_field_index = 1;
  dest_struct = 64;
  p_data = 72;
  p_size = 68;
}

outer-IsClosed : IsClosed outer_table
outer-IsClosed =
    ((λ e. absurd (omega arith)), ((λ e. absurd (omega arith)), ((λ e. absurd (omega arith)), tt)))

pb_field_iter_find_lem_example :
    ((pb_field_iter_find at_items 1).1 ≡ true)
    × (matches (current (pb_field_iter_find at_items 1).0) 1 ≡ true)
pb_field_iter_find_lem_example =
    pb_field_iter_find_lem at_items 1 0 outer-IsClosed (omega arith) (omega arith) refl
