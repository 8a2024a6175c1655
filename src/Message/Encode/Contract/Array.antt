-- ===== src/Message/Encode/Contract/Array.antt =====
-- The arrays of `encode_array`, packed or not.
use ios_college_work.Common.{
  ℕ, zero, suc, ◌+◌, ◌*◌, ◌^◌, ◌≤◌, ◌<◌, ◌≡◌, ◌≢◌, ◌⊎◌, refl, inl, inr, leb, ◌==◌, ◌&&◌, ◌||◌,
  if◌then◌else◌, some, Bool-cases, true, false, List, [], ◌++◌, length, length-append, arith, Cmd,
  ok, ◌>>◌,
}
use native.Mathlib.Decide.{dec_lt, dec_le}
use ios_college_work.Stream.Output.{OStream, pb_write}
use ios_college_work.Stream.Writes.{Writes, Writes-eq, Writes-then, Writes-nothing}
use ios_college_work.Wire.Encode.{wt_string, pb_encode_varint, pb_encode_tag}
use ios_college_work.Wire.Varint.{varint}
use ios_college_work.Wire.Scalars.Varint.{pb_encode_varint-Writes}
use ios_college_work.Wire.Fields.Tag.{IsTag, tag_bytes, pb_encode_tag-Writes}
use ios_college_work.Message.Memory.{Mem, load, load_pointer, displace}
use ios_college_work.Message.Field.{
  Field, pb_ltype, pb_htype, pb_atype, ltype_fixed32, ltype_fixed64, ltype_last_packable,
  ltype_bytes, ltype_string, atype_pointer, atype_static, htype_repeated,
}
use ios_college_work.Message.Encode.Env.{Env, Submessage}
use ios_college_work.Message.Encode.Items.{
  wire_type_of, encode_typed_tag, pb_encode_tag_for_field, pb_encoder,
}
use ios_college_work.Message.Encode.Contract.Singular.{known-typed}
use ios_college_work.Message.Encode.Fields.{
  each_item, packed_size, packed_tail, packed_body, encode_packed, array_entry, encode_array,
  encode_present, encode_by_htype, size_ptr, read_size, with_size, encode_basic_field, encode_field,
}

-- The bytes of items from `k` on, of which there are `count`.
abbrev pub items_bytes : (bytes : ℕ → List ℕ) → (count k : ℕ) → List ℕ
items_bytes bytes zero k = []
items_bytes bytes (suc count) k = bytes k ++ items_bytes bytes count (suc k)

-- An array of up to `LAST_PACKABLE` is packed behind one tag and its length; the items of others have a tag each.
abbrev pub array_bytes : Field → (w : ℕ) → (bytes : ℕ → List ℕ) → (count : ℕ) → List ℕ
array_bytes field w bytes count =
    let items = items_bytes bytes count 0 in
    if count == 0
    then []
    else if leb (pb_ltype field.type) ltype_last_packable
    then tag_bytes wt_string field.tag ++ (varint (length items) ++ items)
    else items_bytes (λ k. tag_bytes w field.tag ++ bytes k) count 0

-- Where an item stands: strings and bytes arrays of a pointer field are behind a pointer.
abbrev pub entry_address : Mem → Field → ℕ → ℕ
entry_address m field p =
    if (pb_atype field.type == atype_pointer)
      && (pb_ltype field.type == ltype_string || pb_ltype field.type == ltype_bytes)
    then load_pointer m p
    else p

each_item-Writes :
    (item : ℕ → Cmd OStream (Unit {0})) (bytes : ℕ → List ℕ) (size count k p : ℕ)
    → ((i : ℕ) → i < count → Writes (item (p + i * size)) (bytes (k + i)))
    → Writes (each_item item count p size) (items_bytes bytes count k)
unfolding each_item
each_item-Writes item bytes size zero k p each = Writes-nothing
each_item-Writes item bytes size (suc count) k p each =
    let here : p + 0 * size ≡ p = omega arith in
    let this : k + 0 ≡ k = omega arith in
    let one : Writes (item p) (bytes k) = (rw (here, this) at (each 0 (omega arith))) in
    Writes-then one (
      each_item-Writes item bytes size count (suc k) (p + size) (λ i lt.
        let there : p + suc i * size ≡ p + size + i * size = grind arith in
        let that : k + suc i ≡ suc k + i = omega arith in
        (rw (there, that) at (each (suc i) (omega (arith, lt))))))

all_items-Writes :
    (item : ℕ → Cmd OStream (Unit {0})) (bytes : ℕ → List ℕ) (size count p : ℕ)
    → ((i : ℕ) → i < count → Writes (item (p + i * size)) (bytes i))
    → Writes (each_item item count p size) (items_bytes bytes count 0)
all_items-Writes item bytes size count p each =
    each_item-Writes item bytes size count 0 p
      λ i lt. let this : 0 + i ≡ i = omega arith in rw this (each i lt)

length-items_bytes :
    (bytes : ℕ → List ℕ) (width count k : ℕ)
    → ((i : ℕ) → i < count → length (bytes (k + i)) ≡ width)
    → length (items_bytes bytes count k) ≡ width * count
length-items_bytes bytes width zero k each = omega arith
length-items_bytes bytes width (suc count) k each =
    let this : k + 0 ≡ k = omega arith in
    let one : length (bytes k) ≡ width = (rw this at (each 0 (omega arith))) in
    let rest = length-items_bytes bytes width count (suc k) (λ i lt.
      let that : k + suc i ≡ suc k + i = omega arith in
      (rw that at (each (suc i) (omega (arith, lt))))) in
    omega (arith, length-append (bytes k) (items_bytes bytes count (suc k)), one, rest)

module _ (field : Field) (count : ℕ) {items : Cmd OStream (Unit {0})} where
  module _ {bs : List ℕ} (w : Writes items bs) where
    packed_tail-Writes : Writes (packed_tail items (length bs)) bs
    packed_tail-Writes = record {
      stores =
          λ xs room max_size n h fits. unfold packed_tail in w.stores xs room max_size n h fits;
      counts = λ xs room max_size n h. unfold packed_tail pb_write in ground arith;
      full = λ xs room max_size n h over bound.
          unfold packed_tail in w.full xs room max_size n h over bound;
    }

    packed_size-ok :
        length bs < 2 ^ 64
        → (pb_ltype field.type ≡ ltype_fixed32 → length bs ≡ 4 * count)
        → (pb_ltype field.type ≡ ltype_fixed64 → length bs ≡ 8 * count)
        → (s : OStream) → packed_size field count items s ≡ ok (length bs) s
    unfolding packed_size
    packed_size-ok small four eight s = ground (arith, w.counts [] 0 0 0 (omega (arith, small)))

    packed_halves :
        length bs < 2 ^ 64
        → (pb_ltype field.type ≡ ltype_fixed32 → length bs ≡ 4 * count)
        → (pb_ltype field.type ≡ ltype_fixed64 → length bs ≡ 8 * count)
        → (s : OStream)
        → packed_body field count items s
          ≡ (pb_encode_varint (length bs) >> packed_tail items (length bs)) s
    unfolding packed_body
    packed_halves h four eight s = rw (packed_size-ok h four eight s)

    -- What a packed array writes behind its tag.
    packed_body-Writes :
        (pb_ltype field.type ≡ ltype_fixed32 → length bs ≡ 4 * count)
        → (pb_ltype field.type ≡ ltype_fixed64 → length bs ≡ 8 * count)
        → Writes (packed_body field count items) (varint (length bs) ++ bs)
    packed_body-Writes four eight = elim (dec_lt (length bs) (2 ^ 64)) [
      | yes h ↦
          Writes-eq (packed_halves h four eight)
            (Writes-then (pb_encode_varint-Writes (length bs) h) packed_tail-Writes)
      | no h ↦ record {
        stores = λ xs room max_size n room' fits.
            absurd (omega (arith, h, fits, room'.bound, length-append (varint (length bs)) bs));
        counts = λ xs room max_size n fits.
            absurd (omega (arith, h, fits, length-append (varint (length bs)) bs));
        full = λ xs room max_size n room' over fits.
            absurd (omega (arith, h, fits, length-append (varint (length bs)) bs));
      }
    ]

module _ (m : Mem) (field : Field) (item : ℕ → Cmd OStream (Unit {0})) (p_data count w : ℕ)
    (bytes : ℕ → List ℕ) (fits : (pb_atype field.type ≡ atype_pointer) ⊎ (count ≤ field.array_size))
    (typed : wire_type_of (pb_ltype field.type) ≡ some w) (tag : IsTag w field.tag)
    (four : pb_ltype field.type ≡ ltype_fixed32 → (i : ℕ) → i < count → length (bytes i) ≡ 4)
    (eight : pb_ltype field.type ≡ ltype_fixed64 → (i : ℕ) → i < count → length (bytes i) ≡ 8)
    (each : (i : ℕ)
      → i < count
      → Writes (item (entry_address m field (p_data + i * field.data_size))) (bytes i)) where
  unpacked :
      Writes
        (each_item (array_entry m field item) count p_data field.data_size)
        (items_bytes (λ k. tag_bytes w field.tag ++ bytes k) count 0)
  unpacked =
      all_items-Writes (array_entry m field item) (λ k. tag_bytes w field.tag ++ bytes k)
        field.data_size count p_data
        λ i lt.
          Writes-eq {d = array_entry m field item (p_data + i * field.data_size)} (same i)
            (Writes-then (pb_encode_tag-Writes w field.tag tag) (each i lt))
    where
      same :
          (i : ℕ) (s : OStream)
          → array_entry m field item (p_data + i * field.data_size) s
            ≡ (pb_encode_tag w field.tag
                  >> item (entry_address m field (p_data + i * field.data_size)))
                s
      same i s = unfold array_entry pb_encode_tag_for_field encode_typed_tag in rw typed refl

  packed :
      pb_ltype field.type ≤ ltype_last_packable
      → Writes (encode_packed field count (each_item item count p_data field.data_size)) (
          tag_bytes wt_string field.tag
          ++ (varint (length (items_bytes bytes count 0)) ++ items_bytes bytes count 0))
  unfolding encode_packed
  packed small =
      Writes-then
        (pb_encode_tag-Writes wt_string field.tag
          (record { wire = omega arith; small = tag.small }))
        (packed_body-Writes field count
          (all_items-Writes item bytes field.data_size count p_data λ i lt.
            let direct : entry_address m field (p_data + i * field.data_size)
                ≡ p_data + i * field.data_size =
              ground (arith, small) in
            (rw direct at (each i lt)))
          (λ e.
            length-items_bytes bytes 4 count 0
              (λ i lt. let this : 0 + i ≡ i = omega arith in rw this (four e i lt)))
          (λ e.
            length-items_bytes bytes 8 count 0
              (λ i lt. let this : 0 + i ≡ i = omega arith in rw this (eight e i lt))))

  -- Where a static array has at most as many items as its field, the tag has 29 bits and the type a wire type, items of FIXED32 take
  -- four bytes and those of FIXED64 eight, and the encoder writes `bytes i` for the item at `i`, which is behind a pointer for strings
  -- and bytes arrays of a pointer field: `encode_array` writes nothing for no items; for types up to LTYPE_LAST_PACKABLE the tag of a
  -- string, the length of all items, and the items; for the others each item behind a tag of its own.
  pub encode_array-Writes :
      Writes (encode_array m field p_data count item) (array_bytes field w bytes count)
  encode_array-Writes = elim (Bool-cases (count == 0)) [
    | inl t ↦ rw t (Writes-eq {c = ok tt} (λ s. unfold encode_array in rw t refl) Writes-nothing)
    | inr t ↦ elim (dec_le (pb_ltype field.type) ltype_last_packable) [
      | yes small ↦
          let is : leb (pb_ltype field.type) ltype_last_packable ≡ true = ground (arith, small) in
          rw (t, is)
            (Writes-eq {c = encode_packed field count (each_item item count p_data field.data_size)}
              (λ s. unfold encode_array in rw (t, is) (ground (arith, fits))) (packed small))
      | no large ↦
          let is : leb (pb_ltype field.type) ltype_last_packable ≡ false = ground (arith, large) in
          rw (t, is)
            (Writes-eq {c = each_item (array_entry m field item) count p_data field.data_size}
              (λ s. unfold encode_array in rw (t, is) (ground (arith, fits))) unpacked)
    ]
  ]

-- The items of a repeated field, and their number.
abbrev pub items_address : Mem → Field → ℕ → ℕ
items_address m field p = if pb_atype field.type == atype_pointer then load_pointer m p else p

abbrev pub items_count : Mem → Field → ℕ → ℕ
items_count m field p = load m (displace p field.size_offset) 4

-- A repeated field at `p`, static or a pointer, with its count stored at `size_offset`, which for a static one is at most its
-- `array_size`: where the encoder of its type writes `bytes i` for the item at `i`, four of them for FIXED32 and eight for
-- FIXED64, the tag has 29 bits and the type the wire type `w`, `encode_field` writes the items that the count says, as `array_bytes`: nothing for
-- none, packed up to LTYPE_LAST_PACKABLE, and each behind its tag otherwise.
pub encode_field-repeated :
    (env : Env) (sub : Submessage) (m : Mem) (field : Field) (p w : ℕ) (bytes : ℕ → List ℕ)
    (depth : ℕ)
    → (pb_atype field.type ≡ atype_static) ⊎ (pb_atype field.type ≡ atype_pointer)
    → pb_htype field.type ≡ htype_repeated
    → field.size_offset ≢ 0
    → (pb_atype field.type ≡ atype_pointer) ⊎ (items_count m field p ≤ field.array_size)
    → wire_type_of (pb_ltype field.type) ≡ some w
    → IsTag w field.tag
    → (pb_ltype field.type ≡ ltype_fixed32
        → (i : ℕ) → i < items_count m field p
        → length (bytes i) ≡ 4)
    → (pb_ltype field.type ≡ ltype_fixed64
        → (i : ℕ) → i < items_count m field p
        → length (bytes i) ≡ 8)
    → ((i : ℕ)
        → i < items_count m field p
        → Writes
            (pb_encoder env sub m field
              (entry_address m field (items_address m field p + i * field.data_size)))
            (bytes i))
    → Writes
        (encode_field depth env sub m field p)
        (array_bytes field w bytes (items_count m field p))
encode_field-repeated env sub m field p w bytes depth kind repeated stored fits typed tag four eight
      each =
    Writes-eq
      {c = encode_array m field (items_address m field p) (items_count m field p)
        (pb_encoder env sub m field)}
      same
      (encode_array-Writes m field (pb_encoder env sub m field) (items_address m field p)
        (items_count m field p) w bytes fits typed tag four eight each)
  where
    same :
        (s : OStream)
        → encode_field depth env sub m field p s
          ≡ encode_array m field
              (items_address m field p)
              (items_count m field p)
              (pb_encoder env sub m field)
              s
    same s =
        unfold encode_field encode_basic_field encode_present encode_by_htype size_ptr read_size
          with_size in
        rw (known-typed (pb_ltype field.type) w typed) (ground (arith, kind, repeated, stored))
