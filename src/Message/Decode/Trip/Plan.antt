-- ===== src/Message/Decode/Trip/Plan.antt =====
-- The format of a message on the wire, what it is for two structures to hold the same fields, and which
-- structures are taken.
use ios_college_work.Common.{
  ℕ, zero, suc, ◌+◌, ◌^◌, ◌≤◌, ◌<◌, ◌≡◌, ◌≢◌, ◌⊎◌, true, leb, ◌==◌, if◌then◌else◌, List, [], ◌++◌,
  length,
}
use ios_college_work.Wire.Encode.{wt_varint, wt_64bit, wt_string, wt_32bit}
use ios_college_work.Wire.Varint.{varint}
use ios_college_work.Message.Memory.{Mem, load, bytes_at}
use ios_college_work.Message.Field.{
  Field, field_at, pb_ltype, pb_htype, pb_atype, ltype_svarint, ltype_fixed32, ltype_fixed64,
  ltype_last_packable, ltype_bytes, ltype_string, ltype_submessage, ltype_fixed_length_bytes,
  htype_required, htype_optional, atype_static,
}
use ios_college_work.Message.Iter.{FieldIter}
use ios_college_work.Message.Encode.Items.{string_size}
use ios_college_work.Message.Decode.Trip.Strings.{string_at}
use ios_college_work.Message.Encode.Contract.Singular.{is_present, singular_bytes}
use ios_college_work.Message.Decode.Bytes.{array_size_at, array_at, array_bytes}
use ios_college_work.Message.Decode.Trip.Walk.{walk}
use ios_college_work.Message.Decode.Trip.Static.{first_byte, end_byte}
use ios_college_work.Message.Decode.Trip.Rounds.{IsSimple}
use ios_college_work.Message.Decode.Trip.Whole.{chunks}
use ios_college_work.Message.Decode.Trip.Numbers.{IsNumber, number_bytes}

abbrev pub wire_type : Field → ℕ
wire_type field =
    let ltype = pb_ltype field.type in
    if leb ltype ltype_svarint
    then wt_varint
    else if ltype == ltype_fixed32
    then wt_32bit
    else if ltype == ltype_fixed64
    then wt_64bit
    else wt_string

-- A value behind its tag. `sub` is the format of submessages.
abbrev pub item_bytes :
    (sub : List Field → ℕ → List ℕ) (table : ℕ → List Field) → Mem → Field → (p : ℕ) → List ℕ
item_bytes sub table m field p =
    let ltype = pb_ltype field.type in
    if leb ltype ltype_last_packable
    then number_bytes m field p
    else if ltype == ltype_bytes
    then array_bytes m p
    else if ltype == ltype_string
    then varint (string_size m field.data_size p) ++ string_at m field.data_size p
    else if ltype == ltype_submessage
    then varint (length (sub (table field.ptr) p)) ++ sub (table field.ptr) p
    else varint field.data_size ++ bytes_at m p field.data_size

-- The field of the entry `k`, as its tag and its value if it is there.
abbrev entry_bytes :
    (sub : List Field → ℕ → List ℕ) (table : ℕ → List Field)
    → Mem
    → List Field
    → (src k : ℕ) → List ℕ
entry_bytes sub table m fields src k =
    singular_bytes m (field_at fields k) (walk fields src k).p_data (wire_type (field_at fields k))
      (item_bytes sub table m (field_at fields k) (walk fields src k).p_data)

-- The fields in the order of the table.
abbrev pub message_bytes :
    (depth : ℕ) (table : ℕ → List Field) → Mem → List Field → (src : ℕ) → List ℕ
message_bytes zero table m fields src = []
message_bytes (suc depth) table m fields src =
    chunks (entry_bytes (message_bytes depth table m) table m fields src) (length fields) 0

-- One field of a message that nests less than `suc depth` deep.
abbrev pub field_bytes :
    (depth : ℕ) (table : ℕ → List Field) → Mem → List Field → (src k : ℕ) → List ℕ
field_bytes depth table m = entry_bytes (message_bytes depth table m) table m

-- The value at `dest` in `m'` is the one at `src` in `m`.
abbrev pub SameItem :
    (Sub : List Field → (src dest : ℕ) → Mem → Type 0) (table : ℕ → List Field)
    → (m : Mem) → Field
    → (src dest : ℕ) → (m' : Mem) → Type 0
SameItem Sub table m field src dest m' =
    (pb_ltype field.type ≤ ltype_last_packable
      → load m' dest field.data_size ≡ load m src field.data_size)
    × (pb_ltype field.type ≡ ltype_bytes
        → (array_size_at m' dest ≡ array_size_at m src) × (array_at m' dest ≡ array_at m src))
    × (pb_ltype field.type ≡ ltype_fixed_length_bytes
        → bytes_at m' dest field.data_size ≡ bytes_at m src field.data_size)
    × (pb_ltype field.type ≡ ltype_string
        → (string_size m' field.data_size dest ≡ string_size m field.data_size src)
          × (string_at m' field.data_size dest ≡ string_at m field.data_size src))
    × (pb_ltype field.type ≡ ltype_submessage → Sub (table field.ptr) src dest m')

-- The structure at `dest` in `m'` has the fields of the one at `src` in `m`.
abbrev pub SameFields :
    (depth : ℕ) (table : ℕ → List Field) (m : Mem)
    → List Field
    → (src dest : ℕ) → (m' : Mem) → Type 0
SameFields zero table m fields src dest m' = ⊥
SameFields (suc depth) table m fields src dest m' =
    (k : ℕ)
    → k < length fields
    → (is_present m' (field_at fields k) (walk fields dest k).p_data
        ≡ is_present m (field_at fields k) (walk fields src k).p_data)
      × (is_present m (field_at fields k) (walk fields src k).p_data ≡ true
          → SameItem (SameFields depth table m) table m (field_at fields k)
              (walk fields src k).p_data (walk fields dest k).p_data m')

-- No optional field is marked as there.
abbrev pub IsCleared : (depth : ℕ) (table : ℕ → List Field) → List Field → (dest : ℕ) → Mem → Type 0
IsCleared zero table fields dest m = ⊥
IsCleared (suc depth) table fields dest m =
    (k : ℕ)
    → k < length fields
    → (pb_htype (field_at fields k).type ≡ htype_optional → m (walk fields dest k).p_size ≡ 0)
      × (pb_ltype (field_at fields k).type ≡ ltype_submessage
          → IsCleared depth table (table (field_at fields k).ptr) (walk fields dest k).p_data m)

-- A static field with its value at `src` in `m`, and the iterator at its place in the other structure. `Good`
-- holds of submessages, and `sub` is their format.
pub record FieldTrip (Good : List Field → (src dest top : ℕ) → Type 0)
    (sub : List Field → ℕ → List ℕ) (table : ℕ → List Field) (m : Mem) (field : Field) (src : ℕ)
    (iter : FieldIter) : Type 0 where
  pub static : pb_atype field.type ≡ atype_static
  pub singular :
      (pb_htype field.type ≡ htype_required)
      ⊎ ((pb_htype field.type ≡ htype_optional)
          × (field.size_offset ≢ 0)
          × (iter.p_size < iter.p_data))
  pub tag_small : field.tag < 2 ^ 29
  pub known :
      (pb_ltype field.type ≤ ltype_bytes)
      ⊎ (pb_ltype field.type ≡ ltype_string)
      ⊎ (pb_ltype field.type ≡ ltype_submessage)
      ⊎ (pb_ltype field.type ≡ ltype_fixed_length_bytes)
  pub there : src ≢ 0
  pub number : pb_ltype field.type ≤ ltype_last_packable → IsNumber field
  pub array : pb_ltype field.type ≡ ltype_bytes → array_size_at m src + 4 ≤ field.data_size
  pub fixed : pb_ltype field.type ≡ ltype_fixed_length_bytes → field.data_size < 2 ^ 32
  pub string :
      pb_ltype field.type ≡ ltype_string
      → (string_size m field.data_size src < field.data_size) × (field.data_size < 2 ^ 32)
  pub submessage :
      pb_ltype field.type ≡ ltype_submessage
      → (field.ptr ≢ 0)
        × (length (sub (table field.ptr) src) < 2 ^ 32)
        × Good (table field.ptr) src iter.p_data (iter.p_data + field.data_size)

-- The structure at `src` in `m`, with submessages that nest less than `depth` deep, and a place at `dest`
-- before `top` where its fields stand one behind the other.
abbrev pub IsTrip :
    (depth : ℕ) (table : ℕ → List Field) (m : Mem) → List Field → (src dest top : ℕ) → Type 0
IsTrip zero table m fields src dest top = ⊥
IsTrip (suc depth) table m fields src dest top =
    IsSimple fields
    × (0 < length fields)
    × ((k : ℕ)
        → k < length fields
        → FieldTrip (IsTrip depth table m) (message_bytes depth table m) table m (field_at fields k)
            (walk fields src k).p_data (walk fields dest k))
    × (dest ≤ first_byte (walk fields dest 0))
    × ((k : ℕ)
        → suc k < length fields
        → end_byte (walk fields dest k) ≤ first_byte (walk fields dest (suc k)))
    × ((k : ℕ) → suc k ≡ length fields → end_byte (walk fields dest k) ≤ top)
