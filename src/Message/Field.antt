-- ===== src/Message/Field.antt =====
-- Field descriptors (pb.h), built with PB_FIELD_32BIT: `pb_size_t` is a `uint32_t`.
use ios_college_work.Common.{ℕ, ◌-◌, ◌^◌, bit_and, List, get_or}

-- `struct pb_field_s`. `size_offset` is the bit pattern of a `pb_ssize_t`; `ptr` is an address, 0 for
-- NULL.
pub record Field : Type 0 where
  pub tag : ℕ
  pub type : ℕ
  pub data_offset : ℕ
  pub size_offset : ℕ
  pub data_size : ℕ
  pub array_size : ℕ
  pub ptr : ℕ

-- `PB_LAST_FIELD`
abbrev pub last_field : Field
last_field = record {
  tag = 0;
  type = 0;
  data_offset = 0;
  size_offset = 0;
  data_size = 0;
  array_size = 0;
  ptr = 0;
}

abbrev pub pb_ltype : ℕ → ℕ
pb_ltype type = bit_and type 0x0f

abbrev pub pb_htype : ℕ → ℕ
pb_htype type = bit_and type 0x30

abbrev pub pb_atype : ℕ → ℕ
pb_atype type = bit_and type 0xc0

abbrev pub ltype_varint : ℕ
ltype_varint = 0

abbrev pub ltype_uvarint : ℕ
ltype_uvarint = 1

abbrev pub ltype_svarint : ℕ
ltype_svarint = 2

abbrev pub ltype_fixed32 : ℕ
ltype_fixed32 = 3

abbrev pub ltype_fixed64 : ℕ
ltype_fixed64 = 4

abbrev pub ltype_last_packable : ℕ
ltype_last_packable = 4

abbrev pub ltype_bytes : ℕ
ltype_bytes = 5

abbrev pub ltype_string : ℕ
ltype_string = 6

abbrev pub ltype_submessage : ℕ
ltype_submessage = 7

abbrev pub ltype_extension : ℕ
ltype_extension = 8

abbrev pub ltype_fixed_length_bytes : ℕ
ltype_fixed_length_bytes = 9

abbrev pub htype_required : ℕ
htype_required = 0x00

abbrev pub htype_optional : ℕ
htype_optional = 0x10

abbrev pub htype_repeated : ℕ
htype_repeated = 0x20

abbrev pub htype_oneof : ℕ
htype_oneof = 0x30

abbrev pub atype_static : ℕ
atype_static = 0x00

abbrev pub atype_pointer : ℕ
atype_pointer = 0x80

abbrev pub atype_callback : ℕ
atype_callback = 0x40

-- `PB_SIZE_MAX`
abbrev pub pb_size_max : ℕ
pb_size_max = 2 ^ 32 - 1

-- `fields[i]`: a table is given without its PB_LAST_FIELD, which stands behind the entries.
abbrev pub field_at : List Field → ℕ → Field
field_at fields i = get_or fields i last_field
