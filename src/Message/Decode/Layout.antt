-- ===== src/Message/Decode/Layout.antt =====
-- Where the fields of a message stand: within one region of memory, along the walk of the field iterator.
use ios_college_work.Common.{
  ℕ, zero, suc, ◌+◌, ◌*◌, ◌%◌, ◌^◌, ◌≤◌, ◌<◌, ◌≡◌, ◌≢◌, refl, ◌∙◌, ◌⊎◌, inl, inr, true, false,
  Bool-cases, not, ◌==◌, ◌&&◌, if◌then◌else◌, List, length, arith,
}
use ios_college_work.Message.Field.{
  Field, pb_ltype, pb_htype, pb_atype, ltype_fixed32, ltype_fixed64, ltype_submessage,
  ltype_fixed_length_bytes, htype_required, htype_optional, htype_repeated, htype_oneof,
  atype_static, atype_callback, ltype_extension,
}
use ios_college_work.Message.Iter.{
  FieldIter, current, previous_size, advance, pb_field_iter_begin, pb_field_iter_next, find_loop,
  pb_field_iter_find,
}

-- The bytes from `p` on are within the region, or there are none.
abbrev pub Inside : (lo len p size : ℕ) → Type 0
Inside lo len p size = (size ≡ 0) ⊎ ((lo ≤ p) × (p + size ≤ lo + len))

-- The structures of a submessage field.
abbrev pub slots : Field → ℕ
slots field = if pb_htype field.type == htype_repeated then field.array_size else 1

-- An entry of a table that the code generator makes, with its places in the region. `Good` holds of the
-- tables of submessages and their places.
pub record FieldFits (lo len : ℕ) (Good : List Field → ℕ → Type 0) (table : ℕ → List Field)
    (iter : FieldIter) : Type 0 where
  pub known :
      (pb_ltype (current iter).type ≤ ltype_submessage)
      ⊎ (pb_ltype (current iter).type ≡ ltype_fixed_length_bytes)
  pub place :
      pb_atype (current iter).type ≢ atype_callback
      → Inside lo len iter.p_data (previous_size (current iter))
  pub four : pb_ltype (current iter).type ≡ ltype_fixed32 → 4 ≤ (current iter).data_size
  pub eight : pb_ltype (current iter).type ≡ ltype_fixed64 → 8 ≤ (current iter).data_size
  pub small : (current iter).data_size * (current iter).array_size < 2 ^ 32
  pub has :
      pb_atype (current iter).type ≢ atype_callback
      → pb_htype (current iter).type ≡ htype_optional
      → (iter.p_size ≡ iter.p_data) ⊎ ((lo ≤ iter.p_size) × (iter.p_size + 1 ≤ lo + len))
  pub count :
      pb_atype (current iter).type ≢ atype_callback
      → (pb_htype (current iter).type ≡ htype_repeated)
        ⊎ (pb_htype (current iter).type ≡ htype_oneof)
      → (lo ≤ iter.p_size) × (iter.p_size + 4 ≤ lo + len)
  pub linked :
      pb_atype (current iter).type ≡ atype_static
      → pb_ltype (current iter).type ≡ ltype_submessage
      → (current iter).ptr ≢ 0
  pub submessage :
      pb_atype (current iter).type ≡ atype_static
      → pb_ltype (current iter).type ≡ ltype_submessage
      → (i : ℕ) → i < slots (current iter)
      → Good (table (current iter).ptr) (iter.p_data + (current iter).data_size * i)

-- The number of required fields, as `pb_decode_noinit` finds it at the last entry: with 32 of them it would
-- shift by 32, and with 64 read past its bitmap.
abbrev pub required_count : FieldIter → ℕ
required_count iter =
    if (pb_htype (current iter).type == htype_required)
      && not ((current (pb_field_iter_next iter).0).tag == 0)
    then (iter.required_field_index + 1) % 2 ^ 32
    else iter.required_field_index

abbrev pub CountFits : FieldIter → Type 0
CountFits iter = (required_count iter < 64) × (required_count iter ≢ 32)

-- `P` holds at every entry from the iterator on, and `Q` at the last one.
abbrev pub Entries : (fuel : ℕ) → (P Q : FieldIter → Type 0) → FieldIter → Type 0
Entries zero P Q iter = ⊥
Entries (suc fuel) P Q iter = P iter × elim ((pb_field_iter_next iter).1) [
  | true ↦ Entries fuel P Q (pb_field_iter_next iter).0
  | false ↦ Q iter
]

-- A structure at `dest` whose fields are in the region, and whose submessages nest less than `depth` deep.
abbrev pub IsLaidOut :
    (depth lo len : ℕ) (table : ℕ → List Field) → List Field → (dest : ℕ) → Type 0
IsLaidOut zero lo len table fields dest = ⊥
IsLaidOut (suc depth) lo len table fields dest =
    Entries (suc (length fields)) (FieldFits lo len (IsLaidOut depth lo len table) table) CountFits
      (pb_field_iter_begin fields dest).0

-- An iterator on the structure at `dest`, from which the rest of the table is as it should be.
pub record On (fields : List Field) (dest : ℕ) (P Q : FieldIter → Type 0) (iter : FieldIter)
    : Type 0 where
  pub start : iter.start ≡ fields
  pub dest_struct : iter.dest_struct ≡ dest
  pub left : ℕ
  pub entries : Entries left P Q iter

module _ (fields : List Field) (dest : ℕ) (P Q : FieldIter → Type 0) where
  pub On-begin :
      (fuel : ℕ)
      → Entries fuel P Q (pb_field_iter_begin fields dest).0
      → On fields dest P Q (pb_field_iter_begin fields dest).0
  On-begin fuel w = record {
    start = unfold pb_field_iter_begin in refl;
    dest_struct = unfold pb_field_iter_begin in refl;
    left = fuel;
    entries = w;
  }

  Entries-here : (fuel : ℕ) (iter : FieldIter) → Entries fuel P Q iter → P iter
  Entries-here zero iter w = absurd w
  Entries-here (suc fuel) iter w = w.0

  pub On-here : (iter : FieldIter) → On fields dest P Q iter → P iter
  On-here iter o = Entries-here o.left iter o.entries

  Entries-next :
      (fuel : ℕ) (iter : FieldIter)
      → Entries fuel P Q iter
      → (pb_field_iter_next iter).1 ≡ true
      → (k : ℕ) × Entries k P Q (pb_field_iter_next iter).0
  Entries-next zero iter w more = absurd w
  Entries-next (suc fuel) iter w more = (fuel, rw more at w.1)

  -- The last step goes back to the first entry, and otherwise to the next one.
  next_kept :
      (iter : FieldIter)
      → ((pb_field_iter_next iter).0.start ≡ iter.start)
        × ((pb_field_iter_next iter).0.dest_struct ≡ iter.dest_struct)
  unfolding pb_field_iter_next pb_field_iter_begin advance
  next_kept iter = ground arith

  next_last :
      (iter : FieldIter)
      → (pb_field_iter_next iter).1 ≡ false
      → ((pb_field_iter_next iter).0 ≡ iter)
        ⊎ ((pb_field_iter_next iter).0 ≡ (pb_field_iter_begin iter.start iter.dest_struct).0)
  unfolding pb_field_iter_next
  next_last iter last = elim (Bool-cases ((current iter).tag == 0)) [
    | inl t ↦ inl (ground arith)
    | inr t ↦ inr (ground arith)
  ]

  module _ (whole : On fields dest P Q (pb_field_iter_begin fields dest).0) where
    -- The iterator stays on the table, around its end too.
    pub On-next :
        (iter : FieldIter)
        → On fields dest P Q iter
        → On fields dest P Q (pb_field_iter_next iter).0
    On-next iter o = elim (Bool-cases ((pb_field_iter_next iter).1)) [
      | inl more ↦
          let kept = next_kept iter in
          let (k, w) = Entries-next o.left iter o.entries more in
          record {
            start = kept.0 ∙ o.start;
            dest_struct = kept.1 ∙ o.dest_struct;
            left = k;
            entries = w;
          }
      | inr last ↦ elim (next_last iter last) [
        | inl e ↦ rw e o
        | inr e ↦ rw (e, o.start, o.dest_struct) whole
      ]
    ]

    On-loop :
        (fuel start tag : ℕ) (iter : FieldIter)
        → On fields dest P Q iter
        → On fields dest P Q (find_loop fuel start tag iter).0
    unfolding find_loop
    On-loop zero start tag iter o = o
    On-loop (suc fuel) start tag iter o =
        let next = On-next iter o in
        let more = On-loop fuel start tag (pb_field_iter_next iter).0 next in
        elim (Bool-cases
          (((current iter).tag == tag) && not (pb_ltype (current iter).type == ltype_extension))) [
            | inl t ↦ rw t o
            | inr t ↦ elim (Bool-cases ((pb_field_iter_next iter).0.pos == start)) [
              | inl u ↦ rw (t, u) next
              | inr u ↦ rw (t, u) more
            ]
          ]

    -- Where `P` holds at every entry of the walk along the table and `Q` at the last one, `pb_field_iter_find` keeps
    -- the iterator on that table and that structure, whether the tag is found or not.
    pub On-find :
        (iter : FieldIter) (tag : ℕ)
        → On fields dest P Q iter
        → On fields dest P Q (pb_field_iter_find iter tag).0
    unfolding pb_field_iter_find
    On-find iter tag o = On-loop (suc (length iter.start)) iter.pos tag iter o
