-- ===== src/Message/Decode/Trip/Entry.antt =====
-- An entry of a table: what `encode_field` leaves for it, and that `decode_field` takes it.
use ios_college_work.Common.{
  ℕ, ◌≤◌, ◌<◌, ◌≡◌, ◌≢◌, refl, sym, ap, ◌∙◌, ◌⊎◌, inl, inr, Bool, true, false, Bool-cases, ◌==◌,
  if◌then◌else◌, some, List, length, arith, ne→==,
}
use ios_college_work.Stream.Writes.{Writes, Writes-eq}
use ios_college_work.Wire.Fields.Tag.{IsTag}
use ios_college_work.Message.Memory.{Mem, displace}
use ios_college_work.Message.Field.{
  Field, field_at, pb_ltype, pb_htype, ltype_bytes, ltype_string, ltype_submessage,
  ltype_fixed_length_bytes, ltype_extension, htype_required, htype_optional, htype_oneof,
}
use ios_college_work.Message.Iter.{current}
use ios_college_work.Message.Iter.Walk.{field_at-All}
use ios_college_work.Message.Encode.Env.{Env, Submessage}
use ios_college_work.Message.Encode.Items.{wire_type_of}
use ios_college_work.Message.Encode.Fields.{encode_field}
use ios_college_work.Message.Encode.Messages.{encode_entry}
use ios_college_work.Message.Encode.Contract.Items.{IsMem}
use ios_college_work.Message.Encode.Contract.Singular.{
  is_present, singular_bytes, encode_field-singular,
}
use ios_college_work.Message.Decode.Env.{DecodeEnv, Nested}
use ios_college_work.Message.Decode.Fields.{decode_field}
use ios_college_work.Message.Decode.Trip.Walk.{walk}
use ios_college_work.Message.Decode.Trip.Takes.{Takes}
use ios_college_work.Message.Decode.Trip.Static.{first_byte, end_byte, decode_field-Takes}
use ios_college_work.Message.Decode.Trip.Count.{walk-current, walk-p_size}
use ios_college_work.Message.Decode.Trip.Rounds.{IsSimple}
use ios_college_work.Message.Decode.Trip.Feed.{Chunk, present, absent}
use ios_college_work.Message.Decode.Trip.Plan.{wire_type, item_bytes, SameItem, FieldTrip}
use ios_college_work.Message.Decode.Trip.Items.{
  NestedTrip, item-Writes, item-Takes, ItemReady-Local,
}

wire_type-known :
    (field : Field)
    → (pb_ltype field.type ≤ ltype_bytes)
      ⊎ (pb_ltype field.type ≡ ltype_string)
      ⊎ (pb_ltype field.type ≡ ltype_submessage)
      ⊎ (pb_ltype field.type ≡ ltype_fixed_length_bytes)
    → (wire_type_of (pb_ltype field.type) ≡ some (wire_type field)) × (wire_type field < 8)
unfolding wire_type_of
wire_type-known field known = ground (arith, known)

-- Whether a field is there, by the byte at its place for the size.
pub present-byte :
    (m : Mem) (field : Field) (p : ℕ) (b : Bool)
    → pb_htype field.type ≡ htype_optional
    → (m (displace p field.size_offset) == 0) ≡ b
    → is_present m field p ≡ (if b then false else true)
present-byte m field p b optional e = rw (optional, e) refl

pub present-required :
    (m : Mem) (field : Field) (p : ℕ)
    → pb_htype field.type ≡ htype_required
    → is_present m field p ≡ true
present-required m field p required = rw required refl

-- What the entry at `k` needs of the memory, and what it says of it behind.
module _ (table : ℕ → List Field) (fields : List Field) (dest : ℕ) where
  abbrev pub ReadyAt : (Ready : List Field → ℕ → Mem → Type 0) → (k : ℕ) → Mem → Type 0
  ReadyAt Ready k m' =
      (pb_htype (field_at fields k).type ≡ htype_optional → m' (walk fields dest k).p_size ≡ 0)
      × (pb_ltype (field_at fields k).type ≡ ltype_submessage
          → Ready (table (field_at fields k).ptr) (walk fields dest k).p_data m')

  abbrev pub SameAt :
      (Same : List Field → (src dest : ℕ) → Mem → Type 0) (m : Mem)
      → (src : ℕ) → (k : ℕ) → Mem
      → Type 0
  SameAt Same m src k m' =
      (is_present m' (field_at fields k) (walk fields dest k).p_data
        ≡ is_present m (field_at fields k) (walk fields src k).p_data)
      × (is_present m (field_at fields k) (walk fields src k).p_data ≡ true
          → SameItem Same table m (field_at fields k) (walk fields src k).p_data
              (walk fields dest k).p_data m')

module _ {m : Mem} (mem : IsMem m) (env : Env) (denv : DecodeEnv)
    (tables : (p : ℕ) → denv.table p ≡ env.table p)
    (Good : List Field → (src dest top : ℕ) → Type 0) (bytes : List Field → ℕ → List ℕ)
    (Ready : List Field → ℕ → Mem → Type 0) (Same : List Field → (src dest : ℕ) → Mem → Type 0)
    (sub : Submessage) (noinit : Nested) (nested : NestedTrip Good bytes Ready Same sub noinit)
    (fields : List Field) (src dest : ℕ) (simple : IsSimple fields) (k : ℕ) (lt : k < length fields)
    (f : FieldTrip Good bytes env.table m
      (field_at fields k)
      (walk fields src k).p_data
      (walk fields dest k)) where
  -- The bytes of the entry.
  abbrev pub entry_bytes : List ℕ
  entry_bytes =
      singular_bytes m (field_at fields k) (walk fields src k).p_data
        (wire_type (field_at fields k))
        (item_bytes bytes env.table m (field_at fields k) (walk fields src k).p_data)

  tag : IsTag (wire_type (field_at fields k)) (field_at fields k).tag
  tag = record { wire = (wire_type-known (field_at fields k) f.known).1; small = f.tag_small }

  plain : pb_ltype (field_at fields k).type ≢ ltype_extension
  plain =
      field_at-All (λ field. pb_ltype field.type ≢ ltype_extension) fields k simple.no_extension lt

  pub entry-Writes :
      (depth : ℕ) → Writes (encode_entry depth env sub m (walk fields src k)) entry_bytes
  entry-Writes depth =
      Writes-eq {c = encode_field depth env sub m (field_at fields k) (walk fields src k).p_data}
        (λ s.
          unfold encode_entry in
          rw (here, ne→== (pb_ltype (field_at fields k).type) ltype_extension plain) refl)
        (encode_field-singular env sub m (field_at fields k) (walk fields src k).p_data
          (wire_type (field_at fields k))
          (item_bytes bytes env.table m (field_at fields k) (walk fields src k).p_data) depth
          f.static stored_size f.there (wire_type-known (field_at fields k) f.known).0 tag
          (item-Writes mem env denv tables Good bytes Ready Same sub noinit nested
            (field_at fields k) (walk fields src k).p_data (walk fields dest k) f))
    where
      here : current (walk fields src k) ≡ field_at fields k
      here = walk-current fields src simple.closed simple.no_oneof k lt

      stored_size :
          (pb_htype (field_at fields k).type ≡ htype_required)
          ⊎ (((pb_htype (field_at fields k).type ≡ htype_optional)
                ⊎ (pb_htype (field_at fields k).type ≡ htype_oneof))
              × ((field_at fields k).size_offset ≢ 0))
      stored_size = elim f.singular [ inl r ↦ inl r | inr o ↦ inr (inl o.0, o.1) ]

  there : current (walk fields dest k) ≡ field_at fields k
  there = walk-current fields dest simple.closed simple.no_oneof k lt

  abbrev ReadyValue : Mem → Type 0
  ReadyValue m' =
      pb_ltype (field_at fields k).type ≡ ltype_submessage
      → Ready (env.table (field_at fields k).ptr) (walk fields dest k).p_data m'

  abbrev SameValue : Mem → Type 0
  SameValue =
      SameItem Same env.table m (field_at fields k) (walk fields src k).p_data
        (walk fields dest k).p_data

  -- A field that has been stored is there.
  stored-present :
      (after : Mem)
      → (pb_htype (field_at fields k).type ≡ htype_optional → after (walk fields dest k).p_size ≡ 1)
      → is_present after (field_at fields k) (walk fields dest k).p_data ≡ true
  stored-present after set = elim f.singular [
    | inl r ↦ present-required after (field_at fields k) (walk fields dest k).p_data r
    | inr o ↦ present-byte after (field_at fields k) (walk fields dest k).p_data false o.0 (
        ap (λ (q : ℕ). after q == 0)
          (sym (walk-p_size fields dest simple.closed simple.no_oneof k lt))
        ∙ ground (arith, set o.0))
  ]

  entry-Takes :
      (depth : ℕ)
      → is_present m (field_at fields k) (walk fields src k).p_data ≡ true
      → Takes
          (decode_field depth denv noinit (wire_type (field_at fields k)) (walk fields dest k))
          (item_bytes bytes env.table m (field_at fields k) (walk fields src k).p_data)
          (first_byte (walk fields dest k))
          (end_byte (walk fields dest k))
          (ReadyAt env.table fields dest Ready k)
          (SameAt env.table fields dest Same m src k)
  entry-Takes depth is m' ready rest n e =
      let t =
        decode_field-Takes depth denv noinit (wire_type (field_at fields k)) (walk fields dest k)
          (item_bytes bytes env.table m (field_at fields k) (walk fields src k).p_data)
          (rw there (ground (arith, f.known))) {Ready = ReadyValue} {Same = SameValue}
          (rw there f.static)
          (elim f.singular [ inl r ↦ inl (rw there r) | inr o ↦ inr (rw there o.0, o.2) ])
          (rw there (
            ItemReady-Local mem env denv tables Good bytes Ready Same sub noinit nested
              (field_at fields k) (walk fields src k).p_data (walk fields dest k) f))
          (rw there (
            item-Takes mem env denv tables Good bytes Ready Same sub noinit nested
              (field_at fields k) (walk fields src k).p_data (walk fields dest k) f depth))
          m' ready.1 rest n e in
      record {
        after = t.after;
        runs = t.runs;
        kept = t.kept;
        same = (stored-present t.after (λ o. t.same.0 (rw there o)) ∙ sym is, λ _. t.same.1);
      }

  -- A field that is not there stays cleared.
  absent-Same :
      is_present m (field_at fields k) (walk fields src k).p_data ≡ false
      → (pb_htype (field_at fields k).type ≢ htype_required)
        × ((m' : Mem)
            → ReadyAt env.table fields dest Ready k m'
            → SameAt env.table fields dest Same m src k m')
  absent-Same not_there = elim f.singular [
    | inl r ↦ absurd (
        ground
          (arith, present-required m (field_at fields k) (walk fields src k).p_data r, not_there))
    | inr o ↦ (
      (λ r. absurd (omega (arith, r, o.0))),
      λ m' ready. (
        present-byte m' (field_at fields k) (walk fields dest k).p_data true o.0 (
              ap (λ (q : ℕ). m' q == 0)
                (sym (walk-p_size fields dest simple.closed simple.no_oneof k lt))
              ∙ ground (arith, ready.0 o.0))
            ∙ sym not_there,
        λ is. absurd (ground (arith, is, not_there)),
      ),
    )
  ]

  pub entry-Chunk :
      (depth : ℕ)
      → Chunk fields dest simple depth denv noinit
          (λ i. first_byte (walk fields dest i))
          (λ i. end_byte (walk fields dest i))
          (ReadyAt env.table fields dest Ready)
          (SameAt env.table fields dest Same m src)
          k
          entry_bytes
  entry-Chunk depth =
      elim (Bool-cases (is_present m (field_at fields k) (walk fields src k).p_data)) [
        | inl t ↦ rw t (present (wire_type (field_at fields k)) _ tag (entry-Takes depth t))
        | inr t ↦ rw t (absent (absent-Same t).0 (absent-Same t).1)
      ]
