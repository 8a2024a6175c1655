-- ===== src/Message/Encode/Contract/Singular.antt =====
-- What `encode_field` writes for a static field that is not an array, in terms of what its encoder writes.
use ios_college_work.Common.{
  ℕ, ◌≡◌, ◌≢◌, refl, ◌⊎◌, Bool, true, false, ◌==◌, not, ltb, if◌then◌else◌, some, List, [], ◌++◌,
  arith, Cmd, ok, ◌>>◌,
}
use ios_college_work.Stream.Output.{OStream}
use ios_college_work.Stream.Writes.{Writes, Writes-eq, Writes-then, Writes-nothing}
use ios_college_work.Wire.Encode.{pb_encode_tag}
use ios_college_work.Wire.Fields.Tag.{IsTag, tag_bytes, pb_encode_tag-Writes}
use ios_college_work.Message.Memory.{Mem, load, displace, all_zero}
use ios_college_work.Message.Field.{
  Field, pb_ltype, pb_htype, pb_atype, ltype_fixed_length_bytes, ltype_bytes, ltype_string,
  htype_required, htype_optional, htype_oneof, atype_static,
}
use ios_college_work.Message.Encode.Env.{Env, Submessage}
use ios_college_work.Message.Encode.Items.{
  encode_typed_tag, wire_type_of, pb_encode_tag_for_field, pb_encoder,
}
use ios_college_work.Message.Encode.Fields.{
  encode_present, encode_by_htype, size_ptr, read_has, read_size, tag_and_item, with_size,
  encode_basic_field, encode_field,
}

-- Whether a field at `p` is there: a required field always, an optional one by its `has_` byte, and one of
-- a oneof by the `which_` word.
abbrev pub is_present : Mem → Field → (p : ℕ) → Bool
is_present m field p =
    if pb_htype field.type == htype_required
    then true
    else if pb_htype field.type == htype_optional
    then (if m (displace p field.size_offset) == 0 then false else true)
    else load m (displace p field.size_offset) 4 == field.tag

-- A field that is there is its tag and its value; one that is not leaves nothing.
abbrev pub singular_bytes : Mem → Field → (p wiretype : ℕ) → List ℕ → List ℕ
singular_bytes m field p wiretype bs =
    if is_present m field p then tag_bytes wiretype field.tag ++ bs else []

-- Whether a field at `p` differs from the default value of its type.
abbrev pub has_value : Mem → Field → (p : ℕ) → Bool
has_value m field p =
    if pb_ltype field.type == ltype_bytes
    then not (load m p 4 == 0)
    else if pb_ltype field.type == ltype_string
    then not (m p == 0)
    else if pb_ltype field.type == ltype_fixed_length_bytes
    then not (field.data_size == 0)
    else not (all_zero m p field.data_size)

-- A type with a wire type is in PB_ENCODERS.
pub known-typed :
    (ltype w : ℕ) → wire_type_of ltype ≡ some w → ltb ltype_fixed_length_bytes ltype ≡ false
unfolding wire_type_of
known-typed ltype w e = ground (arith, e)

module _ (env : Env) (sub : Submessage) (m : Mem) (field : Field) (p w : ℕ) (bs : List ℕ) where
  tagged-Writes :
      wire_type_of (pb_ltype field.type) ≡ some w
      → IsTag w field.tag
      → Writes (pb_encoder env sub m field p) bs
      → Writes (tag_and_item field (pb_encoder env sub m field p)) (tag_bytes w field.tag ++ bs)
  tagged-Writes e t item = Writes-eq same (Writes-then (pb_encode_tag-Writes w field.tag t) item)
    where
      same :
          (s : OStream)
          → tag_and_item field (pb_encoder env sub m field p) s
            ≡ (pb_encode_tag w field.tag >> pb_encoder env sub m field p) s
      same s = unfold tag_and_item pb_encode_tag_for_field encode_typed_tag in rw e refl

  picked-Writes :
      {c d : Cmd OStream (Unit {0})} {cs : List ℕ} (t : Bool)
      → ((s : OStream) → d s ≡ (if t then c s else ok tt s))
      → Writes c cs
      → Writes d (if t then cs else [])
  picked-Writes true same v = Writes-eq same v
  picked-Writes false same v = Writes-eq same Writes-nothing

  -- A static field that is required, or optional or in a oneof with its presence stored, is written by
  -- `encode_field` as its tag and what its encoder writes if it is there, and as nothing if not.
  pub encode_field-singular :
      (depth : ℕ)
      → pb_atype field.type ≡ atype_static
      → (pb_htype field.type ≡ htype_required)
        ⊎ (((pb_htype field.type ≡ htype_optional) ⊎ (pb_htype field.type ≡ htype_oneof))
            × (field.size_offset ≢ 0))
      → p ≢ 0
      → wire_type_of (pb_ltype field.type) ≡ some w
      → IsTag w field.tag
      → Writes (pb_encoder env sub m field p) bs
      → Writes (encode_field depth env sub m field p) (singular_bytes m field p w bs)
  encode_field-singular depth static plain there e t item =
      picked-Writes (is_present m field p) same (tagged-Writes e t item)
    where
      same :
          (s : OStream)
          → encode_field depth env sub m field p s ≡ (
              if is_present m field p
              then tag_and_item field (pb_encoder env sub m field p) s
              else ok tt s)
      same s =
          unfold encode_field encode_basic_field encode_present encode_by_htype size_ptr read_has
            read_size with_size in
          rw (known-typed (pb_ltype field.type) w e) (ground (arith, plain))
