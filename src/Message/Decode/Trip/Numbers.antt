-- ===== src/Message/Decode/Trip/Numbers.antt =====
-- The decoders for numbers, on what their encoders write.
use ios_college_work.Common.{
  ℕ, ◌+◌, ◌^◌, ◌≤◌, ◌<◌, ◌≡◌, refl, ◌⊎◌, inl, inr, true, ◌==◌, if◌then◌else◌, List, [], length,
  arith,
}
use ios_college_work.Stream.Writes.{HasRoom, Writes, Writes-eq}
use ios_college_work.Wire.Varint.{varint, length-groups}
use ios_college_work.Wire.Encode.{
  pb_encode_varint, pb_encode_svarint, pb_encode_fixed32, pb_encode_fixed64, zigzagged,
  fixed32_bytes, fixed64_bytes,
}
use ios_college_work.Wire.Scalars.Varint.{pb_encode_varint-Writes}
use ios_college_work.Wire.Scalars.Zigzag.{pb_encode_svarint-Writes}
use ios_college_work.Wire.Scalars.Fixed.{pb_encode_fixed32-Writes, pb_encode_fixed64-Writes}
use ios_college_work.Message.Memory.{Mem, load}
use ios_college_work.Message.Field.{
  Field, pb_ltype, ltype_varint, ltype_uvarint, ltype_svarint, ltype_fixed32, ltype_fixed64,
  ltype_last_packable,
}
use ios_college_work.Message.Encode.Env.{Env, Submessage}
use ios_college_work.Message.Encode.Items.{
  is_word_size, pb_enc_varint, pb_enc_uvarint, pb_enc_svarint, pb_enc_fixed32, pb_enc_fixed64,
  pb_encoder,
}
use ios_college_work.Message.Encode.Contract.Items.{IsMem, load-lt}
use ios_college_work.Message.Decode.Machine.{store, store-outside}
use ios_college_work.Message.Decode.Env.{DecodeEnv, Nested}
use ios_college_work.Message.Decode.Items.{
  pb_dec_varint, pb_dec_uvarint, pb_dec_svarint, pb_dec_fixed32, pb_dec_fixed64,
}
use ios_college_work.Message.Decode.Nest.{pb_decoder}
use ios_college_work.Message.Decode.RoundTrip.{
  IsSigned, IsSigned-word, unsigned_word, signed_at, uvarint_item-roundtrip, varint_item-roundtrip,
  svarint_item-roundtrip,
}
use ios_college_work.Message.Decode.Fixed.{fixed32_item-roundtrip, fixed64_item-roundtrip}
use ios_college_work.Message.Decode.Trip.Takes.{Takes, Takes-eq}

-- The bytes of a number in the format of the wire, by its LTYPE.
abbrev pub number_bytes : Mem → Field → (p : ℕ) → List ℕ
number_bytes m field p =
    let ltype = pb_ltype field.type in
    if ltype == ltype_varint
    then varint (signed_at m field p)
    else if ltype == ltype_uvarint
    then varint (load m p field.data_size)
    else if ltype == ltype_svarint
    then varint (zigzagged (signed_at m field p))
    else if ltype == ltype_fixed32
    then fixed32_bytes (load m p 4)
    else fixed64_bytes (load m p 8)

number-cases :
    (l : ℕ)
    → l ≤ ltype_last_packable
    → (l ≡ ltype_varint)
      ⊎ (l ≡ ltype_uvarint)
      ⊎ (l ≡ ltype_svarint)
      ⊎ (l ≡ ltype_fixed32)
      ⊎ (l ≡ ltype_fixed64)
number-cases l h = ground (arith, h)

-- A buffer that just holds the bytes.
exact : (n : ℕ) → n < 2 ^ 64 → HasRoom n n 0
exact n h = record { within = omega arith; holds = omega arith; bound = h }

short : (v : ℕ) → length (varint v) < 2 ^ 64
short v = omega (arith, length-groups 9 v)

-- The size that the C type of a number has.
pub record IsNumber (field : Field) : Type 0 where
  pub known : pb_ltype field.type ≤ ltype_last_packable
  pub word : pb_ltype field.type ≤ ltype_svarint → is_word_size field.data_size ≡ true
  pub four : pb_ltype field.type ≡ ltype_fixed32 → field.data_size ≡ 4
  pub eight : pb_ltype field.type ≡ ltype_fixed64 → field.data_size ≡ 8

module _ {m : Mem} (mem : IsMem m) (field : Field) (src dest : ℕ) where
  abbrev IsCopied : Mem → Type 0
  IsCopied m' = load m' dest field.data_size ≡ load m src field.data_size

  varint-Takes :
      is_word_size field.data_size ≡ true
      → Takes
          (pb_dec_varint field dest)
          (varint (signed_at m field src))
          dest
          (dest + field.data_size)
          (λ _. Unit {0})
          IsCopied
  varint-Takes w m' ready rest n e =
      let l = length (varint (signed_at m field src)) in
      let t =
        varint_item-roundtrip [] l l 0 (exact l (short (signed_at m field src))) mem m' rest n e
          field src dest w (omega arith) in
      record {
        after = store m' dest field.data_size (signed_at m field src);
        runs = t.1;
        kept = λ q out. store-outside m' dest field.data_size (signed_at m field src) q out;
        same = t.2;
      }

  uvarint-Takes :
      is_word_size field.data_size ≡ true
      → Takes
          (pb_dec_uvarint field dest)
          (varint (load m src field.data_size))
          dest
          (dest + field.data_size)
          (λ _. Unit {0})
          IsCopied
  uvarint-Takes w m' ready rest n e =
      let v = load m src field.data_size in
      let l = length (varint v) in
      let t =
        uvarint_item-roundtrip [] l l 0 (exact l (short v)) mem m' rest n e field src dest w
          (omega arith) in
      record {
        after = store m' dest field.data_size v;
        runs = t.1;
        kept = λ q out. store-outside m' dest field.data_size v q out;
        same = t.2;
      }

  svarint-Takes :
      is_word_size field.data_size ≡ true
      → Takes
          (pb_dec_svarint field dest)
          (varint (zigzagged (signed_at m field src)))
          dest
          (dest + field.data_size)
          (λ _. Unit {0})
          IsCopied
  svarint-Takes w m' ready rest n e =
      let v = zigzagged (signed_at m field src) in
      let l = length (varint v) in
      let t =
        svarint_item-roundtrip [] l l 0 (exact l (short v)) mem m' rest n e field src dest w
          (omega arith) in
      record {
        after = store m' dest field.data_size (signed_at m field src);
        runs = t.1;
        kept = λ q out. store-outside m' dest field.data_size (signed_at m field src) q out;
        same = t.2;
      }

  fixed32-Takes :
      field.data_size ≡ 4
      → Takes
          (pb_dec_fixed32 field dest)
          (fixed32_bytes (load m src 4))
          dest
          (dest + field.data_size)
          (λ _. Unit {0})
          IsCopied
  unfolding fixed32_bytes
  fixed32-Takes four m' ready rest n e =
      let t =
        fixed32_item-roundtrip [] 4 4 0 (exact 4 (omega arith)) mem m' rest n e field src dest
          (omega arith) in
      record {
        after = store m' dest 4 (load m src 4);
        runs = t.1;
        kept = rw four (λ q out. store-outside m' dest 4 (load m src 4) q out);
        same = rw four t.2;
      }

  fixed64-Takes :
      field.data_size ≡ 8
      → Takes
          (pb_dec_fixed64 field dest)
          (fixed64_bytes (load m src 8))
          dest
          (dest + field.data_size)
          (λ _. Unit {0})
          IsCopied
  unfolding fixed64_bytes
  fixed64-Takes eight m' ready rest n e =
      let t =
        fixed64_item-roundtrip [] 8 8 0 (exact 8 (omega arith)) mem m' rest n e field src dest
          (omega arith) in
      record {
        after = store m' dest 8 (load m src 8);
        runs = t.1;
        kept = rw eight (λ q out. store-outside m' dest 8 (load m src 8) q out);
        same = rw eight t.2;
      }

  -- The decoder in PB_DECODERS.
  pub number-Takes :
      (depth : ℕ) (env : DecodeEnv) (noinit : Nested)
      → IsNumber field
      → Takes
          (pb_decoder depth env noinit field dest)
          (number_bytes m field src)
          dest
          (dest + field.data_size)
          (λ _. Unit {0})
          IsCopied
  number-Takes depth env noinit is = elim (number-cases (pb_ltype field.type) is.known) [
    | inl e ↦ rw e (
        Takes-eq {c = pb_dec_varint field dest} (λ s. unfold pb_decoder in rw e refl)
          (varint-Takes (is.word (omega (arith, e)))))
    | inr (inl e) ↦ rw e (
        Takes-eq {c = pb_dec_uvarint field dest} (λ s. unfold pb_decoder in rw e refl)
          (uvarint-Takes (is.word (omega (arith, e)))))
    | inr (inr (inl e)) ↦ rw e (
        Takes-eq {c = pb_dec_svarint field dest} (λ s. unfold pb_decoder in rw e refl)
          (svarint-Takes (is.word (omega (arith, e)))))
    | inr (inr (inr (inl e))) ↦ rw e (
        Takes-eq {c = pb_dec_fixed32 field dest} (λ s. unfold pb_decoder in rw e refl)
          (fixed32-Takes (is.four e)))
    | inr (inr (inr (inr e))) ↦ rw e (
        Takes-eq {c = pb_dec_fixed64 field dest} (λ s. unfold pb_decoder in rw e refl)
          (fixed64-Takes (is.eight e)))
  ]

-- The encoder in PB_ENCODERS.
module _ {m : Mem} (mem : IsMem m) (field : Field) (src : ℕ) where
  pub number-Writes :
      (env : Env) (sub : Submessage)
      → IsNumber field
      → Writes (pb_encoder env sub m field src) (number_bytes m field src)
  number-Writes env sub is = elim (number-cases (pb_ltype field.type) is.known) [
    | inl e ↦
        let w = is.word (omega (arith, e)) in
        rw e (
          Writes-eq {c = pb_encode_varint (signed_at m field src)}
            (λ s. unfold pb_encoder pb_enc_varint in rw (e, w) refl)
            (pb_encode_varint-Writes (signed_at m field src) (signed w).small))
    | inr (inl e) ↦
        let w = is.word (omega (arith, e)) in
        rw e (
          Writes-eq {c = pb_encode_varint (load m src field.data_size)}
            (λ s. unfold pb_encoder pb_enc_uvarint in rw (e, w) refl)
            (pb_encode_varint-Writes (load m src field.data_size)
              (unsigned_word (load m src field.data_size) field.data_size w small).0))
    | inr (inr (inl e)) ↦
        let w = is.word (omega (arith, e)) in
        rw e (
          Writes-eq {c = pb_encode_svarint (signed_at m field src)}
            (λ s. unfold pb_encoder pb_enc_svarint in rw (e, w) refl)
            (pb_encode_svarint-Writes (signed_at m field src) (signed w).small))
    | inr (inr (inr (inl e))) ↦ rw e (
        Writes-eq {c = pb_encode_fixed32 (load m src 4)}
          (λ s. unfold pb_encoder pb_enc_fixed32 in rw e refl)
          (pb_encode_fixed32-Writes (load m src 4)))
    | inr (inr (inr (inr e))) ↦ rw e (
        Writes-eq {c = pb_encode_fixed64 (load m src 8)}
          (λ s. unfold pb_encoder pb_enc_fixed64 in rw e refl)
          (pb_encode_fixed64-Writes (load m src 8)))
  ]
    where
      small : load m src field.data_size < 256 ^ field.data_size
      small = load-lt mem src field.data_size

      signed :
          (w : is_word_size field.data_size ≡ true)
          → IsSigned field.data_size (load m src field.data_size) (signed_at m field src)
      signed w = IsSigned-word (load m src field.data_size) field.data_size w small
