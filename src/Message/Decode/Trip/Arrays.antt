-- ===== src/Message/Decode/Trip/Arrays.antt =====
-- The decoders for bytes arrays and for bytes of a fixed length, on what their encoders write.
use ios_college_work.Common.{
  ℕ, ◌+◌, ◌^◌, ◌≤◌, ◌<◌, ◌≡◌, ◌≢◌, refl, sym, ap, ◌∙◌, inl, inr, Bool-cases, ◌==◌, Option, List,
  ◌++◌, length, length-append, arith, ok, le→ltb,
}
use mathlib.Core.List.{append_assoc}
use ios_college_work.Stream.Errors.{Error}
use ios_college_work.Stream.Input.{IStream}
use ios_college_work.Stream.Buffers.{input}
use ios_college_work.Stream.Writes.{Writes, Writes-eq}
use ios_college_work.Wire.Encode.{pb_encode_string}
use ios_college_work.Wire.Varint.{varint}
use ios_college_work.Wire.Scalars.Varint.{pb_decode_varint32-Reads}
use ios_college_work.Message.Memory.{Mem, bytes_at}
use ios_college_work.Message.Field.{
  Field, pb_ltype, pb_atype, ltype_bytes, ltype_fixed_length_bytes, atype_static, pb_size_max,
}
use ios_college_work.Message.Encode.Env.{Env, Submessage}
use ios_college_work.Message.Encode.Items.{pb_enc_bytes, pb_enc_fixed_length_bytes, pb_encoder}
use ios_college_work.Message.Encode.Contract.Items.{IsMem, load-lt, length-bytes_at}
use ios_college_work.Message.Decode.Machine.{
  machine, on_memory, on_stream, store, store_bytes, store-outside, store_bytes-outside, write,
  write_bytes, bytes_at-store_bytes,
}
use ios_college_work.Message.Decode.Env.{DecodeEnv, Nested}
use ios_college_work.Message.Decode.Items.{
  read_bytes, pb_dec_bytes, read_fixed_length, pb_dec_fixed_length_bytes,
}
use ios_college_work.Message.Decode.Nest.{pb_decoder}
use ios_college_work.Message.Decode.Bytes.{
  array_size_at, array_at, array_bytes, copied, copied-array_at, string-Writes, read-sized,
}
use ios_college_work.Message.Decode.Trip.Takes.{Kept, Takes, Takes-eq}

-- A length in front of the bytes that it counts, with more behind them.
pub counted-input :
    (size n : ℕ) (bs rest : List ℕ) (e : Option Error)
    → length bs ≡ size
    → input ((varint size ++ bs) ++ rest) (length (varint size ++ bs) + n) e
      ≡ input (varint size ++ (bs ++ rest)) (length (varint size) + (size + n)) e
counted-input size n bs rest e len =
    let count : length (varint size ++ bs) + n ≡ length (varint size) + (size + n) =
      omega (arith, length-append (varint size) bs, len) in
    rw (append_assoc (varint size) bs rest, count) refl

-- Of no bytes at all.
nothing :
    (m m' : Mem) (src dest size n : ℕ) (rest : List ℕ)
    → size ≡ 0
    → (store m' dest size 0 ≡ store_bytes m' dest (bytes_at m src size))
      × (bytes_at m src size ++ rest ≡ rest)
      × (size + n ≡ n)
nothing m m' src dest size n rest e = rw e (refl, refl, omega arith)

module _ {m : Mem} (mem : IsMem m) (field : Field) (src dest : ℕ) where
  -- The array and its size.
  abbrev pub HasArray : Mem → Type 0
  HasArray m' = (array_size_at m' dest ≡ array_size_at m src) × (array_at m' dest ≡ array_at m src)

  copied-kept :
      (m' : Mem)
      → array_size_at m src + 4 ≤ field.data_size
      → Kept dest (dest + field.data_size) m' (copied m src m' dest)
  copied-kept m' holds q out =
      let len = length-bytes_at m (src + 4) (array_size_at m src) in
      store_bytes-outside (store m' dest 4 (array_size_at m src)) (dest + 4) (array_at m src) q
        (ground (arith, out, holds, len))
      ∙ store-outside m' dest 4 (array_size_at m src) q (ground (arith, out, holds))

  pub array-Takes :
      (depth : ℕ) (env : DecodeEnv) (noinit : Nested)
      → pb_ltype field.type ≡ ltype_bytes
      → pb_atype field.type ≡ atype_static
      → array_size_at m src + 4 ≤ field.data_size
      → Takes
          (pb_decoder depth env noinit field dest)
          (array_bytes m src)
          dest
          (dest + field.data_size)
          (λ _. Unit {0})
          HasArray
  array-Takes depth env noinit kind static holds =
      Takes-eq {c = pb_dec_bytes field dest} (λ s. unfold pb_decoder in rw kind refl)
        λ m' ready rest n e. record {
          after = copied m src m' dest;
          runs = run m' rest n e;
          kept = copied-kept m' holds;
          same = copied-array_at m src m' dest mem;
        }
    where
      run :
          (m' : Mem) (rest : List ℕ) (n : ℕ) (e : Option Error)
          → pb_dec_bytes field dest
              (machine (input (array_bytes m src ++ rest) (length (array_bytes m src) + n) e) m')
            ≡ ok tt (machine (input rest n e) (copied m src m' dest))
      run m' rest n e =
          let size = array_size_at m src in
          let len = length-bytes_at m (src + 4) size in
          let small : size < 2 ^ 32 = load-lt mem src 4 in
          ap (λ (s : IStream). pb_dec_bytes field dest (machine s m'))
            (counted-input size n (array_at m src) rest e len)
          ∙ (unfold pb_dec_bytes read_bytes on_stream on_memory write write_bytes in
              rw (pb_decode_varint32-Reads size small (array_at m src ++ rest) (size + n) e) (
                ground
                  (arith, read-sized (array_at m src) rest size n e len, static, holds, small)))

  pub fixed_length-Takes :
      (depth : ℕ) (env : DecodeEnv) (noinit : Nested)
      → pb_ltype field.type ≡ ltype_fixed_length_bytes
      → field.data_size < 2 ^ 32
      → Takes
          (pb_decoder depth env noinit field dest)
          (varint field.data_size ++ bytes_at m src field.data_size)
          dest
          (dest + field.data_size)
          (λ _. Unit {0})
          (λ m'. bytes_at m' dest field.data_size ≡ bytes_at m src field.data_size)
  fixed_length-Takes depth env noinit kind small =
      Takes-eq {c = pb_dec_fixed_length_bytes field dest} (λ s. unfold pb_decoder in rw kind refl)
        λ m' ready rest n e. record {
          after = store_bytes m' dest (bytes_at m src field.data_size);
          runs = run m' rest n e;
          kept = λ q out.
              store_bytes-outside m' dest (bytes_at m src field.data_size) q
                (ground (arith, out, len));
          same =
              ap (λ (k : ℕ). bytes_at (store_bytes m' dest (bytes_at m src field.data_size)) dest k)
                (sym len)
              ∙ bytes_at-store_bytes m' dest (bytes_at m src field.data_size);
        }
    where
      len : length (bytes_at m src field.data_size) ≡ field.data_size
      len = length-bytes_at m src field.data_size

      run :
          (m' : Mem) (rest : List ℕ) (n : ℕ) (e : Option Error)
          → pb_dec_fixed_length_bytes field dest (
              machine
                (input
                  ((varint field.data_size ++ bytes_at m src field.data_size) ++ rest)
                  (length (varint field.data_size ++ bytes_at m src field.data_size) + n)
                  e)
                m')
            ≡ ok tt
                (machine (input rest n e) (store_bytes m' dest (bytes_at m src field.data_size)))
      run m' rest n e =
          let size = field.data_size in
          let bytes = bytes_at m src size in
          ap (λ (s : IStream). pb_dec_fixed_length_bytes field dest (machine s m'))
            (counted-input size n bytes rest e len)
          ∙ (unfold pb_dec_fixed_length_bytes read_fixed_length on_stream on_memory write
                write_bytes in
              rw
                (
                  pb_decode_varint32-Reads size small (bytes ++ rest) (size + n) e,
                  le→ltb pb_size_max size (omega (arith, small)),
                )
                (elim (Bool-cases (size == 0)) [
                  | inl t ↦
                      let (left, behind, taken) =
                        nothing m m' src dest size n rest (ground (arith, t)) in
                      rw (t, behind, taken, left) refl
                  | inr t ↦ rw (t, read-sized bytes rest size n e len) (ground arith)
                ]))

  pub array-Writes :
      (env : Env) (sub : Submessage)
      → pb_ltype field.type ≡ ltype_bytes
      → src ≢ 0
      → array_size_at m src + 4 ≤ field.data_size
      → Writes (pb_encoder env sub m field src) (array_bytes m src)
  array-Writes env sub kind there holds =
      Writes-eq {c = pb_encode_string (array_at m src) (array_size_at m src)}
        (λ s.
          unfold pb_encoder pb_enc_bytes in
          rw kind (ground (arith, there, holds, load-lt mem src 4)))
        (string-Writes (array_at m src) (array_size_at m src)
          (length-bytes_at m (src + 4) (array_size_at m src)) (omega (arith, load-lt mem src 4)))

  pub fixed_length-Writes :
      (env : Env) (sub : Submessage)
      → pb_ltype field.type ≡ ltype_fixed_length_bytes
      → field.data_size < 2 ^ 32
      → Writes
          (pb_encoder env sub m field src)
          (varint field.data_size ++ bytes_at m src field.data_size)
  fixed_length-Writes env sub kind small =
      Writes-eq {c = pb_encode_string (bytes_at m src field.data_size) field.data_size}
        (λ s. unfold pb_encoder pb_enc_fixed_length_bytes in rw kind refl)
        (string-Writes (bytes_at m src field.data_size) field.data_size
          (length-bytes_at m src field.data_size) (omega (arith, small)))
