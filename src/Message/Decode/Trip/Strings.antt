-- ===== src/Message/Decode/Trip/Strings.antt =====
-- The decoder for strings, on what the encoder writes.
use ios_college_work.Common.{
  ℕ, zero, suc, ◌+◌, ◌%◌, ◌^◌, ◌<◌, ◌≡◌, ◌≢◌, refl, sym, ap, ◌∙◌, inl, inr, Bool-cases, true, false,
  ◌==◌, Option, List, [], ◌∷◌, ◌++◌, length, arith, ok,
}
use mathlib.Core.Path.{subst}
use ios_college_work.Stream.Errors.{Error}
use ios_college_work.Stream.Input.{IStream}
use ios_college_work.Stream.Buffers.{input}
use ios_college_work.Stream.Writes.{Writes, Writes-eq}
use ios_college_work.Wire.Encode.{pb_encode_string}
use ios_college_work.Wire.Varint.{varint}
use ios_college_work.Wire.Scalars.Varint.{pb_decode_varint32-Reads}
use ios_college_work.Message.Memory.{Mem, bytes_at}
use ios_college_work.Message.Field.{Field, pb_ltype, pb_atype, ltype_string, atype_static}
use ios_college_work.Message.Encode.Env.{Env, Submessage}
use ios_college_work.Message.Encode.Items.{string_size, pb_enc_string, pb_encoder}
use ios_college_work.Message.Encode.Contract.Items.{length-bytes_at}
use ios_college_work.Message.Decode.Machine.{
  machine, on_memory, on_stream, store_bytes, store_bytes-outside, write_bytes,
  bytes_at-store_bytes,
}
use ios_college_work.Message.Decode.Env.{DecodeEnv, Nested}
use ios_college_work.Message.Decode.Items.{terminate, read_string, pb_dec_string}
use ios_college_work.Message.Decode.Nest.{pb_decoder}
use ios_college_work.Message.Decode.Bytes.{string-Writes, read-sized}
use ios_college_work.Message.Decode.Trip.Takes.{Agree, Kept, Takes, Takes-eq, bytes_at-Agree}
use ios_college_work.Message.Decode.Trip.Arrays.{counted-input}

-- The bytes of a string in front of its terminator.
abbrev pub string_at : Mem → (max_size p : ℕ) → List ℕ
string_at m max_size p = bytes_at m p (string_size m max_size p)

size-stop : (m : Mem) (max_size p : ℕ) → (m p == 0) ≡ true → string_size m (suc max_size) p ≡ 0
unfolding string_size
size-stop m max_size p t = rw (string_size, t) refl

size-more :
    (m : Mem) (max_size p : ℕ)
    → (m p == 0) ≡ false
    → string_size m (suc max_size) p ≡ suc (string_size m max_size (p + 1))
unfolding string_size
size-more m max_size p t = rw (string_size, t) refl

pub string_size-Agree :
    (m m' : Mem) (max_size p : ℕ)
    → Agree p (p + max_size) m m'
    → string_size m' max_size p ≡ string_size m max_size p
unfolding string_size
string_size-Agree m m' zero p same = refl
string_size-Agree m m' (suc max_size) p same =
    let here = same p (omega arith) (omega arith) in
    elim (Bool-cases (m p == 0)) [
      | inl t ↦ size-stop m' max_size p (ground (arith, t, here)) ∙ sym (size-stop m max_size p t)
      | inr t ↦
          size-more m' max_size p (ground (arith, t, here))
          ∙ ap (λ (k : ℕ). suc k)
              (string_size-Agree m m' max_size (p + 1)
                (λ q le lt. same q (omega (arith, le)) (omega (arith, lt))))
          ∙ sym (size-more m max_size p t)
    ]

head_of : List ℕ → ℕ
head_of [] = 0
head_of (b ∷ bs) = b

tail_of : List ℕ → List ℕ
tail_of [] = []
tail_of (b ∷ bs) = bs

-- The same bytes with a terminator behind them are a string of the same size.
copied-string_size :
    (m m' : Mem) (max_size p dest : ℕ)
    → string_size m max_size p < max_size
    → bytes_at m' dest (string_size m max_size p) ≡ string_at m max_size p
    → m' (dest + string_size m max_size p) ≡ 0
    → string_size m' max_size dest ≡ string_size m max_size p
unfolding head_of tail_of string_size
copied-string_size m m' zero p dest lt same end = refl
copied-string_size m m' (suc max_size) p dest lt same end = elim (Bool-cases (m p == 0)) [
  | inl t ↦
      let stop = size-stop m max_size p t in
      let last : m' dest ≡ 0 = ap (λ (q : ℕ). m' q) (omega (arith, stop)) ∙ end in
      size-stop m' max_size dest (ground (arith, last)) ∙ sym stop
  | inr t ↦
      let more = size-more m max_size p t in
      let r = string_size m max_size (p + 1) in
      let same' : bytes_at m' dest (suc r) ≡ bytes_at m p (suc r) =
        subst (λ (k : ℕ). bytes_at m' dest k ≡ bytes_at m p k) more same in
      let here : m' dest ≡ m p = ap head_of same' in
      let behind : bytes_at m' (dest + 1) r ≡ bytes_at m (p + 1) r = ap tail_of same' in
      let last : m' (dest + 1 + r) ≡ 0 = ap (λ (q : ℕ). m' q) (omega (arith, more)) ∙ end in
      size-more m' max_size dest (ground (arith, t, here))
      ∙ ap (λ (k : ℕ). suc k)
          (copied-string_size m m' max_size (p + 1) (dest + 1) (omega (arith, lt, more)) behind
            last)
      ∙ sym more
]

module _ (m : Mem) (field : Field) (src dest : ℕ) where
  -- The same string, in a field of the same size.
  abbrev pub HasString : Mem → Type 0
  HasString m' =
      (string_size m' field.data_size dest ≡ string_size m field.data_size src)
      × (string_at m' field.data_size dest ≡ string_at m field.data_size src)

  -- Memory where the string has been stored, and its terminator.
  abbrev stored : Mem → Mem
  stored m' =
      store_bytes (store_bytes m' dest (string_at m field.data_size src))
        (dest + string_size m field.data_size src) (0 ∷ [])

  stored-kept :
      (m' : Mem)
      → string_size m field.data_size src < field.data_size
      → Kept dest (dest + field.data_size) m' (stored m')
  stored-kept m' holds q out =
      store_bytes-outside (store_bytes m' dest (string_at m field.data_size src))
        (dest + string_size m field.data_size src) (0 ∷ []) q (ground (arith, out, holds))
      ∙ store_bytes-outside m' dest (string_at m field.data_size src) q
          (ground (arith, out, holds, length-bytes_at m src (string_size m field.data_size src)))

  stored-HasString :
      (m' : Mem) → string_size m field.data_size src < field.data_size → HasString (stored m')
  stored-HasString m' holds =
      let size = string_size m field.data_size src in
      let bs = string_at m field.data_size src in
      let len = length-bytes_at m src size in
      let same : bytes_at (stored m') dest size ≡ bs =
        bytes_at-Agree (store_bytes m' dest bs) (stored m') dest size (λ q le lt.
          store_bytes-outside (store_bytes m' dest bs) (dest + size) (0 ∷ []) q (inl lt))
        ∙ ap (λ (k : ℕ). bytes_at (store_bytes m' dest bs) dest k) (sym len)
        ∙ bytes_at-store_bytes m' dest bs in
      let sizes =
        copied-string_size m (stored m') field.data_size src dest holds same (ground arith) in
      (sizes, ap (λ (k : ℕ). bytes_at (stored m') dest k) sizes ∙ same)

  pub string-Takes :
      (depth : ℕ) (env : DecodeEnv) (noinit : Nested)
      → pb_ltype field.type ≡ ltype_string
      → pb_atype field.type ≡ atype_static
      → string_size m field.data_size src < field.data_size
      → field.data_size < 2 ^ 32
      → Takes
          (pb_decoder depth env noinit field dest)
          (varint (string_size m field.data_size src) ++ string_at m field.data_size src)
          dest
          (dest + field.data_size)
          (λ _. Unit {0})
          HasString
  string-Takes depth env noinit kind static holds small =
      Takes-eq {c = pb_dec_string field dest} (λ s. unfold pb_decoder in rw kind refl)
        λ m' ready rest n e. record {
          after = stored m';
          runs = run m' rest n e;
          kept = stored-kept m' holds;
          same = stored-HasString m' holds;
        }
    where
      run :
          (m' : Mem) (rest : List ℕ) (n : ℕ) (e : Option Error)
          → pb_dec_string field dest (
              machine
                (input
                  ((varint (string_size m field.data_size src) ++ string_at m field.data_size src)
                    ++ rest)
                  (length (
                      varint (string_size m field.data_size src) ++ string_at m field.data_size src)
                    + n)
                  e)
                m')
            ≡ ok tt (machine (input rest n e) (stored m'))
      run m' rest n e =
          let size = string_size m field.data_size src in
          let bs = string_at m field.data_size src in
          let len = length-bytes_at m src size in
          let fits : (size + 1) % 2 ^ 32 ≡ size + 1 = omega (arith, holds, small) in
          ap (λ (s : IStream). pb_dec_string field dest (machine s m'))
            (counted-input size n bs rest e len)
          ∙ (unfold pb_dec_string read_string terminate on_stream on_memory write_bytes in
              rw
                (
                  pb_decode_varint32-Reads size (omega (arith, holds, small)) (bs ++ rest)
                      (size + n) e,
                  fits,
                )
                (ground (arith, read-sized bs rest size n e len, static, holds, small)))

  pub string_field-Writes :
      (env : Env) (sub : Submessage)
      → pb_ltype field.type ≡ ltype_string
      → pb_atype field.type ≡ atype_static
      → src ≢ 0
      → string_size m field.data_size src < field.data_size
      → field.data_size < 2 ^ 32
      → Writes
          (pb_encoder env sub m field src)
          (varint (string_size m field.data_size src) ++ string_at m field.data_size src)
  string_field-Writes env sub kind static there holds small =
      Writes-eq
        {c = pb_encode_string (string_at m field.data_size src) (string_size m field.data_size src)}
        (λ s. unfold pb_encoder pb_enc_string in rw kind (ground (arith, static, there)))
        (string-Writes (string_at m field.data_size src) (string_size m field.data_size src)
          (length-bytes_at m src (string_size m field.data_size src)) (omega (arith, holds, small)))
