-- ===== src/Message/Decode/Bytes.antt =====
-- `pb_dec_bytes` on what `pb_enc_bytes` writes.
use ios_college_work.Common.{
  ℕ, ◌+◌, ◌-◌, ◌^◌, ◌≤◌, ◌<◌, ◌≡◌, ◌≢◌, sym, ap, ◌∙◌, Option, none, List, ◌++◌, length, arith, ok,
}
use mathlib.Core.Path.{subst}
use ios_college_work.Stream.Errors.{Error}
use ios_college_work.Stream.Input.{pb_read}
use ios_college_work.Stream.Buffers.{input, output, pb_read-input}
use ios_college_work.Stream.Writes.{HasRoom, Writes}
use ios_college_work.Wire.Encode.{pb_encode_string}
use ios_college_work.Wire.Varint.{varint}
use ios_college_work.Wire.Scalars.Varint.{pb_decode_varint32-Reads}
use ios_college_work.Wire.Fields.Skip.{pb_encode_string-Writes}
use ios_college_work.Message.Memory.{Mem, load, bytes_at}
use ios_college_work.Message.Field.{Field, pb_atype, atype_static}
use ios_college_work.Message.Encode.Items.{pb_enc_bytes}
use ios_college_work.Message.Encode.Contract.Items.{IsMem, load-lt, length-bytes_at}
use ios_college_work.Message.Decode.Machine.{
  machine, on_memory, on_stream, store, store_bytes, write, write_bytes, load-store,
  load-store_bytes, bytes_at-store_bytes,
}
use ios_college_work.Message.Decode.Items.{read_bytes, pb_dec_bytes}

-- The size of the bytes array at an address, the bytes behind it, and what both take on the wire.
abbrev pub array_size_at : Mem → ℕ → ℕ
array_size_at m src = load m src 4

abbrev pub array_at : Mem → ℕ → List ℕ
array_at m src = bytes_at m (src + 4) (array_size_at m src)

abbrev pub array_bytes : Mem → ℕ → List ℕ
array_bytes m src = varint (array_size_at m src) ++ array_at m src

-- Memory where the array at `src` of `m` has been stored at `dest`.
abbrev pub copied : (m : Mem) (src : ℕ) (m' : Mem) (dest : ℕ) → Mem
copied m src m' dest =
    store_bytes (store m' dest 4 (array_size_at m src)) (dest + 4) (array_at m src)

pub string-Writes :
    (bs : List ℕ) (size : ℕ)
    → length bs ≡ size
    → size < 2 ^ 64
    → Writes (pb_encode_string bs size) (varint size ++ bs)
string-Writes bs size e h =
    subst (λ (k : ℕ). Writes (pb_encode_string bs k) (varint k ++ bs)) e
      (pb_encode_string-Writes bs (omega (arith, e, h)))

pub read-sized :
    (bs rest : List ℕ) (size n : ℕ) (e : Option Error)
    → length bs ≡ size
    → pb_read size (input (bs ++ rest) (size + n) e) ≡ ok bs (input rest n e)
read-sized bs rest size n e h =
    subst (λ (k : ℕ). pb_read k (input (bs ++ rest) (k + n) e) ≡ ok bs (input rest n e)) h
      (pb_read-input bs rest n e)

pub copied-array_at :
    (m : Mem) (src : ℕ) (m' : Mem) (dest : ℕ)
    → IsMem m
    → (array_size_at (copied m src m' dest) dest ≡ array_size_at m src)
      × (array_at (copied m src m' dest) dest ≡ array_at m src)
copied-array_at m src m' dest mem =
    let size =
      load-store_bytes (store m' dest 4 (array_size_at m src)) dest 4 (dest + 4) (array_at m src)
        (omega arith)
      ∙ load-store m' dest 4 (array_size_at m src) (load-lt mem src 4) in
    let len = length-bytes_at m (src + 4) (array_size_at m src) in
    let back =
      bytes_at-store_bytes (store m' dest 4 (array_size_at m src)) (dest + 4) (array_at m src) in
    (size, ap (λ (k : ℕ). bytes_at (copied m src m' dest) (dest + 4) k) (size ∙ sym len) ∙ back)

module _ (xs : List ℕ) (room max_size written : ℕ) (h : HasRoom room max_size written) where
  -- For a static field whose `data_size` holds the bytes array at `src` and its size, what `pb_enc_bytes`
  -- appends on a memory buffer with room for it is its length and its bytes; `pb_dec_bytes` takes them, and
  -- stores at `dest` an array of the same size with the same bytes.
  pub bytes_item-roundtrip :
      {m : Mem} (mem : IsMem m) (m' : Mem) (rest : List ℕ) (n : ℕ) (e : Option Error)
      (field : Field) (src dest : ℕ)
      → pb_atype field.type ≡ atype_static
      → src ≢ 0
      → array_size_at m src + 4 ≤ field.data_size
      → written + length (array_bytes m src) ≤ max_size
      → (pb_enc_bytes m field src (output xs room max_size written none)
          ≡ ok tt (
              output
                (xs ++ array_bytes m src)
                (room - length (array_bytes m src))
                max_size
                (written + length (array_bytes m src))
                none))
        × (pb_dec_bytes field dest (
              machine
                (input
                  (varint (array_size_at m src) ++ (array_at m src ++ rest))
                  (length (varint (array_size_at m src)) + (array_size_at m src + n))
                  e)
                m')
            ≡ ok tt (machine (input rest n e) (copied m src m' dest)))
        × (array_size_at (copied m src m' dest) dest ≡ array_size_at m src)
        × (array_at (copied m src m' dest) dest ≡ array_at m src)
  unfolding pb_enc_bytes pb_dec_bytes read_bytes on_stream on_memory write write_bytes
  bytes_item-roundtrip {m} mem m' rest n e field src dest static there holds fits =
      let size = array_size_at m src in
      let small : size < 2 ^ 32 = load-lt mem src 4 in
      let len = length-bytes_at m (src + 4) size in
      let back = copied-array_at m src m' dest mem in
      let w =
        (string-Writes (array_at m src) size len (omega (arith, small))).stores xs room max_size
          written h fits in
      (
        ground (arith, w, there, static, holds, small),
        rw (pb_decode_varint32-Reads size small (array_at m src ++ rest) (size + n) e)
            (ground (arith, read-sized (array_at m src) rest size n e len, static, holds, small)),
        back.0,
        back.1,
      )
