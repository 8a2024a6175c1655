-- ===== src/Message/Decode/Fixed.antt =====
-- `pb_dec_fixed32` and `pb_dec_fixed64` on what `pb_enc_fixed32` and `pb_enc_fixed64` write.
use ios_college_work.Common.{ℕ, ◌+◌, ◌-◌, ◌≤◌, ◌≡◌, refl, Option, none, List, ◌++◌, length, ok}
use ios_college_work.Stream.Errors.{Error}
use ios_college_work.Stream.Buffers.{input, output}
use ios_college_work.Stream.Writes.{HasRoom}
use ios_college_work.Wire.Encode.{fixed32_bytes, fixed64_bytes}
use ios_college_work.Wire.Scalars.Fixed.{
  pb_encode_fixed32-Writes, pb_encode_fixed64-Writes, pb_decode_fixed32-Reads,
  pb_decode_fixed64-Reads,
}
use ios_college_work.Message.Memory.{Mem, load}
use ios_college_work.Message.Field.{Field}
use ios_college_work.Message.Encode.Items.{pb_enc_fixed32, pb_enc_fixed64}
use ios_college_work.Message.Encode.Contract.Items.{IsMem, load-lt}
use ios_college_work.Message.Decode.Machine.{
  machine, on_memory, on_stream, store, write, load-store,
}
use ios_college_work.Message.Decode.Items.{pb_dec_fixed32, pb_dec_fixed64}

module _ (xs : List ℕ) (room max_size written : ℕ) (h : HasRoom room max_size written) where
  module _ {m : Mem} (mem : IsMem m) (m' : Mem) (rest : List ℕ) (n : ℕ) (e : Option Error) where
    -- The 4 bytes that `pb_enc_fixed32` appends for the word at `src`, on a memory buffer with room for
    -- them, are what `pb_dec_fixed32` takes; it stores at `dest` a word that reads as the one at `src`.
    pub fixed32_item-roundtrip :
        (field : Field) (src dest : ℕ)
        → written + length (fixed32_bytes (load m src 4)) ≤ max_size
        → (pb_enc_fixed32 m field src (output xs room max_size written none)
            ≡ ok tt (
                output
                  (xs ++ fixed32_bytes (load m src 4))
                  (room - length (fixed32_bytes (load m src 4)))
                  max_size
                  (written + length (fixed32_bytes (load m src 4)))
                  none))
          × (pb_dec_fixed32 field dest (
                machine
                  (input
                    (fixed32_bytes (load m src 4) ++ rest)
                    (length (fixed32_bytes (load m src 4)) + n)
                    e)
                  m')
              ≡ ok tt (machine (input rest n e) (store m' dest 4 (load m src 4))))
          × (load (store m' dest 4 (load m src 4)) dest 4 ≡ load m src 4)
    unfolding pb_enc_fixed32 pb_dec_fixed32 on_stream on_memory write
    fixed32_item-roundtrip field src dest fits =
        let lt = load-lt mem src 4 in
        (
          (pb_encode_fixed32-Writes (load m src 4)).stores xs room max_size written h fits,
          rw (pb_decode_fixed32-Reads (load m src 4) lt rest n e) refl,
          load-store m' dest 4 (load m src 4) lt,
        )

    -- The 8 bytes that `pb_enc_fixed64` appends for the word at `src`, on a memory buffer with room for
    -- them, are what `pb_dec_fixed64` takes; it stores at `dest` a word that reads as the one at `src`.
    pub fixed64_item-roundtrip :
        (field : Field) (src dest : ℕ)
        → written + length (fixed64_bytes (load m src 8)) ≤ max_size
        → (pb_enc_fixed64 m field src (output xs room max_size written none)
            ≡ ok tt (
                output
                  (xs ++ fixed64_bytes (load m src 8))
                  (room - length (fixed64_bytes (load m src 8)))
                  max_size
                  (written + length (fixed64_bytes (load m src 8)))
                  none))
          × (pb_dec_fixed64 field dest (
                machine
                  (input
                    (fixed64_bytes (load m src 8) ++ rest)
                    (length (fixed64_bytes (load m src 8)) + n)
                    e)
                  m')
              ≡ ok tt (machine (input rest n e) (store m' dest 8 (load m src 8))))
          × (load (store m' dest 8 (load m src 8)) dest 8 ≡ load m src 8)
    unfolding pb_enc_fixed64 pb_dec_fixed64 on_stream on_memory write
    fixed64_item-roundtrip field src dest fits =
        let lt = load-lt mem src 8 in
        (
          (pb_encode_fixed64-Writes (load m src 8)).stores xs room max_size written h fits,
          rw (pb_decode_fixed64-Reads (load m src 8) lt rest n e) refl,
          load-store m' dest 8 (load m src 8) lt,
        )
