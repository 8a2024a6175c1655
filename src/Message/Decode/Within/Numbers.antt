-- ===== src/Message/Decode/Within/Numbers.antt =====
-- The numbers of the wire format on arbitrary bytes: each takes a byte at least, and those of 32 bits fit.
use ios_college_work.Common.{
  ℕ, zero, suc, ◌+◌, ◌-◌, ◌*◌, ◌%◌, ◌^◌, ◌<◌, ◌≡◌, refl, inl, inr, false, Bool-cases, leb, ltb,
  ◌==◌, bit_and, if◌then◌else◌, List, [], ◌∷◌, length, length-take, drop, All, arith, Run, Cmd, ok,
  err, fault, stuck, ◌>>=◌, and_then,
}
use ios_college_work.Common.Bits.{low_bits, bit_or-shift}
use ios_college_work.Stream.Errors.{set_error, end_of_stream, varint_overflow}
use ios_college_work.Stream.Input.{IStream, pb_read, pb_readbyte}
use ios_college_work.Stream.Buffers.{input, pb_readbyte-input, pb_readbyte-empty}
use ios_college_work.Wire.Decode.{add_group, varint_loop, pb_decode_varint, pb_decode_varint32}
use ios_college_work.Wire.Safe.{varint_loop-Safe}
use ios_college_work.Message.Memory.{Mem}
use ios_college_work.Message.Decode.Machine.{on_memory, on_stream}
use ios_college_work.Message.Decode.Within.{
  WithinCmd, Any, bind-Within, ok-Within, Stays-here, Stays-Strays, All-take, refuse-Within,
}
use ios_college_work.Message.Decode.Within.Steps.{on_stream-Within, less-Within}

on_memory-bind :
    {A B : Type 0} (m : Mem) (r : Run IStream A) (k : A → Cmd IStream B)
    → on_memory m (and_then r k) ≡ and_then (on_memory m r) (λ a. on_stream (k a))
unfolding on_memory on_stream
on_memory-bind m (ok a s) k = refl
on_memory-bind m (err s) k = refl
on_memory-bind m fault k = refl
on_memory-bind m stuck k = refl

module _ (lo len : ℕ) where
  -- Two parts on the stream, one after the other.
  pub stream-Within :
      {A B : Type 0} (P : A → Type 0) (Q : B → Type 0) (d most : ℕ) (c : Cmd IStream A)
      (k : A → Cmd IStream B)
      → WithinCmd lo len P d most (on_stream c)
      → ((a : A) → P a → WithinCmd lo len Q 0 (most - d) (on_stream (k a)))
      → WithinCmd lo len Q d most (on_stream (c >>= k))
  unfolding on_stream
  stream-Within P Q d most c k first next xs n e m small fits =
      rw (on_memory-bind m (c (input xs n e)) k) (
        bind-Within lo len P Q d most (on_stream c) (λ a. on_stream (k a)) first next xs n e m small
          fits)

  abbrev pub Byte : ℕ → Type 0
  Byte b = b < 256

  pub pb_readbyte-Within : (most : ℕ) → WithinCmd lo len Byte 1 most (on_stream pb_readbyte)
  unfolding on_stream on_memory
  pb_readbyte-Within most xs zero e m small fits =
      rw (pb_readbyte-empty xs e)
        (Stays-Strays lo len (Stays-here lo len xs 0 0 (set_error end_of_stream e) m refl))
  pb_readbyte-Within most [] (suc n) e m small fits = absurd (omega (arith, fits.0))
  pb_readbyte-Within most (x ∷ xs) (suc n) e m small fits =
      rw (pb_readbyte-input x xs n e)
        ((fits.1.0, omega arith, Stays-here lo len xs (suc n - 1) n e m (omega arith)))

  abbrev pub Bytes : ℕ → List ℕ → Type 0
  Bytes count bs = (length bs ≡ count) × All (λ b. b < 256) bs

  pub pb_read-Within :
      (most count : ℕ) → WithinCmd lo len (Bytes count) count most (on_stream (pb_read count))
  unfolding on_stream on_memory pb_read
  pb_read-Within most count xs n e m small fits = elim (Bool-cases (ltb n count)) [
    | inl short ↦
        rw short (Stays-Strays lo len (Stays-here lo len xs n n (set_error end_of_stream e) m refl))
    | inr enough ↦
        let held = fits.0 in
        let read : ltb (length xs) count ≡ false = ground arith in
        rw (enough, read)
          (
            (omega (arith, length-take count xs (ground arith)), All-take count xs fits.1),
            ground arith,
            Stays-here lo len (drop count xs) (n - count) (n - count) e m refl,
          )
  ]

  abbrev pub Below : ℕ → Type 0
  Below v = v < 2 ^ 32

  -- A group at `b` bits keeps the number below 2^32.
  abbrev KeepsLow : ℕ → Type 0
  KeepsLow b =
      (acc byte : ℕ)
      → acc < 2 ^ b
      → (add_group 32 acc byte b < 2 ^ (b + 7)) × (add_group 32 acc byte b < 2 ^ 32)

  module _ (fuel b : ℕ) (low : b < 32) (keeps : KeepsLow b)
      (next : (most acc : ℕ)
        → acc < 2 ^ (b + 7)
        → WithinCmd lo len Below 0 most (on_stream (varint_loop 32 fuel (b + 7) acc))) where
    round-Within :
        (most acc : ℕ)
        → acc < 2 ^ b
        → WithinCmd lo len Below 1 most (on_stream (varint_loop 32 (suc fuel) b acc))
    unfolding varint_loop on_stream on_memory
    round-Within most acc small =
        let go : leb 32 b ≡ false = ground arith in
        let step : (b + 7) % 2 ^ 8 ≡ b + 7 = omega arith in
        rw (go, step)
          (stream-Within Byte Below 1 most pb_readbyte
            (λ byte.
              let r = add_group 32 acc byte b in
              let more = varint_loop 32 fuel (b + 7) r in
              if bit_and byte 0x80 == 0 then ok r else more)
            (pb_readbyte-Within most)
            (λ byte _. elim (Bool-cases (bit_and byte 0x80 == 0)) [
              | inl t ↦ rw t (
                  ok-Within lo len Below (most - 1) (add_group 32 acc byte b)
                    (keeps acc byte small).1)
              | inr t ↦ rw t (next (most - 1) (add_group 32 acc byte b) (keeps acc byte small).0)
            ]))

  keeps_at :
      (b acc byte q : ℕ)
      → acc < 2 ^ b
      → byte % 128 * 2 ^ b % 2 ^ 32 ≡ q * 2 ^ b
      → add_group 32 acc byte b ≡ acc + q * 2 ^ b
  keeps_at b acc byte q small e = rw (low_bits byte, e) (bit_or-shift b q acc small)

  keeps7 : KeepsLow 7
  keeps7 acc byte small =
      rw (keeps_at 7 acc byte (byte % 128) small (omega arith)) (omega arith, omega arith)

  keeps14 : KeepsLow 14
  keeps14 acc byte small =
      rw (keeps_at 14 acc byte (byte % 128) small (omega arith)) (omega arith, omega arith)

  keeps21 : KeepsLow 21
  keeps21 acc byte small =
      rw (keeps_at 21 acc byte (byte % 128) small (omega arith)) (omega arith, omega arith)

  -- Three bits of the last group do not fit.
  keeps28 : KeepsLow 28
  keeps28 acc byte small =
      rw (keeps_at 28 acc byte (byte % 16) small (omega arith)) (omega arith, omega arith)

  over-Within : (most acc : ℕ) → WithinCmd lo len Below 0 most (on_stream (varint_loop 32 2 35 acc))
  unfolding varint_loop on_stream on_memory
  over-Within most acc = refuse-Within lo len Below 0 most varint_overflow

  loop-Within :
      (most acc : ℕ)
      → acc < 2 ^ 7
      → WithinCmd lo len Below 0 most (on_stream (varint_loop 32 6 7 acc))
  loop-Within most acc small =
      first 5 7 (omega arith) keeps7
        (first 4 14 (omega arith) keeps14 (
          first 3 21 (omega arith) keeps21
            (first 2 28 (omega arith) keeps28 (λ most' acc' _. over-Within most' acc'))))
        most acc small
    where
      first :
          (fuel b : ℕ)
          → b < 32
          → KeepsLow b
          → ((most' acc' : ℕ)
              → acc' < 2 ^ (b + 7)
              → WithinCmd lo len Below 0 most' (on_stream (varint_loop 32 fuel (b + 7) acc')))
          → (most' acc' : ℕ) → acc' < 2 ^ b
          → WithinCmd lo len Below 0 most' (on_stream (varint_loop 32 (suc fuel) b acc'))
      first fuel b low keeps next most' acc' small' =
          less-Within lo len Below 1 0 most' most' (on_stream (varint_loop 32 (suc fuel) b acc'))
            (omega arith) (omega arith) (round-Within fuel b low keeps next most' acc' small')

  pub pb_decode_varint32-Within :
      (most : ℕ) → WithinCmd lo len Below 1 most (on_stream pb_decode_varint32)
  unfolding pb_decode_varint32 on_stream on_memory
  pb_decode_varint32-Within most =
      stream-Within Byte Below 1 most pb_readbyte
        (λ byte. if bit_and byte 0x80 == 0 then ok byte else varint_loop 32 6 7 (bit_and byte 0x7f))
        (pb_readbyte-Within most)
        (λ byte fits. elim (Bool-cases (bit_and byte 0x80 == 0)) [
          | inl t ↦ rw t (ok-Within lo len Below (most - 1) byte (omega arith))
          | inr t ↦ rw t (loop-Within (most - 1) (bit_and byte 0x7f) (omega (arith, low_bits byte)))
        ])

  pub pb_decode_varint-Within :
      (most : ℕ) → WithinCmd lo len (Any {A = ℕ}) 1 most (on_stream pb_decode_varint)
  unfolding pb_decode_varint varint_loop on_stream on_memory
  pb_decode_varint-Within most =
      stream-Within Byte (Any {A = ℕ}) 1 most pb_readbyte
        (λ byte.
          let r = add_group 64 0 byte 0 in
          let more = varint_loop 64 10 7 r in if bit_and byte 0x80 == 0 then ok r else more)
        (pb_readbyte-Within most)
        (λ byte _. elim (Bool-cases (bit_and byte 0x80 == 0)) [
          | inl t ↦ rw t (ok-Within lo len (Any {A = ℕ}) (most - 1) (add_group 64 0 byte 0) tt)
          | inr t ↦ rw t (
              on_stream-Within lo len (most - 1) (varint_loop 64 10 7 (add_group 64 0 byte 0)) (
                varint_loop-Safe 64 10 7 (add_group 64 0 byte 0) (omega arith) (omega arith)
                  (omega arith)))
        ])
