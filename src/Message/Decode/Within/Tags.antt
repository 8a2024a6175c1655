-- ===== src/Message/Decode/Within/Tags.antt =====
-- Tags on arbitrary bytes: they have 29 bits, and take a byte at least.
use ios_college_work.Common.{
  ℕ, ◌-◌, ◌^◌, ◌≤◌, ◌<◌, ◌≡◌, refl, inl, inr, true, false, Bool-cases, ◌==◌, Option, List, drop,
  arith, Run, ok, err, fault, stuck,
}
use ios_college_work.Stream.Errors.{Error}
use ios_college_work.Stream.Input.{IStream}
use ios_college_work.Stream.Buffers.{input}
use ios_college_work.Stream.Safe.{Safe}
use ios_college_work.Wire.Decode.{Header, tag_of, pb_decode_varint32, pb_decode_tag}
use ios_college_work.Wire.Safe.{pb_decode_varint32-Safe}
use ios_college_work.Message.Memory.{Mem}
use ios_college_work.Message.Decode.Machine.{Machine, machine, on_memory, on_stream}
use ios_college_work.Message.Decode.Contained.{Stays}
use ios_college_work.Message.Decode.Within.{Holds, Within}
use ios_college_work.Message.Decode.Within.Numbers.{Below, pb_decode_varint32-Within}

-- What `pb_decode_tag` leaves behind.
pub record Tag (lo len : ℕ) (xs : List ℕ) (n : ℕ) (m : Mem) (header : Header) (left : Machine)
    : Type 0 where
  pub low : header.tag < 2 ^ 29
  pub some_left : 1 ≤ n
  pub stays : Stays lo len (drop 1 xs) (n - 1) m left

abbrev pub Tagged : (lo len : ℕ) (xs : List ℕ) (n : ℕ) → Mem → Run Machine Header → Type 0
Tagged lo len xs n m (ok header left) =
    (header.success ≡ true → Tag lo len xs n m header left) × Stays lo len xs n m left
Tagged lo len xs n m (err left) = ⊥
Tagged lo len xs n m fault = ⊥
Tagged lo len xs n m stuck = ⊥

module _ (lo len : ℕ) where
  no_false : {A : Type 0} → false ≡ true → A
  no_false e = absurd (ground (arith, e))

  tag_of-Tagged :
      (xs : List ℕ) (n : ℕ) (m : Mem) (r : Run IStream ℕ)
      → Safe xs n r
      → Within lo len (Below lo len) 1 xs n m (on_memory m r)
      → Tagged lo len xs n m (on_memory m (tag_of r))
  unfolding on_memory tag_of
  tag_of-Tagged xs n m (ok temp s) l (low, one, stays) =
      let here : Stays lo len xs n m (machine s m) = record {
        stream = l;
        memory = λ q out. refl;
      } in
      elim (Bool-cases (temp == 0)) [
        | inl t ↦ rw t ((λ e. no_false e), here)
        | inr t ↦
            rw t ((λ _. record { low = omega (arith, low); some_left = one; stays = stays }), here)
      ]
  tag_of-Tagged xs n m (err s) l w =
      ((λ e. no_false e), record { stream = l; memory = λ q out. refl })
  tag_of-Tagged xs n m fault l w = w
  tag_of-Tagged xs n m stuck l w = w

  -- `pb_decode_tag` ends on every buffer of bytes that holds `bytes_left` of them, and a tag that it yields is below
  -- 2^29 and has taken a byte at least.
  pub pb_decode_tag-Tagged :
      (xs : List ℕ) (n : ℕ) (e : Option Error) (m : Mem)
      → Holds xs n
      → Tagged lo len xs n m (on_stream pb_decode_tag (machine (input xs n e) m))
  unfolding pb_decode_tag on_stream
  pb_decode_tag-Tagged xs n e m held =
      tag_of-Tagged xs n m (pb_decode_varint32 (input xs n e))
        (pb_decode_varint32-Safe xs n e held.0)
        (pb_decode_varint32-Within lo len n xs n e m (omega arith) held)
