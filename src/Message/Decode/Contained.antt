-- ===== src/Message/Decode/Contained.antt =====
-- The field decoders on arbitrary bytes: they return, take bytes within `bytes_left` only, and store within
-- the `data_size` bytes of the field only.
pub mod Items
use ios_college_work.Common.{
  ℕ, zero, suc, ◌+◌, ◌-◌, ◌*◌, ◌%◌, ◌^◌, ◌≤◌, ◌<◌, ◌≡◌, refl, sym, ap, ◌∙◌, ◌⊎◌, inl, inr, Bool,
  true, false, Bool-cases, ltb, not, ◌==◌, if◌then◌else◌, Option, List, [], ◌∷◌, length, take, drop,
  length-drop, length-take, arith, Run, Cmd, ok, err, fault, stuck, ◌>>=◌, ◌>>◌, and_then,
}
use mathlib.Core.Path.{subst}
use ios_college_work.Stream.Errors.{
  Error, integer_too_large, invalid_data_size, bytes_overflow, size_too_large, string_overflow,
  no_malloc_support, incorrect_fixed_length,
}
use ios_college_work.Stream.Input.{IStream, pb_read}
use ios_college_work.Stream.Buffers.{input}
use ios_college_work.Stream.Safe.{
  Left, Safe, SafeCmd, Left-here, Left-trans, pb_read-Safe, SafeCmd-bind, SafeCmd-ok,
}
use ios_college_work.Wire.Decode.{pb_decode_varint, pb_decode_varint32, pb_decode_svarint, unzigzag}
use ios_college_work.Wire.Safe.{pb_decode_varint-Safe, pb_decode_varint32-Safe}
use ios_college_work.Message.Memory.{Mem}
use ios_college_work.Message.Field.{Field, pb_atype, atype_pointer, pb_size_max}
use ios_college_work.Message.Encode.Items.{is_word_size, alloc_size}
use ios_college_work.Message.Decode.Machine.{
  Machine, machine, on_memory, on_stream, refuse, store, store_bytes, write, write_bytes,
  store-outside, store_bytes-outside,
}
use ios_college_work.Message.Decode.Items.{
  terminate, clamp, same_number, put_signed, put_unsigned, pb_dec_varint, pb_dec_uvarint,
  pb_dec_svarint, read_bytes, pb_dec_bytes, read_string, pb_dec_string, read_fixed_length,
  pb_dec_fixed_length_bytes,
}

-- `m'` differs from `m` only in the `size` bytes from `dest` on.
abbrev pub Kept : (dest size : ℕ) → Mem → Mem → Type 0
Kept dest size m m' = (q : ℕ) → (q < dest) ⊎ (dest + size ≤ q) → m' q ≡ m q

-- `left` is a machine behind some of the `n` bytes of `xs`, whose memory has changed within the field only.
pub record Stays (dest size : ℕ) (xs : List ℕ) (n : ℕ) (m : Mem) (left : Machine) : Type 0 where
  pub stream : Left xs n left.stream
  pub memory : Kept dest size m left.mem

abbrev pub Contained :
    {A : Type 0} → (dest size : ℕ) (xs : List ℕ) (n : ℕ) → Mem → Run Machine A → Type 0
Contained dest size xs n m (ok a left) = Stays dest size xs n m left
Contained dest size xs n m (err left) = Stays dest size xs n m left
Contained dest size xs n m fault = ⊥
Contained dest size xs n m stuck = ⊥

abbrev pub ContainedCmd : {A : Type 0} → (dest size : ℕ) → Cmd Machine A → Type 0
ContainedCmd dest size c =
    (xs : List ℕ) (n : ℕ) (e : Option Error) (m : Mem)
    → n ≤ length xs
    → Contained dest size xs n m (c (machine (input xs n e) m))

module _ (dest size : ℕ) where
  Stays-trans :
      {xs : List ℕ} {n taken : ℕ} {m m' : Mem} {left : Machine}
      → taken ≤ n
      → Kept dest size m m'
      → Stays dest size (drop taken xs) (n - taken) m' left
      → Stays dest size xs n m left
  Stays-trans le kept s = record {
    stream = Left-trans le s.stream;
    memory = λ q out. s.memory q out ∙ kept q out;
  }

  Contained-trans :
      {A : Type 0} (xs : List ℕ) (n taken : ℕ) (m m' : Mem) (r : Run Machine A)
      → taken ≤ n
      → Kept dest size m m'
      → Contained dest size (drop taken xs) (n - taken) m' r
      → Contained dest size xs n m r
  Contained-trans xs n taken m m' (ok a left) le kept s = Stays-trans le kept s
  Contained-trans xs n taken m m' (err left) le kept s = Stays-trans le kept s
  Contained-trans xs n taken m m' fault le kept s = s
  Contained-trans xs n taken m m' stuck le kept s = s

  continue :
      {A : Type 0} (k : Cmd Machine A) (xs : List ℕ) (n : ℕ) (m : Mem) (left : Machine)
      → n ≤ length xs
      → ContainedCmd dest size k
      → Stays dest size xs n m left
      → Contained dest size xs n m (k left)
  continue k xs n m left fits safe s =
      let l = s.stream in
      subst (λ (t : IStream). Contained dest size xs n m (k (machine t left.mem))) (sym l.same)
        (Contained-trans xs n l.taken m left.mem
          (k (machine (input (drop l.taken xs) (n - l.taken) l.errmsg) left.mem)) l.bound s.memory
          (safe (drop l.taken xs) (n - l.taken) l.errmsg left.mem
            (omega (arith, length-drop l.taken xs))))

  bind_run :
      {A B : Type 0} (r : Run Machine A) (k : A → Cmd Machine B) (xs : List ℕ) (n : ℕ) (m : Mem)
      → n ≤ length xs
      → Contained dest size xs n m r
      → ((a : A) → ContainedCmd dest size (k a))
      → Contained dest size xs n m (and_then r k)
  bind_run (ok a left) k xs n m fits s next = continue (k a) xs n m left fits (next a) s
  bind_run (err left) k xs n m fits s next = s
  bind_run fault k xs n m fits s next = s
  bind_run stuck k xs n m fits s next = s

  pub bind-Contained :
      {A B : Type 0} (c : Cmd Machine A) (k : A → Cmd Machine B)
      → ContainedCmd dest size c
      → ((a : A) → ContainedCmd dest size (k a))
      → ContainedCmd dest size (c >>= k)
  bind-Contained c k first next xs n e m fits =
      bind_run (c (machine (input xs n e) m)) k xs n m fits (first xs n e m fits) next

  on_memory-Contained :
      {A : Type 0} (r : Run IStream A) (xs : List ℕ) (n : ℕ) (m : Mem)
      → Safe xs n r
      → Contained dest size xs n m (on_memory m r)
  unfolding on_memory
  on_memory-Contained (ok a s) xs n m l = record { stream = l; memory = λ q out. refl }
  on_memory-Contained (err s) xs n m l = record { stream = l; memory = λ q out. refl }
  on_memory-Contained fault xs n m l = l
  on_memory-Contained stuck xs n m l = l

  pub on_stream-Contained :
      {A : Type 0} (c : Cmd IStream A) → SafeCmd c → ContainedCmd dest size (on_stream c)
  unfolding on_stream
  on_stream-Contained c safe xs n e m fits =
      on_memory-Contained (c (input xs n e)) xs n m (safe xs n e fits)

  pub refuse-Contained : (A : Type 0) (msg : Error) → ContainedCmd dest size (refuse {A = A} msg)
  refuse-Contained A msg xs n e m fits = record {
    stream = Left-here xs n _;
    memory = λ q out. refl;
  }

  ok-Contained : {A : Type 0} (a : A) → ContainedCmd dest size (ok a)
  ok-Contained a xs n e m fits = record { stream = Left-here xs n e; memory = λ q out. refl }

  pub if-Contained :
      {A : Type 0} (t : Bool) (c d : Cmd Machine A)
      → (t ≡ true → ContainedCmd dest size c)
      → (t ≡ false → ContainedCmd dest size d)
      → ContainedCmd dest size (λ s. if t then c s else d s)
  if-Contained true c d first second = first refl
  if-Contained false c d first second = second refl

  pub write-Contained :
      (p width value : ℕ)
      → dest ≤ p
      → p + width ≤ dest + size
      → ContainedCmd dest size (write p width value)
  unfolding write
  write-Contained p width value low high xs n e m fits = record {
    stream = Left-here xs n e;
    memory = λ q out. store-outside m p width value q (ground (arith, out));
  }

  same_number-Contained : (clamped value : ℕ) → ContainedCmd dest size (same_number clamped value)
  unfolding same_number
  same_number-Contained clamped value =
      if-Contained (clamped == value) (ok tt) (refuse integer_too_large) (λ _. ok-Contained tt)
        (λ _. refuse-Contained (Unit {0}) integer_too_large)

  pub put-Contained :
      (width clamped value : ℕ)
      → width ≤ size
      → ContainedCmd dest size (write dest width value >> same_number clamped value)
  put-Contained width clamped value le =
      bind-Contained (write dest width value) (λ _. same_number clamped value)
        (write-Contained dest width value (omega arith) (omega (arith, le)))
        (λ _. same_number-Contained clamped value)

  -- Bytes that are read are stored where there is room for as many as were asked for.
  pub read_into-Contained :
      (p count : ℕ)
      → dest ≤ p
      → p + count ≤ dest + size
      → ContainedCmd dest size (on_stream (pb_read count) >>= write_bytes p)
  unfolding on_stream on_memory pb_read write_bytes
  read_into-Contained p count low high xs n e m fits = elim (Bool-cases (ltb n count)) [
    | inl short ↦ rw short (record { stream = Left-here xs n _; memory = λ q out. refl })
    | inr enough ↦
        let read : ltb (length xs) count ≡ false = ground arith in
        rw (enough, read)
          (record {
            stream = record { taken = count; bound = ground arith; errmsg = e; same = refl };
            memory = λ q out.
                store_bytes-outside m p (take count xs) q
                  (ground (arith, out, length-take count xs));
          })
  ]
