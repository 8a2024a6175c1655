-- ===== src/Message/Decode/Machine.antt =====
-- What the decoder of messages works on: the stream, and the memory that it stores to.
use ios_college_work.Common.{
  ℕ, zero, suc, ◌+◌, ◌*◌, ◌/◌, ◌%◌, ◌^◌, ◌≤◌, ◌<◌, ◌≡◌, refl, ap, ◌∙◌, ◌⊎◌, inl, ◌==◌,
  if◌then◌else◌, List, [], ◌∷◌, length, arith, Run, Cmd, ok, err, fault, stuck,
}
use native.Mathlib.Nat.{pow-suc}
use ios_college_work.Stream.Errors.{Error, set_error}
use ios_college_work.Stream.Input.{IStream}
use ios_college_work.Message.Memory.{Mem, load, bytes_at}

pub record Machine : Type 0 where
  pub stream : IStream
  pub mem : Mem

abbrev pub machine : IStream → Mem → Machine
machine s m = record { stream = s; mem = m }

-- A function that leaves the memory as it is.
unfoldable pub on_memory : {A : Type 0} → Mem → Run IStream A → Run Machine A
on_memory m (ok a s) = ok a (machine s m)
on_memory m (err s) = err (machine s m)
on_memory m fault = fault
on_memory m stuck = stuck

unfoldable pub on_stream : {A : Type 0} → Cmd IStream A → Cmd Machine A
unfolding on_memory
on_stream c s = on_memory s.mem (c s.stream)

abbrev pub refuse : {A : Type 0} → Error → Cmd Machine A
refuse msg s =
    err (record s { stream = record s.stream { errmsg = set_error msg s.stream.errmsg } })

-- The word `value` of `size` bytes, stored at an address.
abbrev pub store : Mem → (p size value : ℕ) → Mem
store m p zero value q = m q
store m p (suc size) value q =
    let rest = store m (p + 1) size (value / 256) q in if q == p then value % 256 else rest

-- The bytes `bs`, stored from an address on.
abbrev pub store_bytes : Mem → (p : ℕ) → List ℕ → Mem
store_bytes m p [] q = m q
store_bytes m p (b ∷ bs) q = let rest = store_bytes m (p + 1) bs q in if q == p then b else rest

unfoldable pub write : (p size value : ℕ) → Cmd Machine (Unit {0})
write p size value s = ok tt (record s { mem = store s.mem p size value })

unfoldable pub write_bytes : (p : ℕ) → List ℕ → Cmd Machine (Unit {0})
write_bytes p bs s = ok tt (record s { mem = store_bytes s.mem p bs })

-- Other addresses keep their bytes.
pub store-outside :
    (m : Mem) (p size value q : ℕ) → (q < p) ⊎ (p + size ≤ q) → store m p size value q ≡ m q
store-outside m p zero value q out = refl
store-outside m p (suc size) value q out =
    ground (arith, store-outside m (p + 1) size (value / 256) q (ground (arith, out)))

pub store_bytes-outside :
    (m : Mem) (p : ℕ) (bs : List ℕ) (q : ℕ)
    → (q < p) ⊎ (p + length bs ≤ q)
    → store_bytes m p bs q ≡ m q
store_bytes-outside m p [] q out = refl
store_bytes-outside m p (b ∷ bs) q out =
    ground (arith, store_bytes-outside m (p + 1) bs q (ground (arith, out)))

load-eq :
    (m m' : Mem) (p size : ℕ) → ((q : ℕ) → p ≤ q → m q ≡ m' q) → load m p size ≡ load m' p size
load-eq m m' p zero same = refl
load-eq m m' p (suc size) same =
    rw (same p (omega arith), load-eq m m' (p + 1) size (λ q h. same q (omega (arith, h)))) refl

-- What has been stored is read back.
pub load-store :
    (m : Mem) (p size value : ℕ) → value < 256 ^ size → load (store m p size value) p size ≡ value
load-store m p zero value h = omega (arith, h)
load-store m p (suc size) value h =
    let rest = load-store m (p + 1) size (value / 256) (grind (arith, pow-suc 256 size, h)) in
    let tail =
      load-eq (store m p (suc size) value) (store m (p + 1) size (value / 256)) (p + 1) size
        (λ q le. ground (arith, le)) in
    rw (tail, rest) (ground arith)

-- Only the low bytes of a word are stored.
store-high :
    (m : Mem) (p size value c q : ℕ)
    → store m p size (value + c * 256 ^ size) q ≡ store m p size value q
store-high m p zero value c q = refl
store-high m p (suc size) value c q =
    let up : c * 256 ^ suc size ≡ 256 * (c * 256 ^ size) =
      ap (λ (t : ℕ). c * t) (pow-suc 256 size) ∙ omega arith in
    let high : (value + c * 256 ^ suc size) / 256 ≡ value / 256 + c * 256 ^ size =
      omega (arith, up) in
    let low : (value + c * 256 ^ suc size) % 256 ≡ value % 256 = omega (arith, up) in
    rw (low, high, store-high m (p + 1) size (value / 256) c q) refl

pub load-store_high :
    (m : Mem) (p size value c : ℕ)
    → value < 256 ^ size
    → load (store m p size (value + c * 256 ^ size)) p size ≡ value
load-store_high m p size value c h =
    load-eq (store m p size (value + c * 256 ^ size)) (store m p size value) p size
      (λ q le. store-high m p size value c q)
    ∙ load-store m p size value h

bytes_at-eq :
    (m m' : Mem) (p size : ℕ)
    → ((q : ℕ) → p ≤ q → m q ≡ m' q)
    → bytes_at m p size ≡ bytes_at m' p size
bytes_at-eq m m' p zero same = refl
bytes_at-eq m m' p (suc size) same =
    rw (same p (omega arith), bytes_at-eq m m' (p + 1) size (λ q h. same q (omega (arith, h)))) refl

-- Bytes that have been stored are read back.
pub bytes_at-store_bytes :
    (m : Mem) (p : ℕ) (bs : List ℕ) → bytes_at (store_bytes m p bs) p (length bs) ≡ bs
bytes_at-store_bytes m p [] = refl
bytes_at-store_bytes m p (b ∷ bs) =
    let rest = bytes_at-store_bytes m (p + 1) bs in
    let tail =
      bytes_at-eq (store_bytes m p (b ∷ bs)) (store_bytes m (p + 1) bs) (p + 1) (length bs)
        (λ q le. ground (arith, le)) in
    rw (tail, rest) (ground arith)

-- A word in front of them stays.
pub load-store_bytes :
    (m : Mem) (p size q : ℕ) (bs : List ℕ)
    → p + size ≤ q
    → load (store_bytes m q bs) p size ≡ load m p size
load-store_bytes m p zero q bs h = refl
load-store_bytes m p (suc size) q bs h =
    rw
      (
        store_bytes-outside m q bs p (inl (omega (arith, h))),
        load-store_bytes m (p + 1) size q bs (omega (arith, h)),
      )
      refl
