-- ===== src/Stream/Safe.antt =====
-- Decoders on arbitrary input: whatever the bytes are, a run over a memory buffer ends, reads within
-- `bytes_left`, and leaves the stream somewhere behind where it was.
use ios_college_work.Common.{
  ℕ, zero, suc, ◌+◌, ◌-◌, ◌≤◌, ◌≡◌, refl, sym, ap, ◌∙◌, Bool, true, false, Bool-cases, inl, inr,
  if◌then◌else◌, ltb, Option, List, [], ◌∷◌, length, drop, length-drop, arith, Run, Cmd, ok, err,
  fault, stuck, ◌>>=◌, and_then,
}
use mathlib.Core.Path.{subst}
use ios_college_work.Stream.Errors.{Error, set_error}
use ios_college_work.Stream.Input.{IStream, fail, pb_read, pb_read_null, pb_readbyte}
use ios_college_work.Stream.Buffers.{input, pb_readbyte-input, pb_readbyte-empty}

-- `left` is the stream over `xs` with limit `n` after `taken` bytes.
pub record Left (xs : List ℕ) (n : ℕ) (left : IStream) : Type 0 where
  pub taken : ℕ
  pub bound : taken ≤ n
  pub errmsg : Option Error
  pub same : left ≡ input (drop taken xs) (n - taken) errmsg

abbrev pub Safe : {A : Type 0} → List ℕ → ℕ → Run IStream A → Type 0
Safe xs n (ok a left) = Left xs n left
Safe xs n (err left) = Left xs n left
Safe xs n fault = ⊥
Safe xs n stuck = ⊥

abbrev pub SafeCmd : {A : Type 0} → Cmd IStream A → Type 0
SafeCmd c = (xs : List ℕ) (n : ℕ) (e : Option Error) → n ≤ length xs → Safe xs n (c (input xs n e))

pub Left-here : (xs : List ℕ) (n : ℕ) (e : Option Error) → Left xs n (input xs n e)
Left-here xs n e = record { taken = 0; bound = omega arith; errmsg = e; same = ground arith }

drop-nil : (n : ℕ) → drop {A = ℕ} n [] ≡ []
drop-nil zero = refl
drop-nil (suc n) = refl

pub drop-drop : (m n : ℕ) (xs : List ℕ) → drop n (drop m xs) ≡ drop (m + n) xs
drop-drop zero n xs = ap (λ (k : ℕ). drop k xs) (omega arith)
drop-drop (suc m) n [] = drop-nil n ∙ sym (drop-nil (suc m + n))
drop-drop (suc m) n (x ∷ xs) = drop-drop m n xs ∙ ap (λ (k : ℕ). drop k (x ∷ xs)) later
  where
    later : suc (m + n) ≡ suc m + n
    later = omega arith

pub Left-trans :
    {xs : List ℕ} {n m : ℕ} {left : IStream}
    → m ≤ n
    → Left (drop m xs) (n - m) left
    → Left xs n left
Left-trans {xs} {n} {m} h l = record {
  taken = m + l.taken;
  bound = omega (arith, l.bound);
  errmsg = l.errmsg;
  same = l.same ∙ ground (arith, drop-drop m l.taken xs);
}

pub Safe-trans :
    {A : Type 0} (xs : List ℕ) (n m : ℕ) (r : Run IStream A)
    → m ≤ n
    → Safe (drop m xs) (n - m) r
    → Safe xs n r
Safe-trans xs n m (ok a left) h l = Left-trans h l
Safe-trans xs n m (err left) h l = Left-trans h l
Safe-trans xs n m fault h l = l
Safe-trans xs n m stuck h l = l

-- The rest of a run, from wherever the first part has left the stream.
pub Safe-continue :
    {A : Type 0} (k : Cmd IStream A) (xs : List ℕ) (n : ℕ) {left : IStream}
    → n ≤ length xs
    → SafeCmd k
    → Left xs n left
    → Safe xs n (k left)
Safe-continue k xs n fits safe l =
    subst (λ (s : IStream). Safe xs n (k s)) (sym l.same)
      (Safe-trans xs n l.taken (k (input (drop l.taken xs) (n - l.taken) l.errmsg)) l.bound
        (safe (drop l.taken xs) (n - l.taken) l.errmsg (omega (arith, length-drop l.taken xs))))

Safe-and_then :
    {A B : Type 0} (r : Run IStream A) (k : A → Cmd IStream B) (xs : List ℕ) (n : ℕ)
    → n ≤ length xs
    → Safe xs n r
    → ((a : A) → SafeCmd (k a))
    → Safe xs n (and_then r k)
Safe-and_then (ok a left) k xs n fits safe next = Safe-continue (k a) xs n fits (next a) safe
Safe-and_then (err left) k xs n fits safe next = safe
Safe-and_then fault k xs n fits safe next = safe
Safe-and_then stuck k xs n fits safe next = safe

pub SafeCmd-bind :
    {A B : Type 0} (c : Cmd IStream A) (k : A → Cmd IStream B)
    → SafeCmd c
    → ((a : A) → SafeCmd (k a))
    → SafeCmd (c >>= k)
SafeCmd-bind c k first next xs n e fits =
    Safe-and_then (c (input xs n e)) k xs n fits (first xs n e fits) next

pub SafeCmd-ok : {A : Type 0} (a : A) → SafeCmd (ok a)
SafeCmd-ok a xs n e fits = Left-here xs n e

pub SafeCmd-fail : (A : Type 0) (msg : Error) → SafeCmd (fail {A = A} msg)
SafeCmd-fail A msg xs n e fits = Left-here xs n (set_error msg e)

pub Safe-pick :
    {A : Type 0} (xs : List ℕ) (n : ℕ) (t : Bool) (r q : Run IStream A)
    → Safe xs n r
    → Safe xs n q
    → Safe xs n (if t then r else q)
Safe-pick xs n true r q first second = first
Safe-pick xs n false r q first second = second

pub Safe-if :
    {A : Type 0} (xs : List ℕ) (n : ℕ) (t : Bool) (c d : Cmd IStream A) (s : IStream)
    → Safe xs n (c s)
    → Safe xs n (d s)
    → Safe xs n ((if t then c else d) s)
Safe-if xs n true c d s first second = first
Safe-if xs n false c d s first second = second

pub SafeCmd-if :
    {A : Type 0} (b : Bool) (c d : Cmd IStream A)
    → SafeCmd c
    → SafeCmd d
    → SafeCmd (if b then c else d)
SafeCmd-if true c d left right = left
SafeCmd-if false c d left right = right

pub pb_readbyte-Safe : SafeCmd pb_readbyte
pb_readbyte-Safe xs zero e fits = rw (pb_readbyte-empty xs e) (Left-here xs 0 _)
pb_readbyte-Safe [] (suc n) e fits = absurd (omega arith)
pb_readbyte-Safe (b ∷ xs) (suc n) e fits =
    rw (pb_readbyte-input b xs n e)
      (record { taken = 1; bound = omega arith; errmsg = e; same = ground arith })

-- `pb_read` stores as many bytes as it was asked for, or fails.
pub pb_read-Safe : (count : ℕ) → SafeCmd (pb_read count)
unfolding pb_read
pb_read-Safe count xs n e fits = elim (Bool-cases (ltb n count)) [
  | inl short ↦ rw short (Left-here xs n _)
  | inr enough ↦
      let read : ltb (length xs) count ≡ false = ground arith in
      rw (enough, read) (record { taken = count; bound = ground arith; errmsg = e; same = refl })
]

pub pb_read_null-Safe : (count : ℕ) → SafeCmd (pb_read_null count)
unfolding pb_read_null
pb_read_null-Safe count =
    SafeCmd-bind (pb_read count) (λ _. ok tt) (pb_read-Safe count) (λ _. SafeCmd-ok tt)
