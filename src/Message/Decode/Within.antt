-- ===== src/Message/Decode/Within.antt =====
-- The contract of the decoder of messages on arbitrary bytes: a run over a memory buffer ends, stays within
-- `bytes_left`, and stores only within the region of `len` bytes from `lo` on.
pub mod Steps
pub mod Opening
pub mod Substream
pub mod Defaults
pub mod Numbers
pub mod Items
pub mod Nest
pub mod Packed
pub mod Slots
pub mod Static
pub mod RawValue
pub mod Callbacks
pub mod Fields
pub mod Seek
pub mod Seen
pub mod Tags
pub mod Rounds
pub mod Messages
use ios_college_work.Common.{
  ℕ, zero, suc, ◌+◌, ◌-◌, ◌≤◌, ◌<◌, ◌≡◌, refl, sym, ap, ◌∙◌, ◌⊎◌, inl, inr, Bool, true, false,
  if◌then◌else◌, Option, List, [], ◌∷◌, length, take, drop, All, length-drop, arith, Run, Cmd, ok,
  err, fault, stuck, ◌>>=◌, ◌>>◌, and_then,
}
use mathlib.Core.Path.{subst}
use ios_college_work.Stream.Errors.{Error, set_error}
use ios_college_work.Stream.Input.{IStream}
use ios_college_work.Stream.Buffers.{input}
use ios_college_work.Stream.Safe.{Left, Safe, SafeCmd, drop-drop}
use ios_college_work.Message.Memory.{Mem}
use ios_college_work.Message.Decode.Machine.{
  Machine, machine, on_memory, on_stream, refuse, write, store, store-outside,
}
use ios_college_work.Message.Decode.Contained.{Kept, Stays, Contained, ContainedCmd}

-- An error may leave less to read than there is behind the pointer.
pub record Strays (lo len : ℕ) (xs : List ℕ) (n : ℕ) (m : Mem) (left : Machine) : Type 0 where
  pub taken : ℕ
  pub limit : ℕ
  pub bound : taken + limit ≤ n
  pub errmsg : Option Error
  pub same : left.stream ≡ input (drop taken xs) limit errmsg
  pub memory : Kept lo len m left.mem

-- A buffer of bytes that holds as many as the limit says.
abbrev pub Holds : (xs : List ℕ) (n : ℕ) → Type 0
Holds xs n = (n ≤ length xs) × All (λ b. b < 256) xs

pub All-take : (t : ℕ) (xs : List ℕ) → All (λ b. b < 256) xs → All (λ b. b < 256) (take t xs)
All-take zero xs w = tt
All-take (suc t) [] w = tt
All-take (suc t) (x ∷ xs) w = (w.0, All-take t xs w.1)

pub All-drop : (t : ℕ) (xs : List ℕ) → All (λ b. b < 256) xs → All (λ b. b < 256) (drop t xs)
All-drop zero xs w = w
All-drop (suc t) [] w = w
All-drop (suc t) (x ∷ xs) w = All-drop t xs w.1

pub Holds-drop : (xs : List ℕ) (n t : ℕ) → t ≤ n → Holds xs n → Holds (drop t xs) (n - t)
Holds-drop xs n t le h = (omega (arith, length-drop t xs, h.0, le), All-drop t xs h.1)

-- A run that ends well has taken `d` bytes at least, and its result is as `Post` says.
abbrev pub Within :
    {A : Type 0}
    → (lo len : ℕ) (Post : A → Type 0) (d : ℕ) (xs : List ℕ) (n : ℕ) → Mem
    → Run Machine A
    → Type 0
Within lo len Post d xs n m (ok a left) = Post a × (d ≤ n) × Stays lo len (drop d xs) (n - d) m left
Within lo len Post d xs n m (err left) = Strays lo len xs n m left
Within lo len Post d xs n m fault = ⊥
Within lo len Post d xs n m stuck = ⊥

-- The same for all buffers, with a limit of `most` bytes.
abbrev pub WithinCmd :
    {A : Type 0} → (lo len : ℕ) (Post : A → Type 0) (d most : ℕ) → Cmd Machine A → Type 0
WithinCmd lo len Post d most c =
    (xs : List ℕ) (n : ℕ) (e : Option Error) (m : Mem)
    → n ≤ most
    → Holds xs n
    → Within lo len Post d xs n m (c (machine (input xs n e) m))

abbrev pub Any : {A : Type 0} → A → Type 0
Any a = Unit {0}

module _ (lo len : ℕ) where
  pub Stays-here :
      (xs : List ℕ) (n k : ℕ) (e : Option Error) (m : Mem)
      → k ≡ n
      → Stays lo len xs n m (machine (input xs k e) m)
  Stays-here xs n k e m same = record {
    stream = record { taken = 0; bound = omega arith; errmsg = e; same = ground arith };
    memory = λ q out. refl;
  }

  pub Stays-Strays :
      {xs : List ℕ} {n : ℕ} {m : Mem} {left : Machine}
      → Stays lo len xs n m left
      → Strays lo len xs n m left
  Stays-Strays {xs} {n} s = record {
    taken = s.stream.taken;
    limit = n - s.stream.taken;
    bound = omega (arith, s.stream.bound);
    errmsg = s.stream.errmsg;
    same = s.stream.same;
    memory = s.memory;
  }

  -- An error behind some bytes is one from the start.
  pub Strays-later :
      {xs : List ℕ} {n : ℕ} {m m' : Mem} {left : Machine} (t : ℕ)
      → t ≤ n
      → Kept lo len m m'
      → Strays lo len (drop t xs) (n - t) m' left
      → Strays lo len xs n m left
  Strays-later {xs} {n} t le kept s = record {
    taken = t + s.taken;
    limit = s.limit;
    bound = omega (arith, s.bound);
    errmsg = s.errmsg;
    same = s.same ∙ ap (λ (ys : List ℕ). input ys s.limit s.errmsg) (drop-drop t s.taken xs);
    memory = λ q out. s.memory q out ∙ kept q out;
  }

  pub Stays-later :
      {xs : List ℕ} {n : ℕ} {m m' : Mem} {left : Machine} (t : ℕ)
      → t ≤ n
      → Kept lo len m m'
      → Stays lo len (drop t xs) (n - t) m' left
      → Stays lo len xs n m left
  Stays-later {xs} {n} t le kept s = record {
    stream = record {
      taken = t + s.stream.taken;
      bound = omega (arith, s.stream.bound);
      errmsg = s.stream.errmsg;
      same = s.stream.same ∙ ground (arith, drop-drop t s.stream.taken xs);
    };
    memory = λ q out. s.memory q out ∙ kept q out;
  }

  module _ {A : Type 0} (Post : A → Type 0) where
    Within-later :
        (d t : ℕ) (xs : List ℕ) (n : ℕ) (m m' : Mem) (r : Run Machine A)
        → t ≤ n
        → d ≤ t
        → Kept lo len m m'
        → Within lo len Post 0 (drop t xs) (n - t) m' r
        → Within lo len Post d xs n m r
    Within-later d t xs n m m' (ok a left) le low kept w =
        let e : drop (t - d) (drop d xs) ≡ drop t xs =
          drop-drop d (t - d) xs ∙ ap (λ (k : ℕ). drop k xs) (omega (arith, low)) in
        let f : n - d - (t - d) ≡ n - t - 0 = omega (arith, low) in
        (
          w.0,
          omega (arith, le, low),
          Stays-later (t - d) (omega (arith, le, low)) kept (rw (e, f) w.2),
        )
    Within-later d t xs n m m' (err left) le low kept w = Strays-later t le kept w
    Within-later d t xs n m m' fault le low kept w = w
    Within-later d t xs n m m' stuck le low kept w = w

  module _ {A B : Type 0} (P : A → Type 0) (Q : B → Type 0) where
    bind_run-Within :
        (d most : ℕ) (r : Run Machine A) (k : A → Cmd Machine B) (xs : List ℕ) (n : ℕ) (m : Mem)
        → n ≤ most
        → Holds xs n
        → Within lo len P d xs n m r
        → ((a : A) → P a → WithinCmd lo len Q 0 (most - d) (k a))
        → Within lo len Q d xs n m (and_then r k)
    bind_run-Within d most (ok a left) k xs n m small fits (p, low, s) next =
        let l = s.stream in
        let t = d + l.taken in
        let e : left.stream ≡ input (drop t xs) (n - t) l.errmsg =
          l.same ∙ ground (arith, drop-drop d l.taken xs) in
        subst (λ (u : IStream). Within lo len Q d xs n m (k a (machine u left.mem))) (sym e)
          (Within-later Q d t xs n m left.mem
            (k a (machine (input (drop t xs) (n - t) l.errmsg) left.mem))
            (omega (arith, low, l.bound)) (omega arith) s.memory
            (next a p (drop t xs) (n - t) l.errmsg left.mem (omega (arith, small))
              (Holds-drop xs n t (omega (arith, low, l.bound)) fits)))
    bind_run-Within d most (err left) k xs n m small fits w next = w
    bind_run-Within d most fault k xs n m small fits w next = w
    bind_run-Within d most stuck k xs n m small fits w next = w

    -- One part after another.
    pub bind-Within :
        (d most : ℕ) (c : Cmd Machine A) (k : A → Cmd Machine B)
        → WithinCmd lo len P d most c
        → ((a : A) → P a → WithinCmd lo len Q 0 (most - d) (k a))
        → WithinCmd lo len Q d most (c >>= k)
    bind-Within d most c k first next xs n e m small fits =
        bind_run-Within d most (c (machine (input xs n e) m)) k xs n m small fits
          (first xs n e m small fits) next

  pub ok-Within :
      {A : Type 0} (P : A → Type 0) (most : ℕ) (a : A) → P a → WithinCmd lo len P 0 most (ok a)
  ok-Within P most a p xs n e m small fits = (
    p,
    omega arith,
    record {
      stream = record { taken = 0; bound = omega arith; errmsg = e; same = ground arith };
      memory = λ q out. refl;
    },
  )

  pub refuse-Within :
      {A : Type 0} (P : A → Type 0) (d most : ℕ) (msg : Error)
      → WithinCmd lo len P d most (refuse {A = A} msg)
  refuse-Within P d most msg xs n e m small fits = record {
    taken = 0;
    limit = n;
    bound = omega arith;
    errmsg = set_error msg e;
    same = refl;
    memory = λ q out. refl;
  }
