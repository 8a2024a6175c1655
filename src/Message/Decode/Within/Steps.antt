-- ===== src/Message/Decode/Within/Steps.antt =====
-- Single steps within the region of a message, and weaker promises.
use ios_college_work.Common.{
  ℕ, ◌+◌, ◌-◌, ◌≤◌, ◌≡◌, refl, sym, ap, ◌∙◌, ◌⊎◌, Bool, true, false, if◌then◌else◌, List, drop,
  arith, Run, Cmd, ok, err, fault, stuck,
}
use ios_college_work.Stream.Input.{IStream}
use ios_college_work.Stream.Buffers.{input}
use ios_college_work.Stream.Safe.{Safe, SafeCmd, drop-drop}
use ios_college_work.Message.Memory.{Mem}
use ios_college_work.Message.Decode.Machine.{
  Machine, machine, on_memory, on_stream, write, store-outside,
}
use ios_college_work.Message.Decode.Contained.{Contained, ContainedCmd}
use ios_college_work.Message.Decode.Within.{Within, WithinCmd, Any, Stays-later}

module _ (lo len : ℕ) where
  -- A run with a smaller region, and a larger promise.
  pub Contained-Within :
      {A : Type 0} (p k : ℕ) (xs : List ℕ) (n : ℕ) (m : Mem) (r : Run Machine A)
      → (k ≡ 0) ⊎ ((lo ≤ p) × (p + k ≤ lo + len))
      → Contained p k xs n m r
      → Within lo len (Any {A = A}) 0 xs n m r
  Contained-Within p k xs n m (ok a left) inside s = (
    tt,
    omega arith,
    record {
      stream = record {
        taken = s.stream.taken;
        bound = omega (arith, s.stream.bound);
        errmsg = s.stream.errmsg;
        same = s.stream.same ∙ ground arith;
      };
      memory = λ q out. s.memory q (ground (arith, inside, out));
    },
  )
  Contained-Within p k xs n m (err left) inside s = record {
    taken = s.stream.taken;
    limit = n - s.stream.taken;
    bound = omega (arith, s.stream.bound);
    errmsg = s.stream.errmsg;
    same = s.stream.same;
    memory = λ q out. s.memory q (ground (arith, inside, out));
  }
  Contained-Within p k xs n m fault inside s = s
  Contained-Within p k xs n m stuck inside s = s

  on_memory-Within :
      {A : Type 0} (xs : List ℕ) (n : ℕ) (m : Mem) (r : Run IStream A)
      → Safe xs n r
      → Within lo len (Any {A = A}) 0 xs n m (on_memory m r)
  unfolding on_memory
  on_memory-Within xs n m (ok a s) l = (
    tt,
    omega arith,
    record {
      stream = record {
        taken = l.taken;
        bound = omega (arith, l.bound);
        errmsg = l.errmsg;
        same = l.same ∙ ground arith;
      };
      memory = λ q out. refl;
    },
  )
  on_memory-Within xs n m (err s) l = record {
    taken = l.taken;
    limit = n - l.taken;
    bound = omega (arith, l.bound);
    errmsg = l.errmsg;
    same = l.same;
    memory = λ q out. refl;
  }
  on_memory-Within xs n m fault l = l
  on_memory-Within xs n m stuck l = l

  pub on_stream-Within :
      {A : Type 0} (most : ℕ) (c : Cmd IStream A)
      → SafeCmd c
      → WithinCmd lo len (Any {A = A}) 0 most (on_stream c)
  unfolding on_stream
  on_stream-Within most c safe xs n e m small fits =
      on_memory-Within xs n m (c (input xs n e)) (safe xs n e fits.0)

  pub write-Within :
      (most p width value : ℕ)
      → (width ≡ 0) ⊎ ((lo ≤ p) × (p + width ≤ lo + len))
      → WithinCmd lo len (Any {A = Unit {0}}) 0 most (write p width value)
  unfolding write
  write-Within most p width value inside xs n e m small fits = (
    tt,
    omega arith,
    record {
      stream = record { taken = 0; bound = omega arith; errmsg = e; same = ground arith };
      memory = λ q out. store-outside m p width value q (ground (arith, inside, out));
    },
  )

  pub if-Within :
      {A : Type 0} (P : A → Type 0) (d most : ℕ) (t : Bool) (c k : Cmd Machine A)
      → (t ≡ true → WithinCmd lo len P d most c)
      → (t ≡ false → WithinCmd lo len P d most k)
      → WithinCmd lo len P d most (λ s. if t then c s else k s)
  if-Within P d most true c k first second = first refl
  if-Within P d most false c k first second = second refl

  -- More than was promised, and for fewer buffers.
  Within-less :
      {A : Type 0} (P : A → Type 0) (d d' : ℕ) (xs : List ℕ) (n : ℕ) (m : Mem) (r : Run Machine A)
      → d' ≤ d
      → Within lo len P d xs n m r
      → Within lo len P d' xs n m r
  Within-less P d d' xs n m (ok a left) le (p, low, s) =
      let e : drop d xs ≡ drop (d - d') (drop d' xs) =
        sym (drop-drop d' (d - d') xs ∙ ap (λ (k : ℕ). drop k xs) (omega (arith, le))) in
      let f : n - d ≡ n - d' - (d - d') = omega (arith, le) in
      (
        p,
        omega (arith, low, le),
        Stays-later lo len (d - d') (omega (arith, low, le)) (λ q out. refl) (rw (e, f) at s),
      )
  Within-less P d d' xs n m (err left) le w = w
  Within-less P d d' xs n m fault le w = w
  Within-less P d d' xs n m stuck le w = w

  pub less-Within :
      {A : Type 0} (P : A → Type 0) (d d' most most' : ℕ) (c : Cmd Machine A)
      → d' ≤ d
      → most' ≤ most
      → WithinCmd lo len P d most c
      → WithinCmd lo len P d' most' c
  less-Within P d d' most most' c less le w xs n e m small fits =
      Within-less P d d' xs n m (c (machine (input xs n e) m)) less
        (w xs n e m (omega (arith, le, small)) fits)

  Within-weaken :
      {A : Type 0} (P Q : A → Type 0) (d : ℕ) (xs : List ℕ) (n : ℕ) (m : Mem) (r : Run Machine A)
      → ((a : A) → P a → Q a)
      → Within lo len P d xs n m r
      → Within lo len Q d xs n m r
  Within-weaken P Q d xs n m (ok a left) imp (p, low, s) = (imp a p, low, s)
  Within-weaken P Q d xs n m (err left) imp w = w
  Within-weaken P Q d xs n m fault imp w = w
  Within-weaken P Q d xs n m stuck imp w = w

  pub weaken-Within :
      {A : Type 0} (P Q : A → Type 0) (d most : ℕ) (c : Cmd Machine A)
      → ((a : A) → P a → Q a)
      → WithinCmd lo len P d most c
      → WithinCmd lo len Q d most c
  weaken-Within P Q d most c imp w xs n e m small fits =
      Within-weaken P Q d xs n m (c (machine (input xs n e) m)) imp (w xs n e m small fits)

  -- A field decoder with its place in the region.
  pub field-Within :
      {A : Type 0} (p k most : ℕ) (c : Cmd Machine A)
      → (k ≡ 0) ⊎ ((lo ≤ p) × (p + k ≤ lo + len))
      → ContainedCmd p k c
      → WithinCmd lo len (Any {A = A}) 0 most c
  field-Within p k most c inside contained xs n e m small fits =
      Contained-Within p k xs n m (c (machine (input xs n e) m)) inside (contained xs n e m fits.0)
