-- ===== src/Message/Decode/Within/Rounds.antt =====
-- The loop over the fields of a message within its region.
use ios_college_work.Common.{
  ℕ, zero, suc, ◌+◌, ◌-◌, ◌^◌, ◌≤◌, ◌<◌, ◌≡◌, refl, sym, ◌∙◌, inl, inr, Bool, true, false,
  Bool-cases, ◌==◌, if◌then◌else◌, List, drop, arith, Run, Cmd, ok, err, fault, stuck, ◌>>=◌,
  and_then,
}
use mathlib.Core.Path.{subst}
use ios_college_work.Stream.Input.{IStream}
use ios_college_work.Stream.Buffers.{input}
use ios_college_work.Stream.Safe.{drop-drop}
use ios_college_work.Wire.Decode.{Header, pb_decode_tag}
use ios_college_work.Message.Memory.{Mem}
use ios_college_work.Message.Decode.Machine.{Machine, machine, on_stream}
use ios_college_work.Message.Decode.Contained.{Stays}
use ios_college_work.Message.Decode.Messages.{Progress, decode_fields}
use ios_college_work.Message.Decode.Within.{
  Holds, Within, WithinCmd, Stays-Strays, Within-later, Holds-drop, bind-Within, ok-Within,
}
use ios_college_work.Message.Decode.Within.Tags.{Tagged, pb_decode_tag-Tagged}

module _ (lo len : ℕ) (Good : Progress → Type 0) (body : Header → Progress → Cmd Machine Progress)
    (each : (header : Header) (prog : Progress) (most : ℕ)
      → Good prog
      → header.tag < 2 ^ 29
      → WithinCmd lo len Good 0 most (body header prog)) where
  -- A round behind its tag.
  abbrev behind_tag :
      (more : Progress → Cmd Machine Progress) → Progress → Header → Cmd Machine Progress
  behind_tag more prog header =
      if header.success then (body header prog >>= more) else if header.eof then ok prog else err

  -- A run that goes on behind `t` bytes.
  from-Within :
      (t : ℕ) (xs : List ℕ) (n : ℕ) (m : Mem) (left : Machine) (c : Cmd Machine Progress)
      → t ≤ n
      → Holds xs n
      → Stays lo len (drop t xs) (n - t) m left
      → WithinCmd lo len Good 0 (n - t) c
      → Within lo len Good 0 xs n m (c left)
  from-Within t xs n m left c le held s within =
      let l = s.stream in
      let u = t + l.taken in
      let same : left.stream ≡ input (drop u xs) (n - u) l.errmsg =
        l.same ∙ ground (arith, drop-drop t l.taken xs) in
      subst (λ (v : IStream). Within lo len Good 0 xs n m (c (machine v left.mem))) (sym same)
        (Within-later lo len Good 0 u xs n m left.mem
          (c (machine (input (drop u xs) (n - u) l.errmsg) left.mem)) (omega (arith, le, l.bound))
          (omega arith) s.memory
          (within (drop u xs) (n - u) l.errmsg left.mem (omega arith)
            (Holds-drop xs n u (omega (arith, le, l.bound)) held)))

  chosen-Within :
      (t : Bool) (c k : Cmd Machine Progress) (left : Machine) (xs : List ℕ) (n : ℕ) (m : Mem)
      → (t ≡ true → Within lo len Good 0 xs n m (c left))
      → (t ≡ false → Within lo len Good 0 xs n m (k left))
      → Within lo len Good 0 xs n m ((if t then c else k) left)
  chosen-Within true c k left xs n m first second = first refl
  chosen-Within false c k left xs n m first second = second refl

  round-Within :
      (more : Progress → Cmd Machine Progress) (prog : Progress) (xs : List ℕ) (n : ℕ) (m : Mem)
      (r : Run Machine Header)
      → Good prog
      → Holds xs n
      → ((p : Progress) (most : ℕ) → most < n → Good p → WithinCmd lo len Good 0 most (more p))
      → Tagged lo len xs n m r
      → Within lo len Good 0 xs n m (and_then r (behind_tag more prog))
  round-Within more prog xs n m (ok header left) good held next (tag, stays) =
      let k = n - 1 in
      chosen-Within header.success (body header prog >>= more) (if header.eof then ok prog else err)
        left xs n m
        (λ t.
          let w = tag t in
          from-Within 1 xs n m left (body header prog >>= more) w.some_left held w.stays (
            bind-Within lo len Good Good 0 k (body header prog) more (each header prog k good w.low)
              (λ p fine. next p (k - 0) (omega (arith, w.some_left)) fine)))
        (λ _.
          chosen-Within header.eof (ok prog) err left xs n m
            (λ _.
              from-Within 0 xs n m left (ok prog) (omega arith) held (rw zero_less stays)
                (ok-Within lo len Good (n - 0) prog good))
            (λ _. Stays-Strays lo len stays))
    where
      zero_less : n - 0 ≡ n
      zero_less = omega arith
  round-Within more prog xs n m (err left) good held next w = absurd w
  round-Within more prog xs n m fault good held next w = absurd w
  round-Within more prog xs n m stuck good held next w = absurd w

  pub decode_fields-Within :
      (fuel : ℕ) (prog : Progress) (most : ℕ)
      → most < fuel
      → Good prog
      → WithinCmd lo len Good 0 most (decode_fields fuel body prog)
  unfolding decode_fields
  decode_fields-Within zero prog most enough good = absurd (omega (arith, enough))
  decode_fields-Within (suc fuel) prog most enough good = λ xs n e m small held.
      elim (Bool-cases (n == 0)) [
        | inl t ↦ rw t (ok-Within lo len Good most prog good xs n e m small held)
        | inr t ↦ rw t (
            round-Within (decode_fields fuel body) prog xs n m
              (on_stream pb_decode_tag (machine (input xs n e) m)) good held
              (λ p k less fine.
                decode_fields-Within fuel p k (omega (arith, enough, less, small)) fine)
              (pb_decode_tag-Tagged lo len xs n e m held))
      ]
