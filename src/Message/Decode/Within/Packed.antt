-- ===== src/Message/Decode/Within/Packed.antt =====
-- A round of the loop over a packed array, and its end, within the region of a message.
use ios_college_work.Common.{
  ℕ, ◌+◌, ◌-◌, ◌%◌, ◌^◌, ◌≤◌, ◌<◌, ◌≡◌, sym, inl, inr, Bool, true, false, Bool-cases, ◌==◌,
  if◌then◌else◌, Option, ◌∙◌, List, length, drop, arith, Run, Cmd, ok, err, fault, stuck, and_then,
  ◌>>◌,
}
use mathlib.Core.Path.{subst}
use ios_college_work.Stream.Errors.{Error, set_error, array_overflow}
use ios_college_work.Stream.Input.{IStream}
use ios_college_work.Stream.Buffers.{input}
use ios_college_work.Message.Memory.{Mem, load}
use ios_college_work.Message.Decode.Machine.{Machine, machine, write, store, store-outside}
use ios_college_work.Message.Decode.Nest.{outcome}
use ios_college_work.Message.Decode.Static.{count_item, close_packed}
use ios_college_work.Message.Decode.Contained.{Kept}
use ios_college_work.Stream.Safe.{drop-drop}
use ios_college_work.Message.Decode.Within.{
  Holds, Within, Any, Stays-later, Strays-later, Holds-drop,
}
use ios_college_work.Message.Decode.Within.Substream.{Ended, Framed, close-Framed, parent-Strays}

module _ (lo len : ℕ) where
  Ended-later :
      (t : ℕ) (xs : List ℕ) (n : ℕ) (m m' : Mem) (r : Run Machine Bool)
      → t ≤ n
      → Kept lo len m m'
      → Ended lo len (drop t xs) (n - t) m' r
      → Ended lo len xs n m r
  Ended-later t xs n m m' (ok true s) le kept w = Stays-later lo len t le kept w
  Ended-later t xs n m m' (ok false s) le kept w = Strays-later lo len t le kept w
  Ended-later t xs n m m' (err s) le kept w = w
  Ended-later t xs n m m' fault le kept w = w
  Ended-later t xs n m m' stuck le kept w = w

  module _ (p_size : ℕ) (place : (lo ≤ p_size) × (p_size + 4 ≤ lo + len))
      (more : Cmd Machine Bool) where
    -- A round of the packed loop: an item of a byte at least, its count, and the rest.
    pub round-Ended :
        (xs : List ℕ) (n : ℕ) (m : Mem) (r : Run Machine (Unit {0}))
        → Holds xs n
        → ((ys : List ℕ) (k : ℕ) (e : Option Error) (m' : Mem)
            → k < n
            → Holds ys k
            → Ended lo len ys k m' (more (machine (input ys k e) m')))
        → Within lo len (Any {A = Unit {0}}) 1 xs n m r
        → Ended lo len xs n m (
            and_then
              (outcome r)
              (λ status. if status then (count_item p_size >> more) else ok false))
    unfolding outcome count_item write
    round-Ended xs n m (ok _ left) held next (_, low, s) =
        let l = s.stream in
        let t = 1 + l.taken in
        let size = load left.mem p_size 4 in
        let m' = store left.mem p_size 4 ((size + 1) % 2 ^ 32) in
        let same : left.stream ≡ input (drop t xs) (n - t) l.errmsg =
          l.same ∙ ground (arith, drop-drop 1 l.taken xs) in
        subst
          (λ (u : IStream). Ended lo len xs n m ((count_item p_size >> more) (machine u left.mem)))
          (sym same)
          (Ended-later t xs n m m' (more (machine (input (drop t xs) (n - t) l.errmsg) m'))
            (omega (arith, low, l.bound))
            (λ q out.
              store-outside left.mem p_size 4 ((size + 1) % 2 ^ 32) q (ground (arith, place, out))
              ∙ s.memory q out)
            (next (drop t xs) (n - t) l.errmsg m' (omega (arith, low))
              (Holds-drop xs n t (omega (arith, low, l.bound)) held)))
    round-Ended xs n m (err left) held next w = w
    round-Ended xs n m fault held next w = absurd w
    round-Ended xs n m stuck held next w = absurd w

  pub close_packed-Framed :
      (ys : List ℕ) (size rest : ℕ) (e : Option Error) (m : Mem) (r : Run Machine Bool)
      → size + rest ≤ length ys
      → Ended lo len ys size m r
      → Framed lo len ys size rest m (close_packed (input ys rest e) r)
  unfolding close_packed
  close_packed-Framed ys size rest e m (ok status s) fits w =
      elim (Bool-cases (s.stream.bytes_left == 0)) [
        | inl t ↦ rw t (close-Framed lo len ys size rest e m (ok status s) fits w)
        | inr t ↦ rw t (
            parent-Strays lo len ys size rest (set_error array_overflow e) m s.mem
              (ended_memory status w))
      ]
    where
      ended_memory : (status' : Bool) → Ended lo len ys size m (ok status' s) → Kept lo len m s.mem
      ended_memory true v = v.memory
      ended_memory false v = v.memory
  close_packed-Framed ys size rest e m (err s) fits w = absurd w
  close_packed-Framed ys size rest e m fault fits w = absurd w
  close_packed-Framed ys size rest e m stuck fits w = absurd w
