-- ===== src/Message/Decode/Within/Substream.antt =====
-- Work on a substream: made behind a length, and closed at its end.
use ios_college_work.Common.{
  ℕ, ◌+◌, ◌-◌, ◌≤◌, ◌≡◌, refl, sym, ap, ◌∙◌, Bool, true, false, Option, List, ◌++◌, length, take,
  drop, length-drop, length-take, take-append-drop, arith, Run, Cmd, ok, err, fault, stuck, ◌>>=◌,
  and_then,
}
use mathlib.Core.Path.{subst}
use ios_college_work.Stream.Errors.{Error}
use ios_college_work.Stream.Input.{IStream, pb_read_null}
use ios_college_work.Stream.Buffers.{input, pb_read_null-input}
use ios_college_work.Stream.Safe.{drop-drop}
use ios_college_work.Wire.Decode.{pb_make_string_substream, pb_close_string_substream}
use ios_college_work.Message.Memory.{Mem}
use ios_college_work.Message.Decode.Machine.{Machine, machine, on_memory, on_stream}
use ios_college_work.Message.Decode.Nest.{outcome, returned, close}
use ios_college_work.Message.Decode.Contained.{Kept, Stays}
use ios_college_work.Message.Decode.Within.Opening.{Makes, pb_make_string_substream-Makes}
use ios_college_work.Message.Decode.Within.{Strays, Within, WithinCmd, Any, Holds, All-drop}

-- What is left of the substream is skipped.
pb_read_null-rest :
    (zs : List ℕ) (j : ℕ) (e : Option Error)
    → j ≤ length zs
    → pb_read_null j (input zs j e) ≡ ok tt (input (drop j zs) 0 e)
pb_read_null-rest zs j e h =
    let len : length (take j zs) ≡ j = omega (arith, length-take j zs, h) in
    ap (λ (ys : List ℕ). pb_read_null j (input ys j e)) (sym (take-append-drop j zs))
    ∙ subst
        (λ (k : ℕ).
          pb_read_null k (input (take j zs ++ drop j zs) k e) ≡ ok tt (input (drop j zs) 0 e))
        len
        (ap (λ (k : ℕ). pb_read_null (length (take j zs)) (input (take j zs ++ drop j zs) k e))
            (omega arith)
          ∙ pb_read_null-input (take j zs) (drop j zs) 0 e)

pb_close_string_substream-rest :
    (zs ys : List ℕ) (j k : ℕ) (e e' : Option Error)
    → j ≤ length zs
    → pb_close_string_substream (input zs j e') (input ys k e) ≡ ok tt (input (drop j zs) k e')
unfolding pb_close_string_substream
pb_close_string_substream-rest zs ys j k e e' h =
    ground (arith, pb_read_null-rest zs j e' h, ap (λ (i : ℕ). drop i zs))

-- How work on the substream ends: with its status.
abbrev pub Ended : (lo len : ℕ) (xs : List ℕ) (n : ℕ) → Mem → Run Machine Bool → Type 0
Ended lo len xs n m (ok true s) = Stays lo len xs n m s
Ended lo len xs n m (ok false s) = Strays lo len xs n m s
Ended lo len xs n m (err s) = ⊥
Ended lo len xs n m fault = ⊥
Ended lo len xs n m stuck = ⊥

-- A machine right behind the `size` bytes of a substream, with `rest` more to read.
pub record Behind (lo len : ℕ) (ys : List ℕ) (size rest : ℕ) (m : Mem) (left : Machine)
    : Type 0 where
  pub errmsg : Option Error
  pub same : left.stream ≡ input (drop size ys) rest errmsg
  pub memory : Kept lo len m left.mem

abbrev pub Framed :
    (lo len : ℕ) (ys : List ℕ) (size rest : ℕ) → Mem → Run Machine (Unit {0}) → Type 0
Framed lo len ys size rest m (ok _ s) = Behind lo len ys size rest m s
Framed lo len ys size rest m (err s) = Strays lo len ys (size + rest) m s
Framed lo len ys size rest m fault = ⊥
Framed lo len ys size rest m stuck = ⊥

module _ (lo len : ℕ) where
  pub outcome-Ended :
      (xs : List ℕ) (n : ℕ) (m : Mem) (r : Run Machine (Unit {0}))
      → Within lo len (Any {A = Unit {0}}) 0 xs n m r
      → Ended lo len xs n m (outcome r)
  unfolding outcome
  outcome-Ended xs n m (ok _ s) w = record {
    stream = record {
      taken = w.2.stream.taken;
      bound = omega (arith, w.2.stream.bound);
      errmsg = w.2.stream.errmsg;
      same = w.2.stream.same ∙ ground arith;
    };
    memory = w.2.memory;
  }
  outcome-Ended xs n m (err s) w = w
  outcome-Ended xs n m fault w = w
  outcome-Ended xs n m stuck w = w

  -- The parent as it was, if it fails without the substream.
  pub parent-Strays :
      (ys : List ℕ) (size rest : ℕ) (e : Option Error) (m m' : Mem)
      → Kept lo len m m'
      → Strays lo len ys (size + rest) m (machine (input ys rest e) m')
  parent-Strays ys size rest e m m' kept = record {
    taken = 0;
    limit = rest;
    bound = omega arith;
    errmsg = e;
    same = refl;
    memory = kept;
  }

  close_at :
      (ys zs : List ℕ) (rest j : ℕ) (e e' : Option Error) (status : Bool) (m' : Mem)
      → j ≤ length zs
      → close (input ys rest e) (ok status (machine (input zs j e') m'))
        ≡ returned status (machine (input (drop j zs) rest e') m')
  unfolding close on_memory
  close_at ys zs rest j e e' status m' h =
      rw (pb_close_string_substream-rest zs ys j rest e e' h) refl

  pub close-Framed :
      (ys : List ℕ) (size rest : ℕ) (e : Option Error) (m : Mem) (r : Run Machine Bool)
      → size + rest ≤ length ys
      → Ended lo len ys size m r
      → Framed lo len ys size rest m (close (input ys rest e) r)
  close-Framed ys size rest e m (ok true s) fits w =
      let l = w.stream in
      let zs = drop l.taken ys in
      subst
        (λ (t : IStream).
          Framed lo len ys size rest m (close (input ys rest e) (ok true (machine t s.mem))))
        (sym l.same)
        (rw
          (close_at ys zs rest (size - l.taken) e l.errmsg true s.mem
            (omega (arith, length-drop l.taken ys, fits, l.bound)))
          (unfold returned in
            record {
              errmsg = l.errmsg;
              same =
                  ap (λ (vs : List ℕ). input vs rest l.errmsg)
                    (drop-drop l.taken (size - l.taken) ys
                      ∙ ap (λ (k : ℕ). drop k ys) (omega (arith, l.bound)));
              memory = w.memory;
            }))
  close-Framed ys size rest e m (ok false s) fits w =
      let zs = drop w.taken ys in
      subst
        (λ (t : IStream).
          Framed lo len ys size rest m (close (input ys rest e) (ok false (machine t s.mem))))
        (sym w.same)
        (rw
          (close_at ys zs rest w.limit e w.errmsg false s.mem
            (omega (arith, length-drop w.taken ys, fits, w.bound)))
          (unfold returned in
            record {
              taken = w.taken + w.limit;
              limit = rest;
              bound = omega (arith, w.bound);
              errmsg = w.errmsg;
              same = ap (λ (vs : List ℕ). input vs rest w.errmsg) (drop-drop w.taken w.limit ys);
              memory = w.memory;
            }))
  close-Framed ys size rest e m (err s) fits w = absurd w
  close-Framed ys size rest e m fault fits w = absurd w
  close-Framed ys size rest e m stuck fits w = absurd w

  Framed-after :
      (xs : List ℕ) (n : ℕ) (m : Mem) (taken size rest : ℕ) (r : Run Machine (Unit {0}))
      → taken + size + rest ≡ n
      → Framed lo len (drop taken xs) size rest m r
      → Within lo len (Any {A = Unit {0}}) 0 xs n m r
  Framed-after xs n m taken size rest (ok _ s) sum w = (
    tt,
    omega arith,
    record {
      stream = record {
        taken = taken + size;
        bound = omega (arith, sum);
        errmsg = w.errmsg;
        same = w.same ∙ ground (arith, drop-drop taken size xs, sum);
      };
      memory = w.memory;
    },
  )
  Framed-after xs n m taken size rest (err s) sum w = record {
    taken = taken + w.taken;
    limit = w.limit;
    bound = omega (arith, w.bound, sum);
    errmsg = w.errmsg;
    same = w.same ∙ ap (λ (ys : List ℕ). input ys w.limit w.errmsg) (drop-drop taken w.taken xs);
    memory = w.memory;
  }
  Framed-after xs n m taken size rest fault sum w = w
  Framed-after xs n m taken size rest stuck sum w = w

  module _ (most : ℕ) (body : IStream → Cmd Machine (Unit {0}))
      (each : (ys : List ℕ) (size rest : ℕ) (e : Option Error) (m : Mem)
        → size ≤ most
        → Holds ys (size + rest)
        → Framed lo len ys size rest m (body (input ys size e) (machine (input ys rest e) m))) where
    made_run :
        (xs : List ℕ) (n : ℕ) (m : Mem) (r : Run IStream IStream)
        → n ≤ most
        → Holds xs n
        → Makes xs n r
        → Within lo len (Any {A = Unit {0}}) 0 xs n m (and_then (on_memory m r) body)
    unfolding on_memory
    made_run xs n m (ok sub parent) small fits made =
        rw (made.sub_same, made.parent_same)
          (Framed-after xs n m made.taken made.size made.rest
            (body (input (drop made.taken xs) made.size made.errmsg)
              (machine (input (drop made.taken xs) made.rest made.errmsg) m))
            made.bound
            (each (drop made.taken xs) made.size made.rest made.errmsg m
              (omega (arith, made.bound, small))
              (
                omega (arith, made.bound, length-drop made.taken xs, fits.0),
                All-drop made.taken xs fits.1,
              )))
    made_run xs n m (err s) small fits l = record {
      taken = l.taken;
      limit = n - l.taken;
      bound = omega (arith, l.bound);
      errmsg = l.errmsg;
      same = l.same;
      memory = λ q out. refl;
    }
    made_run xs n m fault small fits l = absurd l
    made_run xs n m stuck small fits l = absurd l

    -- A substream behind its length, and the work on it with the parent.
    pub substream-Within :
        WithinCmd lo len (Any {A = Unit {0}}) 0 most (on_stream pb_make_string_substream >>= body)
    unfolding on_stream
    substream-Within xs n e m small fits =
        made_run xs n m (pb_make_string_substream (input xs n e)) small fits
          (pb_make_string_substream-Makes xs n e fits.0)
