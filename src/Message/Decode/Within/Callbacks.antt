-- ===== src/Message/Decode/Within/Callbacks.antt =====
-- `decode_callback_field` within the region of a message, for callbacks that stay there.
use ios_college_work.Common.{
  ℕ, zero, suc, ◌+◌, ◌-◌, ◌≤◌, ◌<◌, ◌≡◌, ◌≢◌, refl, sym, ◌∙◌, inl, inr, Bool, true, false,
  Bool-cases, ◌==◌, if◌then◌else◌, Option, none, List, length, drop, arith, Run, Cmd, ok, err,
  fault, stuck, ◌>>=◌, and_then,
}
use mathlib.Core.Path.{subst}
use ios_college_work.Stream.Errors.{Error, set_error, callback_failed}
use ios_college_work.Stream.Input.{IStream, pb_istream_from_buffer}
use ios_college_work.Stream.Buffers.{input}
use ios_college_work.Stream.Safe.{drop-drop}
use ios_college_work.Wire.Encode.{wt_string}
use ios_college_work.Wire.Decode.{pb_skip_field, pb_make_string_substream}
use ios_college_work.Wire.Safe.{pb_skip_field-Safe}
use ios_college_work.Message.Memory.{Mem, load_pointer}
use ios_college_work.Message.Field.{Field}
use ios_college_work.Message.Iter.{FieldIter, current}
use ios_college_work.Message.Decode.Machine.{Machine, machine, on_stream}
use ios_college_work.Message.Decode.Env.{DecodeEnv}
use ios_college_work.Message.Decode.Nest.{outcome}
use ios_college_work.Message.Decode.Callbacks.{
  read_raw_value, callback_rounds, close_callback, callback_body, back_to, callback_value,
  decode_callback_field,
}
use ios_college_work.Message.Decode.Within.{
  Holds, Within, WithinCmd, Any, Stays-here, Within-later, Holds-drop, bind-Within, ok-Within,
}
use ios_college_work.Message.Decode.Within.Steps.{on_stream-Within}
use ios_college_work.Message.Decode.Within.RawValue.{AllBytes, read_raw_value-Within}
use ios_college_work.Message.Decode.Within.Substream.{
  Ended, Framed, outcome-Ended, close-Framed, parent-Strays, substream-Within,
}

-- The callbacks of the application end, stay within their stream and the region, and take a byte at least
-- where there is one: otherwise their loop would not end.
abbrev pub CallbacksFit : (lo len : ℕ) → DecodeEnv → Type 0
CallbacksFit lo len env =
    (func : ℕ) (field : Field) (arg : ℕ) (xs : List ℕ) (n : ℕ) (e : Option Error) (m : Mem)
    → Holds xs n
    → Within lo len (Any {A = Unit {0}}) (if n == 0 then 0 else 1) xs n m
        (env.decode_callback func field arg (machine (input xs n e) m))

module _ (lo len : ℕ) where
  -- A round of the loop: the callback, and the rest if there is something left.
  module _ (more : Cmd Machine (Unit {0})) where
    abbrev again : Machine → Run Machine (Unit {0})
    again t = if t.stream.bytes_left == 0 then ok tt t else more t

    round-Within :
        (d : ℕ) (xs : List ℕ) (n : ℕ) (m : Mem) (r : Run Machine (Unit {0}))
        → (n ≢ 0 → d ≡ 1)
        → Holds xs n
        → ((ys : List ℕ) (k : ℕ) (e : Option Error) (m' : Mem)
            → k < n
            → Holds ys k
            → Within lo len (Any {A = Unit {0}}) 0 ys k m' (more (machine (input ys k e) m')))
        → Within lo len (Any {A = Unit {0}}) d xs n m r
        → Within lo len (Any {A = Unit {0}}) 0 xs n m (and_then r (λ _. again))
    round-Within d xs n m (ok _ left) one held next (_, low, s) =
        let l = s.stream in
        let t = d + l.taken in
        let same : left.stream ≡ input (drop t xs) (n - t) l.errmsg =
          l.same ∙ ground (arith, drop-drop d l.taken xs) in
        subst
          (λ (u : IStream).
            Within lo len (Any {A = Unit {0}}) 0 xs n m (again (machine u left.mem)))
          (sym same)
          (Within-later lo len (Any {A = Unit {0}}) 0 t xs n m left.mem
            (again (machine (input (drop t xs) (n - t) l.errmsg) left.mem))
            (omega (arith, low, l.bound)) (omega arith) s.memory
            (elim (Bool-cases ((n - t) == 0)) [
              | inl u ↦ rw u (
                  ok-Within lo len (Any {A = Unit {0}}) (n - t) tt tt (drop t xs) (n - t) l.errmsg
                    left.mem (omega arith) (Holds-drop xs n t (omega (arith, low, l.bound)) held))
              | inr u ↦ rw u (
                  next (drop t xs) (n - t) l.errmsg left.mem (ground (arith, one))
                    (Holds-drop xs n t (omega (arith, low, l.bound)) held))
            ]))
    round-Within d xs n m (err left) one held next w = w
    round-Within d xs n m fault one held next w = w
    round-Within d xs n m stuck one held next w = w

  close_callback-Framed :
      (ys : List ℕ) (size rest : ℕ) (e : Option Error) (m : Mem) (r : Run Machine Bool)
      → size + rest ≤ length ys
      → Ended lo len ys size m r
      → Framed lo len ys size rest m (close_callback (input ys rest e) r)
  unfolding close_callback
  close_callback-Framed ys size rest e m (ok true s) fits w =
      close-Framed lo len ys size rest e m (ok true s) fits w
  close_callback-Framed ys size rest e m (ok false s) fits w =
      parent-Strays lo len ys size rest (set_error callback_failed e) m s.mem w.memory
  close_callback-Framed ys size rest e m (err s) fits w = absurd w
  close_callback-Framed ys size rest e m fault fits w = absurd w
  close_callback-Framed ys size rest e m stuck fits w = absurd w

  -- The parent's stream, with the memory as the callback has left it.
  back_to-Within :
      (bs xs : List ℕ) (k n : ℕ) (e : Option Error) (m : Mem) (r : Run Machine (Unit {0})) (d : ℕ)
      → Within lo len (Any {A = Unit {0}}) d bs k m r
      → Within lo len (Any {A = Unit {0}}) 0 xs n m (back_to (input xs n e) r)
  unfolding back_to
  back_to-Within bs xs k n e m (ok _ s) d w = (
    tt,
    omega arith,
    record {
      stream = (Stays-here lo len xs (n - 0) n e m (omega arith)).stream;
      memory = w.2.memory;
    },
  )
  back_to-Within bs xs k n e m (err s) d w = record {
    taken = 0;
    limit = n;
    bound = omega arith;
    errmsg = e;
    same = refl;
    memory = w.memory;
  }
  back_to-Within bs xs k n e m fault d w = w
  back_to-Within bs xs k n e m stuck d w = w

  callback_rounds-Within :
      (callback : Cmd Machine (Unit {0}))
      → ((xs : List ℕ) (n : ℕ) (e : Option Error) (m : Mem)
          → Holds xs n
          → Within lo len
              (Any {A = Unit {0}})
              (if n == 0 then 0 else 1)
              xs
              n
              m
              (callback (machine (input xs n e) m)))
      → (fuel : ℕ) (xs : List ℕ) (n : ℕ) (e : Option Error) (m : Mem) → n < fuel
      → Holds xs n
      → Within lo len
          (Any {A = Unit {0}})
          0
          xs
          n
          m
          (callback_rounds fuel callback (machine (input xs n e) m))
  unfolding callback_rounds
  callback_rounds-Within callback fit zero xs n e m enough held = absurd (omega (arith, enough))
  callback_rounds-Within callback fit (suc fuel) xs n e m enough held =
      round-Within (callback_rounds fuel callback) (if n == 0 then 0 else 1) xs n m
        (callback (machine (input xs n e) m)) (λ some. ground (arith, some)) held
        (λ ys k e' m' less held'.
          callback_rounds-Within callback fit fuel ys k e' m' (omega (arith, enough, less)) held')
        (fit xs n e m held)

  module _ (env : DecodeEnv) (fit : CallbacksFit lo len env) (iter : FieldIter) where
    abbrev callback : Cmd Machine (Unit {0})
    callback t =
        env.decode_callback (load_pointer t.mem iter.p_data) (current iter) (iter.p_data + 8) t

    callback-fits :
        (xs : List ℕ) (n : ℕ) (e : Option Error) (m : Mem)
        → Holds xs n
        → Within lo len
            (Any {A = Unit {0}})
            (if n == 0 then 0 else 1)
            xs
            n
            m
            (callback (machine (input xs n e) m))
    callback-fits xs n e m held =
        fit (load_pointer m iter.p_data) (current iter) (iter.p_data + 8) xs n e m held

    string-Within :
        (most : ℕ)
        → WithinCmd lo len
            (Any {A = Unit {0}})
            0
            most
            (on_stream pb_make_string_substream >>= callback_body callback)
    unfolding callback_body
    string-Within most =
        substream-Within lo len most (callback_body callback) (λ ys size rest e m small held.
          close_callback-Framed ys size rest e m
            (outcome (callback_rounds (suc size) callback (machine (input ys size e) m))) held.0
            (outcome-Ended lo len ys size m
              (callback_rounds (suc size) callback (machine (input ys size e) m))
              (callback_rounds-Within callback callback-fits (suc size) ys size e m (omega arith)
                (omega (arith, held.0), held.1))))

    value-Within :
        (most : ℕ) (buffer : List ℕ)
        → AllBytes lo len buffer
        → WithinCmd lo len (Any {A = Unit {0}}) 0 most (callback_value callback buffer)
    unfolding callback_value pb_istream_from_buffer
    value-Within most buffer all xs n e m small held =
        back_to-Within buffer xs (length buffer) n e m
          (callback (machine (input buffer (length buffer) none) m))
          (if length buffer == 0 then 0 else 1)
          (callback-fits buffer (length buffer) none m (omega arith, all))

    pub decode_callback_field-Within :
        (most wire_type : ℕ)
        → WithinCmd lo len (Any {A = Unit {0}}) 0 most (decode_callback_field env wire_type iter)
    unfolding decode_callback_field
    decode_callback_field-Within most wire_type xs n e m small held =
        elim (Bool-cases (load_pointer m iter.p_data == 0)) [
          | inl t ↦ rw t (
              on_stream-Within lo len most (pb_skip_field wire_type) (pb_skip_field-Safe wire_type)
                xs n e m small held)
          | inr t ↦ elim (Bool-cases (wire_type == wt_string)) [
            | inl u ↦ rw (t, u) (string-Within most xs n e m small held)
            | inr u ↦
                rw (t, u)
                  (bind-Within lo len (AllBytes lo len) (Any {A = Unit {0}}) 0 most
                    (on_stream (read_raw_value wire_type 10)) (callback_value callback)
                    (read_raw_value-Within lo len most wire_type 10)
                    (λ buffer all. value-Within (most - 0) buffer all) xs n e m small held)
          ]
        ]
