-- ===== src/Message/Decode/Trip/Messages.antt =====
-- Whole messages: `pb_decode_noinit` on what `pb_encode` writes.
use ios_college_work.Common.{
  ℕ, zero, suc, ◌+◌, ◌-◌, ◌≤◌, ◌<◌, ◌≡◌, ◌≢◌, sym, ◌⊎◌, inl, inr, Option, List, [], ◌++◌, length,
  arith, ok,
}
use mathlib.Core.Path.{subst}
use native.Mathlib.Decide.{dec_lt}
use ios_college_work.Stream.Errors.{Error}
use ios_college_work.Stream.Buffers.{input}
use ios_college_work.Stream.Writes.{Writes}
use ios_college_work.Message.Memory.{Mem}
use ios_college_work.Message.Field.{Field}
use ios_college_work.Message.Encode.Env.{Env}
use ios_college_work.Message.Encode.Messages.{encode_entry, pb_encode}
use ios_college_work.Message.Encode.Contract.Items.{IsMem}
use ios_college_work.Message.Decode.Machine.{machine}
use ios_college_work.Message.Decode.Env.{DecodeEnv}
use ios_college_work.Message.Decode.Messages.{pb_decode_noinit}
use ios_college_work.Message.Decode.Trip.Walk.{walk}
use ios_college_work.Message.Decode.Trip.Takes.{Local, Took}
use ios_college_work.Message.Decode.Trip.Static.{first_byte, end_byte}
use ios_college_work.Message.Decode.Trip.Feed.{Chunk, IsApart}
use ios_college_work.Message.Decode.Trip.Whole.{
  padded, padded-nothing, Skips, nothing-Skips, encode_from-Writes, pb_decode_noinit-padded,
}
use ios_college_work.Message.Decode.Trip.Plan.{
  field_bytes, message_bytes, SameFields, IsCleared, IsTrip,
}
use ios_college_work.Message.Decode.Trip.Items.{NestedTrip}
use ios_college_work.Message.Decode.Trip.Entry.{ReadyAt, SameAt, entry-Writes, entry-Chunk}
use ios_college_work.Message.Decode.Trip.Place.{block, ReadyAt-Local, SameAt-Local}

-- Blocks that stand one behind the other.
module _ (lo hi : ℕ → ℕ) (count : ℕ) (up : (k : ℕ) → k < count → lo k ≤ hi k)
    (next : (k : ℕ) → suc k < count → hi k ≤ lo (suc k)) where
  before : (i k : ℕ) → i < k → k < count → hi i ≤ lo k
  before i zero h lt = absurd (omega (arith, h))
  before i (suc k) h lt = elim (dec_lt i k) [
    | yes g ↦ omega (arith, before i k g (omega (arith, lt)), up k (omega (arith, lt)), next k lt)
    | no g ↦ let e : i ≡ k = omega (arith, g, h) in rw e (next k lt)
  ]

  first : (k : ℕ) → k < count → lo 0 ≤ lo k
  first zero lt = omega arith
  first (suc k) lt = omega (arith, first k (omega (arith, lt)), up k (omega (arith, lt)), next k lt)

  apart :
      (i k : ℕ)
      → i ≢ k
      → i < count
      → k < count
      → (q : ℕ) → lo i ≤ q
      → q < hi i
      → (q < lo k) ⊎ (hi k ≤ q)
  apart i k other lti ltk q le under = elim (dec_lt i k) [
    | yes g ↦ inl (omega (arith, before i k g ltk, under))
    | no g ↦ inr (omega (arith, before k i (omega (arith, g, other)) lti, le))
  ]

  last : (top : ℕ) → ((k : ℕ) → suc k ≡ count → hi k ≤ top) → (k : ℕ) → k < count → hi k ≤ top
  last top end k lt = elim (dec_lt (suc k) count) [
    | yes g ↦ omega (
      arith,
      before k (count - 1) (omega (arith, g)) (omega (arith, g)),
      up (count - 1) (omega (arith, g)),
      end (count - 1) (omega (arith, g)),
    )
    | no g ↦ end k (omega (arith, g, lt))
  ]

module _ {m : Mem} (mem : IsMem m) (env : Env) (denv : DecodeEnv)
    (tables : (p : ℕ) → denv.table p ≡ env.table p) where
  abbrev pub IsNested : ℕ → Type 0
  IsNested depth =
      NestedTrip (IsTrip depth env.table m) (message_bytes depth env.table m)
        (IsCleared depth env.table) (SameFields depth env.table m) (pb_encode depth env m)
        (pb_decode_noinit depth denv)

  module _ (depth : ℕ) (nested : IsNested depth) (fields : List Field) (src dest top : ℕ)
      (trip : IsTrip (suc depth) env.table m fields src dest top) where
    abbrev pub lo : ℕ → ℕ
    lo k = first_byte (walk fields dest k)

    abbrev pub hi : ℕ → ℕ
    hi k = end_byte (walk fields dest k)

    abbrev pub chunk : ℕ → List ℕ
    chunk k = field_bytes depth env.table m fields src k

    message-Writes :
        Writes
          (pb_encode (suc depth) env m fields src)
          (message_bytes (suc depth) env.table m fields src)
    unfolding pb_encode
    message-Writes =
        encode_from-Writes fields trip.0 chunk src
          (encode_entry depth env (pb_encode depth env m) m)
          (λ k lt.
            entry-Writes mem env denv tables (IsTrip depth env.table m)
              (message_bytes depth env.table m) (IsCleared depth env.table)
              (SameFields depth env.table m) (pb_encode depth env m) (pb_decode_noinit depth denv)
              nested fields src dest trip.0 k lt (trip.2 k lt) depth)
          trip.1

    up : (k : ℕ) → k < length fields → lo k ≤ hi k
    up k lt =
        let (start, end, size) =
          block mem env denv tables (IsTrip depth env.table m) (message_bytes depth env.table m)
            (IsCleared depth env.table) (SameFields depth env.table m) (pb_encode depth env m)
            (pb_decode_noinit depth denv) nested fields src dest trip.0 k lt (trip.2 k lt) in
        omega (arith, start, end)

    pub inside : (k : ℕ) → k < length fields → (dest ≤ lo k) × (hi k ≤ top)
    inside k lt = (
      omega (arith, trip.3, first lo hi (length fields) up trip.4 k lt),
      last lo hi (length fields) up trip.4 top trip.5 k lt,
    )

    pub fields-IsApart :
        IsApart fields dest trip.0 depth denv
          (pb_decode_noinit depth denv)
          lo
          hi
          (ReadyAt env.table fields dest (IsCleared depth env.table))
          (SameAt env.table fields dest (SameFields depth env.table m) m src)
    fields-IsApart = record {
      apart = apart lo hi (length fields) up trip.4;
      ready = λ k lt.
          ReadyAt-Local mem env denv tables (IsTrip depth env.table m)
            (message_bytes depth env.table m) (IsCleared depth env.table)
            (SameFields depth env.table m) (pb_encode depth env m) (pb_decode_noinit depth denv)
            nested fields src dest trip.0 k lt (trip.2 k lt);
      same = λ k lt.
          SameAt-Local mem env denv tables (IsTrip depth env.table m)
            (message_bytes depth env.table m) (IsCleared depth env.table)
            (SameFields depth env.table m) (pb_encode depth env m) (pb_decode_noinit depth denv)
            nested fields src dest trip.0 k lt (trip.2 k lt);
    }

    pub chunks_taken :
        (k : ℕ)
        → k < length fields
        → Chunk fields dest trip.0 depth denv
            (pb_decode_noinit depth denv)
            lo
            hi
            (ReadyAt env.table fields dest (IsCleared depth env.table))
            (SameAt env.table fields dest (SameFields depth env.table m) m src)
            k
            (chunk k)
    chunks_taken k lt =
        entry-Chunk mem env denv tables (IsTrip depth env.table m) (message_bytes depth env.table m)
          (IsCleared depth env.table) (SameFields depth env.table m) (pb_encode depth env m)
          (pb_decode_noinit depth denv) nested fields src dest trip.0 k lt (trip.2 k lt) depth

    -- With other fields in between that are skipped.
    pub padded-Took :
        (gap : ℕ → List ℕ)
        → Skips fields trip.0 chunk dest depth denv lo hi
            (ReadyAt env.table fields dest (IsCleared depth env.table))
            (SameAt env.table fields dest (SameFields depth env.table m) m src)
            fields-IsApart
            chunks_taken
            gap
        → (m' : Mem) → IsCleared (suc depth) env.table fields dest m'
        → (rest : List ℕ) (e : Option Error)
        → Took
            (pb_decode_noinit (suc depth) denv fields dest)
            (padded gap chunk (length fields) 0)
            dest
            top
            (SameFields (suc depth) env.table m fields src dest)
            m'
            rest
            0
            e
    padded-Took gap skips m' ready rest e =
        let (after, run, kept, same) =
          pb_decode_noinit-padded fields trip.0 chunk dest depth denv lo hi
            (ReadyAt env.table fields dest (IsCleared depth env.table))
            (SameAt env.table fields dest (SameFields depth env.table m) m src) fields-IsApart
            chunks_taken gap skips trip.1 m' ready rest e in
        record {
          after = after;
          runs =
              subst
                (λ (n : ℕ).
                  pb_decode_noinit (suc depth) denv fields dest
                    (machine (input (padded gap chunk (length fields) 0 ++ rest) n e) m')
                  ≡ ok tt (machine (input rest 0 e) after))
                (sym (no_more (length (padded gap chunk (length fields) 0)))) run;
          kept = λ q out. kept q (λ i lt. let at = inside i lt in ground (arith, at, out));
          same = same;
        }
      where
        no_more : (n : ℕ) → n + 0 ≡ n
        no_more n = omega arith

    message-Took :
        (m' : Mem)
        → IsCleared (suc depth) env.table fields dest m'
        → (rest : List ℕ) (e : Option Error)
        → Took
            (pb_decode_noinit (suc depth) denv fields dest)
            (message_bytes (suc depth) env.table m fields src)
            dest
            top
            (SameFields (suc depth) env.table m fields src dest)
            m'
            rest
            0
            e
    message-Took m' ready rest e =
        subst
          (λ (bs : List ℕ).
            Took (pb_decode_noinit (suc depth) denv fields dest) bs dest top
              (SameFields (suc depth) env.table m fields src dest) m' rest 0 e)
          (padded-nothing chunk (length fields) 0)
          (padded-Took (λ _. [])
            (nothing-Skips fields trip.0 chunk dest depth denv lo hi
              (ReadyAt env.table fields dest (IsCleared depth env.table))
              (SameAt env.table fields dest (SameFields depth env.table m) m src) fields-IsApart
              chunks_taken)
            m' ready rest e)

    ready-Local : Local dest top (IsCleared (suc depth) env.table fields dest)
    ready-Local m1 m2 agree ready k lt =
        let at = inside k lt in
        fields-IsApart.ready k lt m1 m2
          (λ q le under. agree q (omega (arith, at, le)) (omega (arith, at, under))) (ready k lt)

    same-Local : Local dest top (SameFields (suc depth) env.table m fields src dest)
    same-Local m1 m2 agree same k lt =
        let at = inside k lt in
        fields-IsApart.same k lt m1 m2
          (λ q le under. agree q (omega (arith, at, le)) (omega (arith, at, under))) (same k lt)

  pub messages-NestedTrip : (depth : ℕ) → IsNested depth
  messages-NestedTrip zero = record {
    writes = λ fields src dest top good. absurd good;
    takes = λ fields src dest top good. absurd good;
    ready = λ fields src dest top good. absurd good;
    same = λ fields src dest top good. absurd good;
  }
  messages-NestedTrip (suc depth) = record {
    writes = message-Writes depth (messages-NestedTrip depth);
    takes = message-Took depth (messages-NestedTrip depth);
    ready = ready-Local depth (messages-NestedTrip depth);
    same = same-Local depth (messages-NestedTrip depth);
  }
