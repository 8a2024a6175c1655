-- ===== src/Message/Decode/Trip/Feed.antt =====
-- The loop of `pb_decode_noinit` over the fields that an encoder has written, one after the other.
use ios_college_work.Common.{
  ℕ, suc, ◌+◌, ◌*◌, ◌≤◌, ◌<◌, ◌≡◌, ◌≢◌, refl, ◌∙◌, ◌⊎◌, Option, List, [], ◌++◌, length,
  length-append, arith, ok,
}
use mathlib.Core.Path.{subst}
use mathlib.Core.List.{append_assoc}
use native.Mathlib.Decide.{dec_lt}
use ios_college_work.Stream.Errors.{Error}
use ios_college_work.Stream.Buffers.{input}
use ios_college_work.Wire.Varint.{length-groups}
use ios_college_work.Wire.Fields.Tag.{IsTag, tag_bytes}
use ios_college_work.Message.Memory.{Mem}
use ios_college_work.Message.Field.{Field, field_at, pb_htype, htype_required}
use ios_college_work.Message.Iter.{FieldIter}
use ios_college_work.Message.Iter.Walk.{field_at-All}
use ios_college_work.Message.Decode.Machine.{machine}
use ios_college_work.Message.Decode.Env.{DecodeEnv, Nested}
use ios_college_work.Message.Decode.Fields.{decode_field}
use ios_college_work.Message.Decode.Messages.{decode_fields, tagged_field}
use ios_college_work.Message.Decode.Trip.Walk.{walk}
use ios_college_work.Message.Decode.Trip.Takes.{Kept, Local, Takes}
use ios_college_work.Message.Decode.Trip.Count.{seen_at}
use ios_college_work.Message.Decode.Trip.Loop.{loop-round, loop-end, fuel-suc}
use ios_college_work.Message.Decode.Trip.Rounds.{IsSimple, Seen, Seen-skip, round-Takes}

-- The fields of a message: what each of them needs of the memory and says of it, and the bytes that it
-- stands on.
module _ (fields : List Field) (dest : ℕ) (simple : IsSimple fields) (depth : ℕ) (env : DecodeEnv)
    (noinit : Nested) (lo hi : ℕ → ℕ) (Ready Same : ℕ → Mem → Type 0) where
  -- What the encoder leaves for an entry, and that the decoder takes it.
  pub data Chunk (k : ℕ) : List ℕ → Type 0 where
    present :
        (w : ℕ) (bs : List ℕ)
        → IsTag w (field_at fields k).tag
        → Takes
            (decode_field depth env noinit w (walk fields dest k))
            bs
            (lo k)
            (hi k)
            (Ready k)
            (Same k)
        → Chunk k (tag_bytes w (field_at fields k).tag ++ bs)
    absent :
        pb_htype (field_at fields k).type ≢ htype_required
        → ((m : Mem) → Ready k m → Same k m)
        → Chunk k []

  -- The entries stand apart, and are a matter of their own bytes.
  pub record IsApart : Type 0 where
    pub apart :
        (i k : ℕ)
        → i ≢ k
        → i < length fields
        → k < length fields
        → (q : ℕ) → lo i ≤ q
        → q < hi i
        → (q < lo k) ⊎ (hi k ≤ q)
    pub ready : (k : ℕ) → k < length fields → Local (lo k) (hi k) (Ready k)
    pub same : (k : ℕ) → k < length fields → Local (lo k) (hi k) (Same k)

  -- The loop from an entry on.
  pub record Fed (k : ℕ) (bs : List ℕ) (iter : FieldIter) (ws : List ℕ) (range : ℕ) : Type 0 where
    pub at : FieldIter
    pub bitmap : List ℕ
    pub range_at : ℕ
    pub seen : Seen fields dest (length fields) at bitmap
    pub runs :
        (m : Mem)
        → ((i : ℕ) → k ≤ i → i < length fields → Ready i m)
        → (fuel : ℕ) (rest : List ℕ) (e : Option Error) → length bs < fuel
        → (after : Mem) × (decode_fields fuel
              (tagged_field depth env noinit)
              (seen_at iter ws range)
              (machine (input (bs ++ rest) (length bs) e) m)
            ≡ ok (seen_at at bitmap range_at) (machine (input rest 0 e) after))
          × ((q : ℕ)
              → ((i : ℕ) → k ≤ i → i < length fields → (q < lo i) ⊎ (hi i ≤ q))
              → after q ≡ m q)
          × ((i : ℕ) → k ≤ i → i < length fields → Same i after)

  pub Fed-end :
      (iter : FieldIter) (ws : List ℕ) (range : ℕ)
      → Seen fields dest (length fields) iter ws
      → Fed (length fields) [] iter ws range
  Fed-end iter ws range seen = record {
    at = iter;
    bitmap = ws;
    range_at = range;
    seen = seen;
    runs = λ m ready fuel rest e enough. (
      m,
      loop-end fuel (tagged_field depth env noinit) (seen_at iter ws range) rest e m
          (omega (arith, enough)),
      (λ q out. refl),
      λ i le lt. absurd (omega (arith, le, lt)),
    );
  }

  module _ (is : IsApart) (k : ℕ) (lt : k < length fields) where
    -- The entry is the same after the ones behind it.
    same-after :
        (m after : Mem)
        → ((q : ℕ)
            → ((i : ℕ) → suc k ≤ i → i < length fields → (q < lo i) ⊎ (hi i ≤ q))
            → after q ≡ m q)
        → Same k m
        → Same k after
    same-after m after kept = is.same k lt m after λ q le under. kept q (λ i behind within.
        is.apart k i (λ e. absurd (omega (arith, e, behind))) lt within q le under)

    -- The entries behind it are ready, after the entry.
    ready-after :
        (m after : Mem)
        → Kept (lo k) (hi k) m after
        → ((i : ℕ) → k ≤ i → i < length fields → Ready i m)
        → (i : ℕ) → suc k ≤ i
        → i < length fields
        → Ready i after
    ready-after m after kept ready i behind within =
        is.ready i within m after
          (λ q le under.
            kept q (is.apart i k (λ e. absurd (omega (arith, e, behind))) within lt q le under))
          (ready i (omega (arith, behind)) within)

    from-k :
        {P : ℕ → Type 0}
        → P k
        → ((i : ℕ) → suc k ≤ i → i < length fields → P i)
        → (i : ℕ) → k ≤ i
        → i < length fields
        → P i
    from-k {P} here behind i le within = elim (dec_lt k i) [
      | yes h ↦ behind i h within
      | no h ↦ let e : k ≡ i = omega (arith, h, le) in subst P e here
    ]

    Fed-absent :
        {bs : List ℕ} {iter : FieldIter} {ws : List ℕ} {range : ℕ}
        → ((m : Mem) → Ready k m → Same k m)
        → Fed (suc k) bs iter ws range
        → Fed k bs iter ws range
    Fed-absent same fed = record {
      at = fed.at;
      bitmap = fed.bitmap;
      range_at = fed.range_at;
      seen = fed.seen;
      runs = λ m ready fuel rest e enough.
          let (after, run, kept, sames) =
            fed.runs m (λ i le. ready i (omega (arith, le))) fuel rest e enough in
          (
            after,
            run,
            (λ q out. kept q (λ i le. out i (omega (arith, le)))),
            from-k {P = λ i. Same i after}
                (same-after m after kept (same m (ready k (omega arith) lt))) sames,
          );
    }

    Fed-present :
        {bs cs : List ℕ} {w : ℕ} {iter : FieldIter} {ws : List ℕ} {range : ℕ}
        → IsTag w (field_at fields k).tag
        → Takes
            (decode_field depth env noinit w (walk fields dest k))
            bs
            (lo k)
            (hi k)
            (Ready k)
            (Same k)
        → Seen fields dest k iter ws
        → ((vs : List ℕ)
            → Seen fields dest (suc k) (walk fields dest k) vs
            → Fed (suc k) cs (walk fields dest k) vs range)
        → Fed k ((tag_bytes w (field_at fields k).tag ++ bs) ++ cs) iter ws range
    Fed-present {bs = bs} {cs = cs} {w = w} {iter = iter} {ws = ws} {range = range} tag takes seen
          next =
        let (vs, seen', run) =
          round-Takes fields dest simple k lt depth env noinit w bs (lo k) (hi k) takes seen in
        let fed = next vs seen' in
        record {
          at = fed.at;
          bitmap = fed.bitmap;
          range_at = fed.range_at;
          seen = fed.seen;
          runs = λ m ready fuel rest e enough.
              let (f, up) = fuel-suc fuel (omega (arith, enough)) in
              let (m1, r1, kept1, same1) =
                run range m (ready k (omega arith) lt) (cs ++ rest) (length cs) e in
              let (m2, r2, kept2, same2) =
                fed.runs m1 (ready-after m m1 kept1 ready) f rest e
                  (omega (arith, up, enough, size, some_tag)) in
              (
                m2,
                rw (up, joined rest, size)
                    (loop-round f (tagged_field depth env noinit) (seen_at iter ws range) w
                        tag_number (bs ++ (cs ++ rest)) (length bs + length cs) e m tag positive
                      ∙ rw r1 r2),
                (λ q out.
                    kept2 q (λ i le. out i (omega (arith, le))) ∙ kept1 q (out k (omega arith) lt)),
                from-k {P = λ i. Same i m2} (same-after m1 m2 kept2 same1) same2,
              );
        }
      where
        tag_number : ℕ
        tag_number = (field_at fields k).tag

        some_tag : 1 ≤ length (tag_bytes w tag_number)
        some_tag = (length-groups 9 (w + tag_number * 8)).0

        positive : 0 < (field_at fields k).tag
        positive =
            let h = field_at-All (λ field. field.tag ≢ 0) fields k simple.closed lt in
            omega (arith, h)

        joined :
            (rest : List ℕ)
            → ((tag_bytes w tag_number ++ bs) ++ cs) ++ rest
              ≡ tag_bytes w tag_number ++ (bs ++ (cs ++ rest))
        joined rest =
            append_assoc (tag_bytes w tag_number ++ bs) cs rest
            ∙ append_assoc (tag_bytes w tag_number) bs (cs ++ rest)

        size :
            length ((tag_bytes w tag_number ++ bs) ++ cs)
            ≡ length (tag_bytes w tag_number) + (length bs + length cs)
        size = omega (
          arith,
          length-append (tag_bytes w tag_number ++ bs) cs,
          length-append (tag_bytes w tag_number) bs,
        )

    -- A chunk in front.
    pub Fed-Chunk :
        {bs cs : List ℕ} {iter : FieldIter} {ws : List ℕ} {range : ℕ}
        → Chunk k bs
        → Seen fields dest k iter ws
        → ((next : FieldIter) (vs : List ℕ)
            → Seen fields dest (suc k) next vs
            → Fed (suc k) cs next vs range)
        → Fed k (bs ++ cs) iter ws range
    Fed-Chunk (present w bs tag takes) seen next =
        Fed-present tag takes seen (next (walk fields dest k))
    Fed-Chunk {iter = iter} {ws = ws} (absent other same) seen next =
        Fed-absent same (next iter ws (Seen-skip fields dest simple k lt other seen))
