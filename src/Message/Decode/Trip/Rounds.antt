-- ===== src/Message/Decode/Trip/Rounds.antt =====
-- A round of `pb_decode_noinit` on a field that the encoder has written, where the fields before it have come.
use ios_college_work.Common.{
  ℕ, suc, ◌+◌, ◌<◌, ◌≡◌, ◌≢◌, refl, inl, inr, Bool, true, false, Bool-cases, ◌==◌, ◌||◌, Option,
  List, [], ◌∷◌, ◌++◌, length, All, arith, ok, ne→==,
}
use native.Mathlib.Decide.{dec_lt}
use ios_college_work.Stream.Errors.{Error}
use ios_college_work.Stream.Buffers.{input}
use ios_college_work.Wire.Fields.Tag.{header}
use ios_college_work.Message.Memory.{Mem}
use ios_college_work.Message.Field.{
  Field, field_at, pb_ltype, pb_htype, ltype_extension, htype_required, htype_oneof,
}
use ios_college_work.Message.Iter.{FieldIter}
use ios_college_work.Message.Iter.Walk.{field_at-All}
use ios_college_work.Message.Iter.Find.{IsClosed}
use ios_college_work.Message.Decode.Machine.{Machine, machine}
use ios_college_work.Message.Decode.Env.{DecodeEnv, Nested}
use ios_college_work.Message.Decode.Fields.{decode_field}
use ios_college_work.Message.Decode.Messages.{mark_seen, known_field, tagged_field}
use ios_college_work.Message.Decode.Required.{has, indices, mark_each, IsRequired}
use ios_college_work.Message.Decode.Required.One.{mark_seen-one}
use ios_college_work.Message.Decode.Trip.Walk.{
  walk, IsWalk, IsWalk-begin, walk-IsWalk, walk-pos, walk-find, HasDistinctTags,
}
use ios_college_work.Message.Decode.Trip.Takes.{Kept, Takes}
use ios_college_work.Message.Decode.Trip.Count.{
  seen_at, required_before, required_before-le, walk-current, walk-index,
}

-- A table that is read in its order: no terminator inside, no oneof, no entry for extensions, every tag once, and
-- a number of required fields that the bitmap has room for.
pub record IsSimple (fields : List Field) : Type 0 where
  pub closed : IsClosed fields
  pub no_oneof : All (λ field. pb_htype field.type ≢ htype_oneof) fields
  pub no_extension : All (λ field. pb_ltype field.type ≢ ltype_extension) fields
  pub distinct : HasDistinctTags fields
  pub few : required_before fields (length fields) < 64
  pub other : required_before fields (length fields) ≢ 32

-- The bitmap with the required fields of the first `k` entries.
pub record Seen (fields : List Field) (dest k : ℕ) (iter : FieldIter) (ws : List ℕ) : Type 0 where
  pub on_walk : IsWalk fields dest iter
  pub within : iter.pos < length fields
  pub visited : List FieldIter
  pub all :
      All
        (λ seen.
          IsRequired seen × (seen.required_field_index < required_before fields (length fields)))
        visited
  pub marks : (s : Machine) → mark_each visited s ≡ ok ws s
  pub covered : (j : ℕ) → j < required_before fields k → has j (indices visited) ≡ true

or-right : (t : Bool) {u : Bool} → u ≡ true → (t || u) ≡ true
or-right true e = refl
or-right false e = e

or-left : (u : Bool) {t : Bool} → t ≡ true → (t || u) ≡ true
or-left u e = rw e refl

module _ (fields : List Field) (dest : ℕ) (simple : IsSimple fields) where
  pub Seen-begin : 0 < length fields → Seen fields dest 0 (walk fields dest 0) (0 ∷ 0 ∷ [])
  Seen-begin some_left = record {
    on_walk = IsWalk-begin fields dest;
    within = rw (walk-pos fields dest simple.closed 0 some_left) some_left;
    visited = [];
    all = tt;
    marks = λ s. refl;
    covered = λ j h. absurd (omega (arith, h));
  }

  module _ (k : ℕ) (lt : k < length fields) where
    -- A field that is not required may be left out.
    pub Seen-skip :
        {iter : FieldIter} {ws : List ℕ}
        → pb_htype (field_at fields k).type ≢ htype_required
        → Seen fields dest k iter ws
        → Seen fields dest (suc k) iter ws
    Seen-skip optional seen =
        let t = ne→== (pb_htype (field_at fields k).type) htype_required optional in
        record {
          on_walk = seen.on_walk;
          within = seen.within;
          visited = seen.visited;
          all = seen.all;
          marks = seen.marks;
          covered = λ j. rw t (λ h. seen.covered j h);
        }

    -- The mark of the entry, and what has been seen with it.
    mark :
        {iter : FieldIter} {ws : List ℕ}
        → Seen fields dest k iter ws
        → (vs : List ℕ) × ((range : ℕ) (s : Machine)
            → mark_seen (seen_at (walk fields dest k) ws range) s
              ≡ ok (seen_at (walk fields dest k) vs range) s)
          × Seen fields dest (suc k) (walk fields dest k) vs
    unfolding mark_seen
    mark {iter} {ws} seen =
        let here = walk-current fields dest simple.closed simple.no_oneof k lt in
        let pos = walk-pos fields dest simple.closed k lt in
        elim (Bool-cases (pb_htype (field_at fields k).type == htype_required)) [
          | inr t ↦ (
            ws,
            (λ range s. rw (here, t) refl),
            record {
              on_walk = walk-IsWalk fields dest k;
              within = rw pos lt;
              visited = seen.visited;
              all = seen.all;
              marks = seen.marks;
              covered = λ j. rw t (λ h. seen.covered j h);
            },
          )
          | inl t ↦
              let index = walk-index fields dest simple.closed simple.no_oneof simple.few k lt in
              let le = required_before-le fields (suc k) (length fields) lt in
              let up : required_before fields (suc k) ≡ required_before fields k + 1 = rw t refl in
              let required : IsRequired (walk fields dest k) = rw here (ground (arith, t)) in
              let low : (walk fields dest k).required_field_index
                  < required_before fields (length fields) =
                omega (arith, index, le, up) in
              let (vs, marked, marks) =
                mark_seen-one (required_before fields (length fields)) (walk fields dest k)
                  seen.visited ws (omega (arith, simple.few)) required low seen.all seen.marks in
              (
                vs,
                marked,
                record {
                  on_walk = walk-IsWalk fields dest k;
                  within = rw pos lt;
                  visited = walk fields dest k ∷ seen.visited;
                  all = ((required, low), seen.all);
                  marks = marks;
                  covered = λ j h. elim (dec_lt j (required_before fields k)) [
                    | yes g ↦
                        or-right ((walk fields dest k).required_field_index == j) (seen.covered j g)
                    | no g ↦
                        or-left (has j (indices seen.visited)) (ground (arith, index, up, h, g))
                  ];
                },
              )
        ]

    -- The field is found, marked, and decoded.
    pub round-Takes :
        (depth : ℕ) (env : DecodeEnv) (noinit : Nested) (w : ℕ) (bs : List ℕ) (lo hi : ℕ)
        {Ready Same : Mem → Type 0} {iter : FieldIter} {ws : List ℕ}
        → Takes (decode_field depth env noinit w (walk fields dest k)) bs lo hi Ready Same
        → Seen fields dest k iter ws
        → (vs : List ℕ) × Seen fields dest (suc k) (walk fields dest k) vs
          × ((range : ℕ) (m : Mem)
              → Ready m
              → (rest : List ℕ) (n : ℕ) (e : Option Error)
              → (after : Mem) × (tagged_field depth env noinit
                    (header w (field_at fields k).tag)
                    (seen_at iter ws range)
                    (machine (input (bs ++ rest) (length bs + n) e) m)
                  ≡ ok (seen_at (walk fields dest k) vs range) (machine (input rest n e) after))
                × Kept lo hi m after
                × Same after)
    unfolding tagged_field known_field
    round-Takes depth env noinit w bs lo hi {iter = iter} {ws = ws} takes seen =
        let (vs, marked, seen') = mark seen in
        let found =
          walk-find fields dest simple.closed simple.distinct iter k seen.on_walk seen.within lt (
            field_at-All (λ field. pb_ltype field.type ≢ ltype_extension) fields k
              simple.no_extension lt) in
        (
          vs,
          seen',
          λ range m ready rest n e.
              let t = takes m ready rest n e in
              (t.after, rw (found, marked, t.runs) refl, t.kept, t.same),
        )
