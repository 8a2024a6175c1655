-- ===== src/Message/Decode/Trip/Walk.antt =====
-- The iterators of a table by their position, and `pb_field_iter_find` where no two entries have the same tag.
use ios_college_work.Common.{
  ℕ, zero, suc, ◌+◌, ◌<◌, ◌≡◌, ◌≢◌, refl, sym, ap, ◌∙◌, inl, inr, Bool-cases, true, false, not,
  ◌==◌, ◌&&◌, List, length, arith,
}
use mathlib.Core.Path.{subst}
use ios_college_work.Message.Field.{Field, field_at, pb_ltype, ltype_extension}
use ios_college_work.Message.Iter.{
  FieldIter, current, advance, pb_field_iter_begin, pb_field_iter_next, find_loop,
  pb_field_iter_find,
}
use ios_college_work.Message.Iter.Walk.{field_at-lt, field_at-All, pb_field_iter_next-IsNext}
use ios_college_work.Message.Iter.Find.{IsClosed, matches, pb_field_iter_find_lem}

-- The iterator after `k` steps.
abbrev pub walk : List Field → (dest k : ℕ) → FieldIter
walk fields dest zero = (pb_field_iter_begin fields dest).0
walk fields dest (suc k) = (pb_field_iter_next (walk fields dest k)).0

-- An iterator of the walk over the structure at `dest`.
pub record IsWalk (fields : List Field) (dest : ℕ) (iter : FieldIter) : Type 0 where
  pub start : iter.start ≡ fields
  pub dest_struct : iter.dest_struct ≡ dest
  pub same : iter ≡ walk fields dest iter.pos

-- No two entries have the same tag.
abbrev pub HasDistinctTags : List Field → Type 0
HasDistinctTags fields =
    (i k : ℕ)
    → i < length fields
    → k < length fields
    → (field_at fields i).tag ≡ (field_at fields k).tag
    → i ≡ k

module _ (fields : List Field) (dest : ℕ) where
  pub IsWalk-begin : IsWalk fields dest (walk fields dest 0)
  unfolding pb_field_iter_begin
  IsWalk-begin = record { start = refl; dest_struct = refl; same = refl }

  next-dest_struct : (iter : FieldIter) → (pb_field_iter_next iter).0.dest_struct ≡ iter.dest_struct
  unfolding pb_field_iter_next pb_field_iter_begin advance
  next-dest_struct iter = ground arith

  -- A step that is not the last one.
  pub IsWalk-next :
      (iter : FieldIter)
      → IsWalk fields dest iter
      → (pb_field_iter_next iter).1 ≡ true
      → IsWalk fields dest (pb_field_iter_next iter).0
  IsWalk-next iter w more =
      let n = pb_field_iter_next-IsNext iter more in
      record {
        start = n.start ∙ w.start;
        dest_struct = next-dest_struct iter ∙ w.dest_struct;
        same =
            ap (λ (i : FieldIter). (pb_field_iter_next i).0) w.same
            ∙ ap (λ (k : ℕ). walk fields dest k) (sym n.pos);
      }

  IsWalk-last :
      (iter : FieldIter)
      → IsWalk fields dest iter
      → (pb_field_iter_next iter).1 ≡ false
      → IsWalk fields dest (pb_field_iter_next iter).0
  unfolding pb_field_iter_next
  IsWalk-last iter w last = elim (Bool-cases ((current iter).tag == 0)) [
    | inl t ↦ rw t w
    | inr t ↦ elim (Bool-cases ((field_at iter.start (iter.pos + 1)).tag == 0)) [
      | inl u ↦ rw (t, u, w.start, w.dest_struct) IsWalk-begin
      | inr u ↦ absurd (ground (arith, t, u, last))
    ]
  ]

  pub IsWalk-step :
      (iter : FieldIter) → IsWalk fields dest iter → IsWalk fields dest (pb_field_iter_next iter).0
  IsWalk-step iter w = elim (Bool-cases ((pb_field_iter_next iter).1)) [
    | inl more ↦ IsWalk-next iter w more
    | inr last ↦ IsWalk-last iter w last
  ]

  pub walk-IsWalk : (k : ℕ) → IsWalk fields dest (walk fields dest k)
  walk-IsWalk zero = IsWalk-begin
  walk-IsWalk (suc k) = IsWalk-step (walk fields dest k) (walk-IsWalk k)

  IsWalk-loop :
      (fuel start tag : ℕ) (iter : FieldIter)
      → IsWalk fields dest iter
      → IsWalk fields dest (find_loop fuel start tag iter).0
  unfolding find_loop
  IsWalk-loop zero start tag iter w = w
  IsWalk-loop (suc fuel) start tag iter w =
      let next = IsWalk-step iter w in
      let more = IsWalk-loop fuel start tag (pb_field_iter_next iter).0 next in
      elim (Bool-cases
        (((current iter).tag == tag) && not (pb_ltype (current iter).type == ltype_extension))) [
          | inl t ↦ rw t w
          | inr t ↦ elim (Bool-cases ((pb_field_iter_next iter).0.pos == start)) [
            | inl u ↦ rw (t, u) next
            | inr u ↦ rw (t, u) more
          ]
        ]

  module _ (closed : IsClosed fields) where
    -- Within the table the position is the number of steps.
    pub walk-pos : (k : ℕ) → k < length fields → (walk fields dest k).pos ≡ k
    unfolding pb_field_iter_begin pb_field_iter_next advance
    walk-pos zero lt = refl
    walk-pos (suc k) lt =
        let w = walk-IsWalk k in
        let pos = walk-pos k (omega (arith, lt)) in
        let here = field_at-All (λ field. field.tag ≢ 0) fields k closed (omega (arith, lt)) in
        let there = field_at-All (λ field. field.tag ≢ 0) fields (suc k) closed lt in
        ground (arith, w.start, pos, here, there)

    -- From anywhere on the walk, `pb_field_iter_find` goes to the one entry with the tag.
    pub walk-find :
        HasDistinctTags fields
        → (iter : FieldIter) (k : ℕ) → IsWalk fields dest iter
        → iter.pos < length fields
        → k < length fields
        → pb_ltype (field_at fields k).type ≢ ltype_extension
        → pb_field_iter_find iter (field_at fields k).tag ≡ (walk fields dest k, true)
    unfolding pb_field_iter_find
    walk-find distinct iter k w lt within plain =
        let tag = (field_at fields k).tag in
        let found = (pb_field_iter_find iter tag).0 in
        let len = ap (λ (l : List Field). length l) w.start in
        let entry = field_at-All (λ field. field.tag ≢ 0) fields k closed within in
        let hit : matches (field_at iter.start k) tag ≡ true = rw w.start (ground (arith, plain)) in
        let f =
          pb_field_iter_find_lem iter tag k
            (subst (λ (l : List Field). IsClosed l) (sym w.start) closed) (omega (arith, lt, len))
            (omega (arith, within, len)) hit in
        let fw = IsWalk-loop (suc (length iter.start)) iter.pos tag iter w in
        let same_tag : (field_at fields found.pos).tag ≡ tag =
          ap (λ (l : List Field). (field_at l found.pos).tag) (sym fw.start)
          ∙ ground (arith, f.1) in
        let inside = field_at-lt fields found.pos (λ z. entry (sym same_tag ∙ z)) in
        let at : found ≡ walk fields dest k =
          fw.same
          ∙ ap (λ (j : ℕ). walk fields dest j) (distinct found.pos k inside within same_tag) in
        rw (at, f.0) refl
