-- ===== src/Message/Iter/Find.antt =====
-- `pb_field_iter_find`: the search around the table.
use ios_college_work.Common.{
  ℕ, zero, suc, ◌+◌, ◌≤◌, ◌<◌, ◌≡◌, ◌≢◌, refl, sym, ap, ◌∙◌, ◌⊎◌, inl, inr, Bool, Bool-cases, true,
  false, not, ◌==◌, ◌&&◌, List, [], ◌∷◌, length, All, arith,
}
use mathlib.Core.Path.{subst}
use native.Mathlib.Decide.{dec_le, dec_lt}
use ios_college_work.Message.Field.{Field, field_at, pb_ltype, ltype_extension}
use ios_college_work.Message.Iter.{
  FieldIter, current, pb_field_iter_begin, advance, pb_field_iter_next, find_loop,
  pb_field_iter_find,
}
use ios_college_work.Message.Iter.Walk.{field_at-All}

-- No entry of the table is its terminator.
abbrev pub IsClosed : List Field → Type 0
IsClosed fields = All (λ field. field.tag ≢ 0) fields

-- What `pb_field_iter_find` searches for.
abbrev pub matches : Field → (tag : ℕ) → Bool
matches field tag = (field.tag == tag) && not (pb_ltype field.type == ltype_extension)

pub field_at-end : (fields : List Field) (i : ℕ) → length fields ≤ i → (field_at fields i).tag ≡ 0
field_at-end [] i h = refl
field_at-end (f ∷ fs) zero h = absurd (omega arith)
field_at-end (f ∷ fs) (suc i) h = field_at-end fs i (omega arith)

-- The step of the iterator, around the table.
record IsStep (iter next : FieldIter) : Type 0 where
  start : next.start ≡ iter.start
  inner : suc iter.pos < length iter.start → next.pos ≡ suc iter.pos
  around : suc iter.pos ≡ length iter.start → next.pos ≡ 0

pb_field_iter_next-IsStep :
    (iter : FieldIter)
    → IsClosed iter.start
    → iter.pos < length iter.start
    → IsStep iter (pb_field_iter_next iter).0
unfolding pb_field_iter_next pb_field_iter_begin advance
pb_field_iter_next-IsStep iter closed lt =
    let here = field_at-All (λ field. field.tag ≢ 0) iter.start iter.pos closed lt in
    record {
      start = ground arith;
      inner = λ h.
          let there =
            field_at-All (λ field. field.tag ≢ 0) iter.start (iter.pos + 1) closed
              (omega (arith, h)) in
          ground (arith, here, there);
      around = λ h.
          let there = field_at-end iter.start (iter.pos + 1) (omega (arith, h)) in
          ground (arith, here, there);
    }

found :
    (fuel start tag : ℕ) (iter : FieldIter)
    → (find_loop fuel start tag iter).1 ≡ true
    → matches (current (find_loop fuel start tag iter).0) tag ≡ true
unfolding find_loop
found zero start tag iter h = absurd (ground arith)
found (suc fuel) start tag iter h = ground (arith, found fuel start tag (pb_field_iter_next iter).0)

module _ (fields : List Field) (closed : IsClosed fields) (tag i : ℕ)
    (hit : matches (field_at fields i) tag ≡ true) where
  -- A step of the loop that has not found its entry.
  turn :
      (fuel start : ℕ) (iter : FieldIter)
      → matches (current iter) tag ≡ false
      → (pb_field_iter_next iter).0.pos ≢ start
      → find_loop (suc fuel) start tag iter ≡ find_loop fuel start tag (pb_field_iter_next iter).0
  unfolding find_loop
  turn fuel start iter miss new = ground arith

  stop :
      (fuel start : ℕ) (iter : FieldIter)
      → matches (current iter) tag ≡ true
      → (find_loop (suc fuel) start tag iter).1 ≡ true
  unfolding find_loop
  stop fuel start iter at = ground arith

  missed :
      (iter : FieldIter) → iter.start ≡ fields → matches (current iter) tag ≡ false → iter.pos ≢ i
  missed iter e miss p = absurd (
      ground (
        arith,
        ap (λ (l : List Field). field_at l iter.pos) e,
        ap (λ (k : ℕ). field_at fields k) p,
      ))

  IsStep-of :
      (iter : FieldIter)
      → iter.start ≡ fields
      → iter.pos < length fields
      → IsStep iter (pb_field_iter_next iter).0
  IsStep-of iter e lt =
      pb_field_iter_next-IsStep iter (subst (λ (l : List Field). IsClosed l) (sym e) closed)
        (omega (arith, lt, ap (λ (l : List Field). length l) e))

  -- The entry stands at the iterator or behind it, and the search does not end before.
  straight :
      (fuel start : ℕ) (iter : FieldIter)
      → iter.start ≡ fields
      → i < length fields
      → iter.pos ≤ i
      → (start ≤ iter.pos) ⊎ (i < start)
      → i < fuel + iter.pos
      → (find_loop fuel start tag iter).1 ≡ true
  straight zero start iter e lt le out enough = absurd (omega arith)
  straight (suc fuel) start iter e lt le out enough =
      elim (Bool-cases (matches (current iter) tag)) [
        | inl at ↦ stop fuel start iter at
        | inr miss ↦
            let before = missed iter e miss in
            let step = IsStep-of iter e (omega arith) in
            let next = step.inner (omega (arith, before, ap (λ (l : List Field). length l) e)) in
            rw (turn fuel start iter miss (omega (arith, next, out, before))) (
              straight fuel start (pb_field_iter_next iter).0 (step.start ∙ e) lt
                (omega (arith, next, before)) (omega (arith, next, out)) (omega (arith, next)))
      ]

  -- The entry stands before the iterator, and the search has started behind the entry.
  wrapped :
      (fuel start : ℕ) (iter : FieldIter)
      → iter.start ≡ fields
      → iter.pos < length fields
      → i < start
      → start ≤ iter.pos
      → length fields + i < fuel + iter.pos
      → (find_loop fuel start tag iter).1 ≡ true
  wrapped zero start iter e lt before le enough = absurd (omega arith)
  wrapped (suc fuel) start iter e lt before le enough =
      elim (Bool-cases (matches (current iter) tag)) [
        | inl at ↦ stop fuel start iter at
        | inr miss ↦
            let step = IsStep-of iter e lt in
            let same = ap (λ (l : List Field). length l) e in
            elim (dec_lt (suc iter.pos) (length fields)) [
              | yes h ↦
                  let next = step.inner (omega (arith, h, same)) in
                  rw (turn fuel start iter miss (omega (arith, next, le))) (
                    wrapped fuel start (pb_field_iter_next iter).0 (step.start ∙ e)
                      (omega (arith, next, h)) before (omega (arith, next, le))
                      (omega (arith, next, enough)))
              | no h ↦
                  let next = step.around (omega (arith, h, same)) in
                  rw (turn fuel start iter miss (omega (arith, next, before))) (
                    straight fuel start (pb_field_iter_next iter).0 (step.start ∙ e)
                      (omega (arith, before, le, lt)) (omega (arith, next)) (inr before)
                      (omega (arith, next, enough, h)))
            ]
      ]

  searched :
      (iter : FieldIter)
      → iter.start ≡ fields
      → iter.pos < length fields
      → i < length fields
      → (pb_field_iter_find iter tag).1 ≡ true
  unfolding pb_field_iter_find
  searched iter e lt within = elim (dec_le iter.pos i) [
    | yes h ↦
        straight (suc (length iter.start)) iter.pos iter e within h (inl (omega arith))
          (omega (arith, within, ap (λ (l : List Field). length l) e))
    | no h ↦
        wrapped (suc (length iter.start)) iter.pos iter e lt (omega (arith, h)) (omega arith)
          (omega (arith, h, ap (λ (l : List Field). length l) e))
  ]

-- From any entry of a table without a terminator inside, `pb_field_iter_find` succeeds if some entry has the
-- tag and is not an extension, wherever it stands, and leaves the iterator at such an entry.
pub pb_field_iter_find_lem :
    (iter : FieldIter) (tag i : ℕ)
    → IsClosed iter.start
    → iter.pos < length iter.start
    → i < length iter.start
    → matches (field_at iter.start i) tag ≡ true
    → ((pb_field_iter_find iter tag).1 ≡ true)
      × (matches (current (pb_field_iter_find iter tag).0) tag ≡ true)
unfolding pb_field_iter_find
pb_field_iter_find_lem iter tag i closed lt within hit =
    let success = searched iter.start closed tag i hit iter refl lt within in
    (success, found (suc (length iter.start)) iter.pos tag iter success)
