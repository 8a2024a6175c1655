-- ===== src/Message/Iter/Walk.antt =====
-- A walk over a table: `pb_field_iter_next` goes from entry to entry, and says when it is back at the
-- start.
use ios_college_work.Common.{
  ℕ, zero, suc, ◌+◌, ◌<◌, ◌≡◌, ◌≢◌, refl, true, List, [], ◌∷◌, length, All, arith,
}
use ios_college_work.Message.Field.{Field, field_at}
use ios_college_work.Message.Iter.{
  FieldIter, current, pb_field_iter_begin, advance, pb_field_iter_next,
}

-- An entry with a tag stands within the table.
pub field_at-lt : (fields : List Field) (i : ℕ) → (field_at fields i).tag ≢ 0 → i < length fields
field_at-lt [] i h = absurd (h refl)
field_at-lt (f ∷ fs) zero h = omega arith
field_at-lt (f ∷ fs) (suc i) h = omega (arith, field_at-lt fs i h)

pub field_at-All :
    (P : Field → Type 0) (fields : List Field) (i : ℕ)
    → All P fields
    → i < length fields
    → P (field_at fields i)
field_at-All P [] i h lt = absurd (omega arith)
field_at-All P (f ∷ fs) zero h lt = h.0
field_at-All P (f ∷ fs) (suc i) h lt = field_at-All P fs i h.1 (omega arith)

-- A step that is not the last one reaches the next entry of the same table.
pub record IsNext (iter next : FieldIter) : Type 0 where
  pub start : next.start ≡ iter.start
  pub pos : next.pos ≡ suc iter.pos
  pub within : suc iter.pos < length iter.start

advance_lem :
    (prev pos : Field) (iter : FieldIter)
    → ((advance prev pos iter).start ≡ iter.start) × ((advance prev pos iter).pos ≡ suc iter.pos)
unfolding advance
advance_lem prev pos iter = ground arith

pub pb_field_iter_next-IsNext :
    (iter : FieldIter)
    → (pb_field_iter_next iter).1 ≡ true
    → IsNext iter (pb_field_iter_next iter).0
unfolding pb_field_iter_next
pb_field_iter_next-IsNext iter h =
    let step = advance_lem (current iter) (field_at iter.start (iter.pos + 1)) iter in
    record {
      start = ground (arith, step);
      pos = ground (arith, step);
      within = ground (arith, field_at-lt iter.start (iter.pos + 1));
    }

-- The first entry.
pub pb_field_iter_begin-first :
    (fields : List Field) (src : ℕ)
    → ((pb_field_iter_begin fields src).0.start ≡ fields)
      × ((pb_field_iter_begin fields src).0.pos ≡ 0)
      × ((pb_field_iter_begin fields src).1 ≡ true → 0 < length fields)
unfolding pb_field_iter_begin
pb_field_iter_begin-first fields src = (refl, refl, λ h. ground (arith, field_at-lt fields 0))
