-- ===== src/Message/Decode/Within/Seek.antt =====
-- The seek to the end of a table, and the search for an entry for extensions.
use ios_college_work.Common.{
  ℕ, zero, suc, ◌+◌, ◌≤◌, ◌<◌, ◌≡◌, ◌≢◌, refl, inl, inr, false, Bool-cases, ◌==◌, some, List,
  length, arith,
}
use ios_college_work.Message.Field.{Field, pb_ltype, ltype_extension}
use ios_college_work.Message.Iter.{FieldIter, current, pb_field_iter_begin, pb_field_iter_next}
use ios_college_work.Message.Iter.Walk.{pb_field_iter_next-IsNext}
use ios_college_work.Message.Decode.Extensions.{find_extension_loop, find_extension_field}
use ios_college_work.Message.Decode.Messages.{seek_end}
use ios_college_work.Message.Decode.Layout.{CountFits, Entries, On, On-here, On-next}

module _ (P : FieldIter → Type 0) where
  -- The seek ends at the last entry, before its fuel is used up.
  pub seek_end-last :
      (fuel left : ℕ) (iter : FieldIter)
      → 1 ≤ fuel
      → length iter.start < fuel + iter.pos
      → Entries left P CountFits iter
      → (last : FieldIter) × (seek_end fuel iter
          ≡ some (last.required_field_index, (current last).type, (pb_field_iter_next last).0))
        × CountFits last
  unfolding seek_end
  seek_end-last zero left iter some_left enough w = absurd (omega (arith, some_left))
  seek_end-last (suc fuel) zero iter some_left enough w = absurd w
  seek_end-last (suc fuel) (suc left) iter some_left enough w =
      elim (Bool-cases ((pb_field_iter_next iter).1)) [
        | inl more ↦
            let step = pb_field_iter_next-IsNext iter more in
            let (last, e, fits) =
              seek_end-last fuel left (pb_field_iter_next iter).0
                (omega (arith, step.within, enough))
                (rw (step.pos, step.start) (omega (arith, enough))) (rw more at w.1) in
            (last, rw (more, e) refl, fits)
        | inr stop ↦ (iter, rw stop refl, rw stop at w.1)
      ]

-- A table without an entry for extensions: none is found, and the iterator stays on the table.
module _ (fields : List Field) (dest : ℕ) (P Q : FieldIter → Type 0)
    (whole : On fields dest P Q (pb_field_iter_begin fields dest).0)
    (plain : (iter : FieldIter) → P iter → pb_ltype (current iter).type ≢ ltype_extension) where
  loop-none :
      (fuel start : ℕ) (iter : FieldIter)
      → On fields dest P Q iter
      → ((find_extension_loop fuel start iter).1 ≡ false)
        × On fields dest P Q (find_extension_loop fuel start iter).0
  unfolding find_extension_loop
  loop-none zero start iter o = (refl, o)
  loop-none (suc fuel) start iter o =
      let next = On-next fields dest P Q whole iter o in
      let rest = loop-none fuel start (pb_field_iter_next iter).0 next in
      let other = plain iter (On-here fields dest P Q iter o) in
      let t : (pb_ltype (current iter).type == ltype_extension) ≡ false = ground (arith, other) in
      elim (Bool-cases ((pb_field_iter_next iter).0.pos == start)) [
        | inl u ↦ rw (t, u) (refl, next)
        | inr u ↦ rw (t, u) rest
      ]

  pub find_extension_field-none :
      (iter : FieldIter)
      → On fields dest P Q iter
      → ((find_extension_field iter).1 ≡ false) × On fields dest P Q (find_extension_field iter).0
  unfolding find_extension_field
  find_extension_field-none iter o = loop-none (suc (length iter.start)) iter.pos iter o
