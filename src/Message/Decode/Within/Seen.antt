-- ===== src/Message/Decode/Within/Seen.antt =====
-- The bitmap of required fields: its marks and its checks stay within its two words.
use ios_college_work.Common.{
  ℕ, zero, suc, ◌-◌, ◌/◌, ◌%◌, ◌^◌, ◌≤◌, ◌<◌, ◌≡◌, ◌≢◌, refl, ap, inl, inr, bit_or, false,
  Bool-cases, not, ltb, ◌==◌, ◌&&◌, some, List, [], ◌∷◌, length, arith, ok,
}
use mathlib.Core.Option
use ios_college_work.Stream.Errors.{missing_required_field}
use ios_college_work.Message.Field.{pb_htype, htype_required}
use ios_college_work.Message.Iter.{FieldIter, current, pb_field_iter_next}
use ios_college_work.Message.Decode.Machine.{refuse}
use ios_college_work.Message.Decode.Messages.{
  Progress, max_required_fields, allbits, or_word, mark_seen, check_words, check_bits, check_count,
  check_end,
}
use ios_college_work.Message.Decode.Layout.{required_count, CountFits}
use ios_college_work.Message.Decode.Within.{WithinCmd, Any, ok-Within, refuse-Within, bind-Within}
use ios_college_work.Message.Decode.Within.Steps.{if-Within}

or_word-length :
    (ws : List ℕ) (index tmp : ℕ)
    → index < length ws
    → (vs : List ℕ) × (or_word ws index tmp ≡ some vs) × (length vs ≡ length ws)
unfolding or_word
or_word-length [] index tmp h = absurd (omega (arith, h))
or_word-length (w ∷ ws) zero tmp h = (bit_or w tmp ∷ ws, refl, refl)
or_word-length (w ∷ ws) (suc index) tmp h =
    let (vs, e, l) = or_word-length ws index tmp (omega (arith, h)) in
    (w ∷ vs, ap (Option.map (λ us. w ∷ us)) e, ap suc l)

module _ (lo len : ℕ) where
  -- A mark leaves the iterator as it is, and the length of the bitmap.
  pub mark_seen-Within :
      (Post : FieldIter → Type 0) (most : ℕ) (prog : Progress)
      → Post prog.iter
      → length prog.fields_seen ≡ 2
      → WithinCmd lo len
          (λ (p : Progress). Post p.iter × (length p.fields_seen ≡ 2))
          0
          most
          (mark_seen prog)
  unfolding mark_seen
  mark_seen-Within Post most prog post two =
      let Good = λ (p : Progress). Post p.iter × (length p.fields_seen ≡ 2) in
      let index = prog.iter.required_field_index in
      elim (Bool-cases
        (pb_htype (current prog.iter).type == htype_required && ltb index max_required_fields)) [
          | inl t ↦
              let (vs, e, l) =
                or_word-length prog.fields_seen (index / 32) (2 ^ (index % 32))
                  (ground (arith, two, t)) in
              rw (t, e)
                (ok-Within lo len Good most (record prog { fields_seen = vs })
                  (post, ground (arith, l, two)))
          | inr t ↦ rw t (ok-Within lo len Good most prog (post, two))
        ]

  bits-Within :
      (most index bits : ℕ) (seen : List ℕ)
      → index < length seen
      → bits ≢ 0
      → WithinCmd lo len (Any {A = Unit {0}}) 0 most (check_bits index bits seen)
  unfolding check_bits
  bits-Within most index bits [] low some_bits = absurd (omega (arith, low))
  bits-Within most (suc index) bits (w ∷ ws) low some_bits =
      bits-Within most index bits ws (omega (arith, low)) some_bits
  bits-Within most zero bits (w ∷ ws) low some_bits =
      let t : (bits == 0) ≡ false = ground (arith, some_bits) in
      rw t (
        if-Within lo len (Any {A = Unit {0}}) 0 most (not (w == allbits / 2 ^ (32 - bits)))
          (refuse missing_required_field) (ok tt)
          (λ _. refuse-Within lo len (Any {A = Unit {0}}) 0 most missing_required_field)
          (λ _. ok-Within lo len (Any {A = Unit {0}}) most tt tt))

  words-Within :
      (most count : ℕ) (seen : List ℕ)
      → count ≤ length seen
      → WithinCmd lo len (Any {A = Unit {0}}) 0 most (check_words count seen)
  unfolding check_words
  words-Within most zero seen low = ok-Within lo len (Any {A = Unit {0}}) most tt tt
  words-Within most (suc count) [] low = absurd (omega (arith, low))
  words-Within most (suc count) (w ∷ ws) low =
      if-Within lo len (Any {A = Unit {0}}) 0 most (not (w == allbits))
        (refuse missing_required_field) (check_words count ws)
        (λ _. refuse-Within lo len (Any {A = Unit {0}}) 0 most missing_required_field)
        (λ _. words-Within most count ws (omega (arith, low)))

  check_count-Within :
      (most count : ℕ) (seen : List ℕ)
      → length seen ≡ 2
      → count < 64
      → count ≢ 32
      → WithinCmd lo len (Any {A = Unit {0}}) 0 most (check_count count seen)
  unfolding check_count
  check_count-Within most count seen two low other = elim (Bool-cases (count == 0)) [
    | inl t ↦ rw t (ok-Within lo len (Any {A = Unit {0}}) most tt tt)
    | inr t ↦ rw t (
        bind-Within lo len (Any {A = Unit {0}}) (Any {A = Unit {0}}) 0 most
          (check_words (count / 32) seen) (λ _. check_bits (count / 32) (count % 32) seen)
          (words-Within most (count / 32) seen (omega (arith, two, low)))
          (λ _ _.
            bits-Within (most - 0) (count / 32) (count % 32) seen (omega (arith, two, low))
              (ground (arith, other, low))))
  ]

  pub check_end-Within :
      (most : ℕ) (last : FieldIter) (seen : List ℕ)
      → CountFits last
      → length seen ≡ 2
      → WithinCmd lo len (Any {A = Unit {0}}) 0 most (
          check_end
            (some (last.required_field_index, (current last).type, (pb_field_iter_next last).0))
            seen)
  unfolding check_end
  check_end-Within most last seen fits two =
      check_count-Within most (required_count last) seen two fits.0 fits.1
