-- ===== src/Message/Decode/Required/One.antt =====
-- One more mark in the bitmap of `pb_decode_noinit`.
use ios_college_work.Common.{
  ℕ, ◌/◌, ◌%◌, ◌^◌, ◌≤◌, ◌<◌, ◌≡◌, refl, sym, ap, ◌∙◌, inl, inr, true, ltb, ◌==◌, ◌&&◌, none, some,
  List, [], ◌∷◌, All, arith, Run, ok, err, fault, stuck,
}
use mathlib.Core.Path.{subst}
use native.Mathlib.Decide.{dec_lt}
use ios_college_work.Stream.Buffers.{input}
use ios_college_work.Message.Field.{pb_htype, htype_required}
use ios_college_work.Message.Iter.{FieldIter, current}
use ios_college_work.Message.Decode.Machine.{Machine, machine}
use ios_college_work.Message.Decode.Messages.{max_required_fields, or_word, mark_seen}
use ios_college_work.Message.Decode.Required.{
  indices, mark_each, Splits, mark_word, mark_each-Words, IsRequired,
}

value : List ℕ → Run Machine (List ℕ) → List ℕ
value other (ok ws s) = ws
value other (err s) = other
value other fault = other
value other stuck = other

-- One more required field.
pub mark_seen-one :
    (count : ℕ) (iter : FieldIter) (iters : List FieldIter) (ws : List ℕ)
    → count ≤ 64
    → IsRequired iter
    → iter.required_field_index < count
    → All (λ seen. IsRequired seen × (seen.required_field_index < count)) iters
    → ((s : Machine) → mark_each iters s ≡ ok ws s)
    → (vs : List ℕ) × ((range : ℕ) (s : Machine)
        → mark_seen (record { iter = iter; fields_seen = ws; extension_range_start = range }) s
          ≡ ok (record { iter = iter; fields_seen = vs; extension_range_start = range }) s)
      × ((s : Machine) → mark_each (iter ∷ iters) s ≡ ok vs s)
unfolding mark_seen value
mark_seen-one count iter iters ws most required low all marks =
    let i = iter.required_field_index in
    let s0 = machine (input [] 0 none) (λ _. 0) in
    let (us, e, w) = mark_each-Words count 32 32 most halves iters all s0 in
    let (vs, f, v) = mark_word 32 32 i (indices iters) us (halves i low) w in
    let same : us ≡ ws = ok-same (sym e ∙ marks s0) in
    let g : or_word ws (i / 32) (2 ^ (i % 32)) ≡ some vs =
      subst (λ (l : List ℕ). or_word l (i / 32) (2 ^ (i % 32)) ≡ some vs) same f in
    let t : (pb_htype (current iter).type == htype_required && ltb i max_required_fields) ≡ true =
      ground (arith, required, low, most) in
    (vs, (λ range s. rw (t, g) refl), λ s. rw (marks s, t, g) refl)
  where
    halves : (i : ℕ) → i < count → Splits 32 32 i
    halves i h = elim (dec_lt i 32) [
      | yes g ↦ inl (g, g)
      | no g ↦ inr (omega (arith, g), omega (arith, h, most), omega (arith, h, g, most))
    ]

    ok-same : {us ws : List ℕ} {s : Machine} → ok us s ≡ ok ws s → us ≡ ws
    ok-same e = ap (value []) e
