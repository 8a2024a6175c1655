-- ===== src/Message/Decode/Required.antt =====
-- Which messages are refused for a required field: the bitmap of `pb_decode_noinit`, as the set that it stands for.
pub mod Bits
pub mod One
use ios_college_work.Common.{
  ℕ, zero, suc, ◌+◌, ◌-◌, ◌/◌, ◌%◌, ◌^◌, ◌≤◌, ◌<◌, ◌≡◌, ◌≢◌, refl, sym, ap, ◌∙◌, ◌⊎◌, inl, inr,
  bit_or, Bool, true, false, Bool-cases, not, ltb, ◌==◌, ◌&&◌, ◌||◌, if◌then◌else◌, Option, some,
  List, [], ◌∷◌, length, All, arith, Run, Cmd, ok, err, fault, stuck, ◌>>=◌, ◌>>◌, and_then,
}
use native.Mathlib.Nat.{one-le-pow, zero-div}
use native.Mathlib.Decide.{dec_lt}
use ios_college_work.Common.Bits.{ones_shift}
use ios_college_work.Stream.Errors.{missing_required_field}
use ios_college_work.Message.Field.{pb_htype, htype_required}
use ios_college_work.Message.Iter.{FieldIter, current}
use ios_college_work.Message.Decode.Machine.{Machine, refuse}
use ios_college_work.Message.Decode.Messages.{
  Progress, max_required_fields, allbits, or_word, with_seen, mark_seen, check_words, check_bits,
  check_count,
}
use ios_college_work.Message.Decode.Required.Bits.{
  bit, bit-mark, mark-lt, every, every-ext, every-add, ones-every,
}

-- Whether `j` is one of them.
abbrev pub has : (j : ℕ) → List ℕ → Bool
has j [] = false
has j (i ∷ is) = let rest = has j is in (i == j) || rest

abbrev pub indices : List FieldIter → List ℕ
indices [] = []
indices (iter ∷ iters) = iter.required_field_index ∷ indices iters

-- `fields_seen` after fields at these iterators, from the last to the first.
abbrev pub mark_each : List FieldIter → Cmd Machine (List ℕ)
mark_each [] = ok (0 ∷ 0 ∷ [])
mark_each (iter ∷ iters) = mark_each iters >>= (λ ws.
    mark_seen (record { iter = iter; fields_seen = ws; extension_range_start = 0 })
    >>= (λ prog. ok prog.fields_seen))

-- Two words, of `b0` and of `b1` bits, that stand for the indices.
pub record Words (b0 b1 : ℕ) (is ws : List ℕ) : Type 0 where
  w0 : ℕ
  w1 : ℕ
  same : ws ≡ w0 ∷ w1 ∷ []
  low0 : w0 < 2 ^ b0
  low1 : w1 < 2 ^ b1
  bits0 : (j : ℕ) → j < 32 → (bit w0 j == 1) ≡ has j is
  bits1 : (j : ℕ) → (bit w1 j == 1) ≡ has (32 + j) is

abbrev pub Splits : (b0 b1 i : ℕ) → Type 0
Splits b0 b1 i = ((i < 32) × (i < b0)) ⊎ ((32 ≤ i) × (i < 64) × (i - 32 < b1))

pick-is : (t : Bool) (b : ℕ) → ((if t then 1 else b) == 1) ≡ (t || (b == 1))
pick-is true b = refl
pick-is false b = refl

-- A mark in the first word, or in the second one.
pub mark_word :
    (b0 b1 i : ℕ) (is ws : List ℕ)
    → Splits b0 b1 i
    → Words b0 b1 is ws
    → (vs : List ℕ) × (or_word ws (i / 32) (2 ^ (i % 32)) ≡ some vs) × Words b0 b1 (i ∷ is) vs
unfolding or_word
mark_word b0 b1 i is ws (inl (small, fits)) w =
    let first : i / 32 ≡ 0 = omega (arith, small) in
    let shift : i % 32 ≡ i = omega (arith, small) in
    (
      bit_or w.w0 (2 ^ i) ∷ w.w1 ∷ [],
      rw (w.same, first, shift) refl,
      record {
        w0 = bit_or w.w0 (2 ^ i);
        w1 = w.w1;
        same = refl;
        low0 = mark-lt i b0 w.w0 fits w.low0;
        low1 = w.low1;
        bits0 = λ j h.
            ap (λ (k : ℕ). k == 1) (bit-mark i j w.w0)
            ∙ pick-is (i == j) (bit w.w0 j)
            ∙ ap (λ (t : Bool). (i == j) || t) (w.bits0 j h);
        bits1 =
            λ j. let other : (i == 32 + j) ≡ false = ground (arith, small) in rw other (w.bits1 j);
      },
    )
mark_word b0 b1 i is ws (inr (large, most, fits)) w =
    let second : i / 32 ≡ 1 = omega (arith, large, most) in
    let shift : i % 32 ≡ i - 32 = omega (arith, large, most) in
    (
      w.w0 ∷ bit_or w.w1 (2 ^ (i - 32)) ∷ [],
      rw (w.same, second, shift) refl,
      record {
        w0 = w.w0;
        w1 = bit_or w.w1 (2 ^ (i - 32));
        same = refl;
        low0 = w.low0;
        low1 = mark-lt (i - 32) b1 w.w1 fits w.low1;
        bits0 = λ j h.
            let other : (i == j) ≡ false = ground (arith, large, h) in rw other (w.bits0 j h);
        bits1 = λ j.
            let up : (i - 32 == j) ≡ (i == 32 + j) = ground (arith, large) in
            ap (λ (k : ℕ). k == 1) (bit-mark (i - 32) j w.w1)
            ∙ pick-is (i - 32 == j) (bit w.w1 j)
            ∙ rw up (ap (λ (t : Bool). (i == 32 + j) || t) (w.bits1 j));
      },
    )

abbrev pub IsRequired : FieldIter → Type 0
IsRequired iter = pb_htype (current iter).type ≡ htype_required

no_marks : (b0 b1 : ℕ) → Words b0 b1 [] (0 ∷ 0 ∷ [])
no_marks b0 b1 = record {
  w0 = 0;
  w1 = 0;
  same = refl;
  low0 = omega (arith, one-le-pow b0 2);
  low1 = omega (arith, one-le-pow b1 2);
  bits0 = λ j h. ap (λ (k : ℕ). k % 2 == 1) (zero-div (2 ^ j));
  bits1 = λ j. ap (λ (k : ℕ). k % 2 == 1) (zero-div (2 ^ j));
}

pub mark_each-Words :
    (count b0 b1 : ℕ)
    → count ≤ 64
    → ((i : ℕ) → i < count → Splits b0 b1 i)
    → (iters : List FieldIter)
    → All (λ iter. IsRequired iter × (iter.required_field_index < count)) iters
    → (s : Machine) → (ws : List ℕ) × (mark_each iters s ≡ ok ws s) × Words b0 b1 (indices iters) ws
unfolding mark_seen
mark_each-Words count b0 b1 most split [] all s = (0 ∷ 0 ∷ [], refl, no_marks b0 b1)
mark_each-Words count b0 b1 most split (iter ∷ iters) ((required, low), all) s =
    let i = iter.required_field_index in
    let (ws, e, w) = mark_each-Words count b0 b1 most split iters all s in
    let (vs, f, v) = mark_word b0 b1 i (indices iters) ws (split i low) w in
    let t : (pb_htype (current iter).type == htype_required && ltb i max_required_fields) ≡ true =
      ground (arith, required, low, most) in
    (vs, rw (e, t, f) refl, v)

-- The check refuses the words that are not full.
swapped :
    (t : Bool) (k : Cmd Machine (Unit {0})) (s : Machine)
    → (if not t then refuse missing_required_field s else k s)
      ≡ (if t then k s else refuse missing_required_field s)
swapped true k s = refl
swapped false k s = refl

both :
    (t u : Bool) (k : Cmd Machine (Unit {0})) (s : Machine)
    → k s ≡ (if u then ok tt s else refuse missing_required_field s)
    → and_then (if t then ok tt s else refuse missing_required_field s) (λ _. k)
      ≡ (if t && u then ok tt s else refuse missing_required_field s)
both true u k s e = e
both false u k s e = refl

-- Up to 31 fields are one word.
one_word :
    (count w0 w1 : ℕ) (s : Machine)
    → count < 32
    → w0 < 2 ^ count
    → check_count count (w0 ∷ w1 ∷ []) s
      ≡ (if every count (λ j. bit w0 j == 1) then ok tt s else refuse missing_required_field s)
unfolding check_count check_words check_bits
one_word count w0 w1 s small low = elim (Bool-cases (count == 0)) [
  | inl t ↦ let none_left : count ≡ 0 = ground (arith, t) in rw none_left refl
  | inr t ↦
      let word : count / 32 ≡ 0 = omega (arith, small) in
      let bits : count % 32 ≡ count = omega (arith, small) in
      let mask = ones_shift count (omega (arith, small)) in
      rw (t, word, bits, t, mask, ones-every count w0 low)
        (swapped (every count (λ j. bit w0 j == 1)) (ok tt) s)
]

-- From 33 to 63 fields are two words, the first of which is full.
two_words :
    (more w0 w1 : ℕ) (s : Machine)
    → 1 ≤ more
    → more < 32
    → w0 < 2 ^ 32
    → w1 < 2 ^ more
    → check_count (32 + more) (w0 ∷ w1 ∷ []) s ≡ (
        if every 32 (λ j. bit w0 j == 1) && every more (λ j. bit w1 j == 1)
        then ok tt s
        else refuse missing_required_field s)
unfolding check_count check_words check_bits
two_words more w0 w1 s some_left small low0 low1 =
    let t : (32 + more == 0) ≡ false = ground arith in
    let word : (32 + more) / 32 ≡ 1 = omega (arith, small) in
    let bits : (32 + more) % 32 ≡ more = omega (arith, small) in
    let full = every 32 (λ j. bit w0 j == 1) in
    let rest = every more (λ j. bit w1 j == 1) in
    rw (t, word, bits, first) (both full rest (check_bits 1 more (w0 ∷ w1 ∷ [])) s second)
  where
    first :
        check_words 1 (w0 ∷ w1 ∷ []) s
        ≡ (if every 32 (λ j. bit w0 j == 1) then ok tt s else refuse missing_required_field s)
    first = rw (ones-every 32 w0 low0) (swapped (every 32 (λ j. bit w0 j == 1)) (ok tt) s)

    second :
        check_bits 1 more (w0 ∷ w1 ∷ []) s
        ≡ (if every more (λ j. bit w1 j == 1) then ok tt s else refuse missing_required_field s)
    second =
        let u : (more == 0) ≡ false = ground (arith, some_left) in
        let mask = ones_shift more (omega (arith, small)) in
        rw (u, mask, ones-every more w1 low1) (swapped (every more (λ j. bit w1 j == 1)) (ok tt) s)

-- Where a message has fewer than 64 required fields, and not 32, the bitmap after any sequence of its required
-- fields passes the check if each of them is among the sequence, and "missing required field" is the error otherwise.
pub check_count-mark_each :
    (count : ℕ) (iters : List FieldIter) (s : Machine)
    → count < 64
    → count ≢ 32
    → All (λ iter. IsRequired iter × (iter.required_field_index < count)) iters
    → (mark_each iters >>= check_count count) s ≡ (
        if every count (λ j. has j (indices iters))
        then ok tt s
        else refuse missing_required_field s)
check_count-mark_each count iters s low other all = elim (Bool-cases (ltb count 32)) [
  | inl t ↦
      let (ws, e, w) =
        mark_each-Words count count 0 (omega (arith, low)) (λ i h. inl (ground (arith, t, h), h))
          iters all s in
      let same =
        every-ext count (λ j. bit w.w0 j == 1) (λ j. has j (indices iters))
          (λ j h. w.bits0 j (ground (arith, t, h))) in
      rw (e, w.same, one_word count w.w0 w.w1 s (ground (arith, t)) w.low0, same) refl
  | inr t ↦
      let more = count - 32 in
      let sum : 32 + more ≡ count = ground (arith, t) in
      let (ws, e, w) =
        mark_each-Words count 32 more (omega (arith, low)) (λ i h. split i (omega (arith, h, sum)))
          iters all s in
      let first =
        every-ext 32 (λ j. bit w.w0 j == 1) (λ j. has j (indices iters)) (λ j h. w.bits0 j h) in
      let second =
        every-ext more (λ j. bit w.w1 j == 1) (λ j. has (32 + j) (indices iters))
          (λ j _. w.bits1 j) in
      let whole = every-add 32 more (λ j. has j (indices iters)) in
      let verdict = λ (b : Bool). if b then ok tt s else refuse missing_required_field s in
      let joined : (every 32 (λ j. bit w.w0 j == 1) && every more (λ j. bit w.w1 j == 1))
          ≡ every (32 + more) (λ j. has j (indices iters)) =
        rw (first, second) (sym whole) in
      rw (e, w.same)
        (ap (λ (c : ℕ). check_count c (w.w0 ∷ w.w1 ∷ []) s) (sym sum)
          ∙ two_words more w.w0 w.w1 s (ground (arith, t, other)) (omega (arith, low)) w.low0 w.low1
          ∙ ap verdict (joined ∙ ap (λ (c : ℕ). every c (λ j. has j (indices iters))) sum))
]
  where
    split : (i : ℕ) → i < 32 + (count - 32) → Splits 32 (count - 32) i
    split i h = elim (dec_lt i 32) [
      | yes g ↦ inl (g, g)
      | no g ↦ inr (omega (arith, g), omega (arith, h, low), omega (arith, h, g))
    ]
