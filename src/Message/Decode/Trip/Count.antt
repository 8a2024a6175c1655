-- ===== src/Message/Decode/Trip/Count.antt =====
-- The numbers of the required fields along the walk, and the check behind the last field.
use ios_college_work.Common.{
  ℕ, zero, suc, ◌+◌, ◌%◌, ◌^◌, ◌≤◌, ◌<◌, ◌≡◌, ◌≢◌, refl, sym, ap, ◌∙◌, inl, inr, Bool, true, false,
  Bool-cases, not, ◌==◌, ◌&&◌, if◌then◌else◌, some, List, length, All, arith, ne→==,
}
use mathlib.Core.Path.{subst}
use native.Mathlib.Decide.{dec_le, dec_lt}
use ios_college_work.Message.Memory.{displace}
use ios_college_work.Message.Field.{Field, field_at, pb_htype, htype_required, htype_oneof}
use ios_college_work.Message.Iter.{
  FieldIter, current, advance, pb_field_iter_begin, pb_field_iter_next,
}
use ios_college_work.Message.Iter.Walk.{field_at-All}
use ios_college_work.Message.Iter.Find.{IsClosed, field_at-end}
use ios_college_work.Message.Decode.Machine.{Machine}
use ios_college_work.Message.Decode.Messages.{
  Progress, seek_end, check_end, check_count, check_required,
}
use ios_college_work.Message.Decode.Trip.Walk.{walk, walk-IsWalk, walk-pos}

-- `pb_decode_noinit` at an iterator, with these words of the bitmap.
abbrev pub seen_at : FieldIter → (fields_seen : List ℕ) → (range : ℕ) → Progress
seen_at iter ws range = record { iter = iter; fields_seen = ws; extension_range_start = range }

-- The required fields among the first `k`.
abbrev pub required_before : List Field → (k : ℕ) → ℕ
required_before fields zero = 0
required_before fields (suc k) =
    let rest = required_before fields k in
    if pb_htype (field_at fields k).type == htype_required then rest + 1 else rest

pub required_before-le :
    (fields : List Field) (n k : ℕ) → n ≤ k → required_before fields n ≤ required_before fields k
required_before-le fields n zero le = let e : n ≡ 0 = omega (arith, le) in rw e (omega arith)
required_before-le fields n (suc k) le = elim (dec_le n k) [
  | yes h ↦
      let rest = required_before-le fields n k h in
      elim (Bool-cases (pb_htype (field_at fields k).type == htype_required)) [
        | inl t ↦ ground (arith, rest, t)
        | inr t ↦ ground (arith, rest, t)
      ]
  | no h ↦ let e : n ≡ suc k = omega (arith, le, h) in rw e (omega arith)
]

module _ (fields : List Field) (dest : ℕ) (closed : IsClosed fields)
    (no_oneof : All (λ field. pb_htype field.type ≢ htype_oneof) fields) where
  -- The entry at a position.
  pub walk-current : (k : ℕ) → k < length fields → current (walk fields dest k) ≡ field_at fields k
  walk-current k lt =
      let w = walk-IsWalk fields dest k in
      ap (λ (l : List Field). field_at l (walk fields dest k).pos) w.start
      ∙ ap (λ (i : ℕ). field_at fields i) (walk-pos fields dest closed k lt)

  tagged : (k : ℕ) → k < length fields → ((field_at fields k).tag == 0) ≡ false
  tagged k lt =
      ne→== (field_at fields k).tag 0 (field_at-All (λ field. field.tag ≢ 0) fields k closed lt)

  plain :
      (k : ℕ) → suc k < length fields → (pb_htype (field_at fields k).type == htype_oneof) ≡ false
  plain k lt = ne→== (pb_htype (field_at fields k).type) htype_oneof (
      field_at-All (λ field. pb_htype field.type ≢ htype_oneof) fields k no_oneof
        (omega (arith, lt)))

  -- A step within the table, and the one around its end.
  pub walk-step :
      (k : ℕ)
      → suc k < length fields
      → pb_field_iter_next (walk fields dest k)
        ≡ (advance (field_at fields k) (field_at fields (suc k)) (walk fields dest k), true)
  unfolding pb_field_iter_next
  walk-step k lt =
      let w = walk-IsWalk fields dest k in
      let pos = walk-pos fields dest closed k (omega (arith, lt)) in
      let up : k + 1 ≡ suc k = omega arith in
      let here = tagged k (omega (arith, lt)) in
      let there = tagged (suc k) lt in rw (w.start, pos, up, here, there) refl

  pub walk-around :
      (k : ℕ)
      → suc k ≡ length fields
      → pb_field_iter_next (walk fields dest k) ≡ (walk fields dest 0, false)
  unfolding pb_field_iter_next
  walk-around k e =
      let w = walk-IsWalk fields dest k in
      let pos = walk-pos fields dest closed k (omega (arith, e)) in
      let up : k + 1 ≡ suc k = omega arith in
      let here = tagged k (omega (arith, e)) in
      let there = field_at-end fields (suc k) (omega (arith, e)) in
      rw (w.start, pos, up, here, there, w.dest_struct) refl

  -- The place of the size.
  pub walk-p_size :
      (k : ℕ)
      → k < length fields
      → (walk fields dest k).p_size
        ≡ displace (walk fields dest k).p_data (field_at fields k).size_offset
  unfolding pb_field_iter_begin advance
  walk-p_size zero lt = refl
  walk-p_size (suc k) lt =
      subst (λ (i : FieldIter). i.p_size ≡ displace i.p_data (field_at fields (suc k)).size_offset)
        (sym (ap (λ (r : FieldIter × Bool). r.0) (walk-step k lt))) (rw (plain k lt) refl)

  pub walk-index :
      required_before fields (length fields) < 64
      → (k : ℕ) → k < length fields
      → (walk fields dest k).required_field_index ≡ required_before fields k
  unfolding pb_field_iter_begin advance
  walk-index most zero lt = refl
  walk-index most (suc k) lt =
      let rest = walk-index most k (omega (arith, lt)) in
      let le = required_before-le fields k (length fields) (omega (arith, lt)) in
      let small : (required_before fields k + 1) % 2 ^ 32 ≡ required_before fields k + 1 =
        omega (arith, le, most) in
      ap (λ (r : FieldIter × Bool). r.0.required_field_index) (walk-step k lt)
      ∙ rw (plain k lt, rest, small) refl

  -- From any entry the seek ends at the last one.
  seek_end-walk :
      (fuel k : ℕ) (last : ℕ)
      → suc last ≡ length fields
      → k ≤ last
      → last < fuel + k
      → seek_end fuel (walk fields dest k)
        ≡ some (
          (walk fields dest last).required_field_index,
          (current (walk fields dest last)).type,
          walk fields dest 0,
        )
  unfolding seek_end
  seek_end-walk zero k last e le enough = absurd (omega (arith, le, enough))
  seek_end-walk (suc fuel) k last e le enough = elim (dec_lt k last) [
    | yes h ↦
        let step = walk-step k (omega (arith, h, e)) in
        let more = ap (λ (r : FieldIter × Bool). r.1) step in
        let rest = seek_end-walk fuel (suc k) last e (omega (arith, h)) (omega (arith, enough)) in
        rw more rest
    | no h ↦ let same : k ≡ last = omega (arith, h, le) in rw (same, walk-around last e) refl
  ]

  -- The count at the end is the number of required fields.
  pub check_required-walk :
      (last : ℕ)
      → suc last ≡ length fields
      → required_before fields (length fields) < 64
      → (k : ℕ) (ws : List ℕ) (range : ℕ) → k ≤ last
      → (s : Machine)
      → check_required (seen_at (walk fields dest k) ws range) s
        ≡ check_count (required_before fields (length fields)) ws s
  unfolding check_required check_end
  check_required-walk last e most k ws range le s =
      let w = walk-IsWalk fields dest k in
      let len = ap (λ (l : List Field). length l) w.start in
      let ends =
        seek_end-walk (suc (length (walk fields dest k).start)) k last e le
          (omega (arith, len, e)) in
      rw ends (ap (λ (n : ℕ). check_count n ws s) counted)
    where
      total : required_before fields (suc last) < 64
      total = subst (λ (n : ℕ). required_before fields n < 64) (sym e) most

      counted :
          (if (pb_htype (current (walk fields dest last)).type == htype_required)
              && not ((current (walk fields dest 0)).tag == 0)
            then ((walk fields dest last).required_field_index + 1) % 2 ^ 32
            else (walk fields dest last).required_field_index)
          ≡ required_before fields (length fields)
      counted =
          let here = walk-current last (omega (arith, e)) in
          let first = tagged 0 (omega (arith, e)) in
          let index = walk-index most last (omega (arith, e)) in
          rw (here, walk-current 0 (omega (arith, e)), first, index, sym e) (ground (arith, total))
