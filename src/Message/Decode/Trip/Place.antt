-- ===== src/Message/Decode/Trip/Place.antt =====
-- Where an entry of a table stands in memory, and that what is said of it depends on that place alone.
use ios_college_work.Common.{
  ℕ, ◌+◌, ◌≤◌, ◌<◌, ◌≡◌, refl, sym, ap, ◌∙◌, inl, inr, ◌==◌, List, length, arith,
}
use ios_college_work.Message.Memory.{Mem, displace}
use ios_college_work.Message.Field.{Field, field_at, pb_htype, htype_optional}
use ios_college_work.Message.Iter.{current}
use ios_college_work.Message.Encode.Env.{Env, Submessage}
use ios_college_work.Message.Encode.Contract.Items.{IsMem}
use ios_college_work.Message.Encode.Contract.Singular.{is_present}
use ios_college_work.Message.Decode.Env.{DecodeEnv, Nested}
use ios_college_work.Message.Decode.Trip.Walk.{walk}
use ios_college_work.Message.Decode.Trip.Takes.{Agree, Local}
use ios_college_work.Message.Decode.Trip.Static.{first_byte, end_byte}
use ios_college_work.Message.Decode.Trip.Count.{walk-current, walk-p_size}
use ios_college_work.Message.Decode.Trip.Rounds.{IsSimple}
use ios_college_work.Message.Decode.Trip.Plan.{FieldTrip}
use ios_college_work.Message.Decode.Trip.Items.{NestedTrip, ItemReady-Local, SameItem-Local}
use ios_college_work.Message.Decode.Trip.Entry.{present-byte, present-required, ReadyAt, SameAt}

module _ {m : Mem} (mem : IsMem m) (env : Env) (denv : DecodeEnv)
    (tables : (p : ℕ) → denv.table p ≡ env.table p)
    (Good : List Field → (src dest top : ℕ) → Type 0) (bytes : List Field → ℕ → List ℕ)
    (Ready : List Field → ℕ → Mem → Type 0) (Same : List Field → (src dest : ℕ) → Mem → Type 0)
    (sub : Submessage) (noinit : Nested) (nested : NestedTrip Good bytes Ready Same sub noinit)
    (fields : List Field) (src dest : ℕ) (simple : IsSimple fields) (k : ℕ) (lt : k < length fields)
    (f : FieldTrip Good bytes env.table m
      (field_at fields k)
      (walk fields src k).p_data
      (walk fields dest k)) where
  there : current (walk fields dest k) ≡ field_at fields k
  there = walk-current fields dest simple.closed simple.no_oneof k lt

  -- Where the entry stands.
  pub block :
      (first_byte (walk fields dest k) ≤ (walk fields dest k).p_data)
      × (end_byte (walk fields dest k)
          ≡ (walk fields dest k).p_data + (field_at fields k).data_size)
      × (pb_htype (field_at fields k).type ≡ htype_optional
          → (first_byte (walk fields dest k) ≡ (walk fields dest k).p_size)
            × ((walk fields dest k).p_size < end_byte (walk fields dest k)))
  block = elim f.singular [
    | inl r ↦ (rw (there, r) (omega arith), rw there refl, λ o. absurd (omega (arith, o, r)))
    | inr o ↦ (
      rw (there, o.0) (omega (arith, o.2)),
      rw there refl,
      λ _. (rw (there, o.0) refl, rw there (omega (arith, o.2))),
    )
  ]

  value-Agree :
      (m1 m2 : Mem)
      → Agree (first_byte (walk fields dest k)) (end_byte (walk fields dest k)) m1 m2
      → Agree
          (walk fields dest k).p_data
          ((walk fields dest k).p_data + (field_at fields k).data_size)
          m1
          m2
  value-Agree m1 m2 agree q le under =
      let (first, end, size) = block in
      agree q (omega (arith, le, first)) (omega (arith, under, end))

  size-Agree :
      (m1 m2 : Mem)
      → Agree (first_byte (walk fields dest k)) (end_byte (walk fields dest k)) m1 m2
      → pb_htype (field_at fields k).type ≡ htype_optional
      → m2 (walk fields dest k).p_size ≡ m1 (walk fields dest k).p_size
  size-Agree m1 m2 agree o =
      let at = block.2 o in agree (walk fields dest k).p_size (omega (arith, at.0)) at.1

  pub ReadyAt-Local :
      Local
        (first_byte (walk fields dest k))
        (end_byte (walk fields dest k))
        (ReadyAt env.table fields dest Ready k)
  ReadyAt-Local m1 m2 agree (clear, below) = (
    (λ o. size-Agree m1 m2 agree o ∙ clear o),
    ItemReady-Local mem env denv tables Good bytes Ready Same sub noinit nested (field_at fields k)
        (walk fields src k).p_data (walk fields dest k) f m1 m2 (value-Agree m1 m2 agree) below,
  )

  pub SameAt-Local :
      Local
        (first_byte (walk fields dest k))
        (end_byte (walk fields dest k))
        (SameAt env.table fields dest Same m src k)
  SameAt-Local m1 m2 agree (is, value) = (
    present-same ∙ is,
    (λ t.
        SameItem-Local mem env denv tables Good bytes Ready Same sub noinit nested
          (field_at fields k) (walk fields src k).p_data (walk fields dest k) f m1 m2
          (value-Agree m1 m2 agree) (value t)),
  )
    where
      present-same :
          is_present m2 (field_at fields k) (walk fields dest k).p_data
          ≡ is_present m1 (field_at fields k) (walk fields dest k).p_data
      present-same = elim f.singular [
        | inl r ↦
            present-required m2 (field_at fields k) (walk fields dest k).p_data r
            ∙ sym (present-required m1 (field_at fields k) (walk fields dest k).p_data r)
        | inr o ↦
            let at = walk-p_size fields dest simple.closed simple.no_oneof k lt in
            present-byte m2 (field_at fields k) (walk fields dest k).p_data
              (m1 (displace (walk fields dest k).p_data (field_at fields k).size_offset) == 0) o.0
              (ap (λ (q : ℕ). m2 q == 0) (sym at)
                ∙ ap (λ (b : ℕ). b == 0) (size-Agree m1 m2 agree o.0)
                ∙ ap (λ (q : ℕ). m1 q == 0) at)
            ∙ sym (
                present-byte m1 (field_at fields k) (walk fields dest k).p_data
                  (m1 (displace (walk fields dest k).p_data (field_at fields k).size_offset) == 0)
                  o.0 refl)
      ]
