-- ===== src/Message/Decode/Trip/Items.antt =====
-- The value of a field, by its LTYPE, where submessages are taken.
use ios_college_work.Common.{
  ℕ, ◌+◌, ◌≤◌, ◌≡◌, ◌≢◌, refl, ap, ◌∙◌, inl, inr, true, leb, Option, List, ◌++◌, length, arith,
  le→leb,
}
use native.Mathlib.Decide.{dec_le}
use ios_college_work.Stream.Errors.{Error}
use ios_college_work.Stream.Writes.{Writes}
use ios_college_work.Wire.Varint.{varint}
use ios_college_work.Message.Memory.{Mem, bytes_at}
use ios_college_work.Message.Field.{
  Field, pb_ltype, pb_htype, ltype_last_packable, ltype_bytes, ltype_submessage, htype_repeated,
}
use ios_college_work.Message.Iter.{FieldIter}
use ios_college_work.Message.Encode.Env.{Env, Submessage}
use ios_college_work.Message.Encode.Items.{string_size, pb_encoder}
use ios_college_work.Message.Encode.Contract.Items.{IsMem}
use ios_college_work.Message.Decode.Env.{DecodeEnv, Nested}
use ios_college_work.Message.Decode.Nest.{pb_decoder}
use ios_college_work.Message.Decode.Bytes.{array_size_at, array_at, array_bytes}
use ios_college_work.Message.Decode.Trip.Takes.{
  Agree, Local, Took, Takes, load-Agree, bytes_at-Agree,
}
use ios_college_work.Message.Decode.Trip.Numbers.{number_bytes, number-Takes, number-Writes}
use ios_college_work.Message.Decode.Trip.Arrays.{
  array-Takes, array-Writes, fixed_length-Takes, fixed_length-Writes,
}
use ios_college_work.Message.Decode.Trip.Strings.{
  string_at, string_size-Agree, string-Takes, string_field-Writes,
}
use ios_college_work.Message.Decode.Trip.Nested.{submessage-Takes, submessage_field-Writes}
use ios_college_work.Message.Decode.Trip.Plan.{item_bytes, SameItem, FieldTrip}

-- An encoder and a decoder of submessages: the one writes `bytes`, which the other takes to a structure with
-- the same fields.
pub record NestedTrip (Good : List Field → (src dest top : ℕ) → Type 0)
    (bytes : List Field → ℕ → List ℕ) (Ready : List Field → ℕ → Mem → Type 0)
    (Same : List Field → (src dest : ℕ) → Mem → Type 0) (sub : Submessage) (noinit : Nested)
    : Type 0 where
  pub writes :
      (fields : List Field) (src dest top : ℕ)
      → Good fields src dest top
      → Writes (sub fields src) (bytes fields src)
  pub takes :
      (fields : List Field) (src dest top : ℕ)
      → Good fields src dest top
      → (m : Mem) → Ready fields dest m
      → (rest : List ℕ) (e : Option Error)
      → Took (noinit fields dest) (bytes fields src) dest top (Same fields src dest) m rest 0 e
  pub ready :
      (fields : List Field) (src dest top : ℕ)
      → Good fields src dest top
      → Local dest top (Ready fields dest)
  pub same :
      (fields : List Field) (src dest top : ℕ)
      → Good fields src dest top
      → Local dest top (Same fields src dest)

module _ {m : Mem} (mem : IsMem m) (env : Env) (denv : DecodeEnv)
    (tables : (p : ℕ) → denv.table p ≡ env.table p)
    (Good : List Field → (src dest top : ℕ) → Type 0) (bytes : List Field → ℕ → List ℕ)
    (Ready : List Field → ℕ → Mem → Type 0) (Same : List Field → (src dest : ℕ) → Mem → Type 0)
    (sub : Submessage) (noinit : Nested) (nested : NestedTrip Good bytes Ready Same sub noinit)
    (field : Field) (src : ℕ) (iter : FieldIter)
    (f : FieldTrip Good bytes env.table m field src iter) where
  abbrev pub ItemReady : Mem → Type 0
  ItemReady m' = pb_ltype field.type ≡ ltype_submessage → Ready (env.table field.ptr) iter.p_data m'

  once : pb_htype field.type ≢ htype_repeated
  once e = elim f.singular [
    | inl r ↦ absurd (omega (arith, e, r))
    | inr o ↦ absurd (omega (arith, e, o.0))
  ]

  pub item-Writes : Writes (pb_encoder env sub m field src) (item_bytes bytes env.table m field src)
  item-Writes = elim f.known [
    | inl small ↦ elim (dec_le (pb_ltype field.type) ltype_last_packable) [
      | yes h ↦
          let t : leb (pb_ltype field.type) ltype_last_packable ≡ true = le→leb _ _ h in
          rw t (number-Writes mem field src env sub (f.number h))
      | no h ↦
          let e : pb_ltype field.type ≡ ltype_bytes = omega (arith, h, small) in
          rw e (array-Writes mem field src 0 env sub e f.there (f.array e))
    ]
    | inr (inl e) ↦
        let (holds, small) = f.string e in
        rw e (string_field-Writes m field src 0 env sub e f.static f.there holds small)
    | inr (inr (inl e)) ↦
        let (there, short, good) = f.submessage e in
        rw e (
          submessage_field-Writes m field src env sub (bytes (env.table field.ptr) src) e there (
            nested.writes (env.table field.ptr) src iter.p_data (iter.p_data + field.data_size)
              good))
    | inr (inr (inr e)) ↦ rw e (fixed_length-Writes mem field src 0 env sub e (f.fixed e))
  ]

  -- A contract for one kind of value says all that `SameItem` asks of it.
  kind-Takes :
      (depth : ℕ) (bs : List ℕ) {P R : Mem → Type 0}
      → item_bytes bytes env.table m field src ≡ bs
      → ((m' : Mem) → ItemReady m' → R m')
      → ((m' : Mem) → P m' → SameItem Same env.table m field src iter.p_data m')
      → Takes
          (pb_decoder depth denv noinit field iter.p_data)
          bs
          iter.p_data
          (iter.p_data + field.data_size)
          R
          P
      → Takes
          (pb_decoder depth denv noinit field iter.p_data)
          (item_bytes bytes env.table m field src)
          iter.p_data
          (iter.p_data + field.data_size)
          ItemReady
          (SameItem Same env.table m field src iter.p_data)
  kind-Takes depth bs same_bytes need all takes = rw same_bytes (λ m' ready rest n e.
      let t = takes m' (need m' ready) rest n e in
      record { after = t.after; runs = t.runs; kept = t.kept; same = all t.after t.same })

  pub item-Takes :
      (depth : ℕ)
      → Takes
          (pb_decoder depth denv noinit field iter.p_data)
          (item_bytes bytes env.table m field src)
          iter.p_data
          (iter.p_data + field.data_size)
          ItemReady
          (SameItem Same env.table m field src iter.p_data)
  item-Takes depth = elim f.known [
    | inl small ↦ elim (dec_le (pb_ltype field.type) ltype_last_packable) [
      | yes h ↦
          kind-Takes depth (number_bytes m field src)
            (let t : leb (pb_ltype field.type) ltype_last_packable ≡ true = le→leb _ _ h in
              rw t refl)
            (λ _ _. tt)
            (λ m' same. (
              (λ _. same),
              (λ e. absurd (omega (arith, e, h))),
              (λ e. absurd (omega (arith, e, h))),
              (λ e. absurd (omega (arith, e, h))),
              (λ e. absurd (omega (arith, e, h))),
            ))
            (number-Takes mem field src iter.p_data depth denv noinit (f.number h))
      | no h ↦
          let e : pb_ltype field.type ≡ ltype_bytes = omega (arith, h, small) in
          kind-Takes depth (array_bytes m src) (rw e refl) (λ _ _. tt)
            (λ m' same. (
              (λ le. absurd (omega (arith, e, le))),
              (λ _. same),
              (λ other. absurd (omega (arith, e, other))),
              (λ other. absurd (omega (arith, e, other))),
              (λ other. absurd (omega (arith, e, other))),
            ))
            (array-Takes mem field src iter.p_data depth denv noinit e f.static (f.array e))
    ]
    | inr (inl e) ↦
        let (holds, small) = f.string e in
        kind-Takes depth
          (varint (string_size m field.data_size src) ++ string_at m field.data_size src)
          (rw e refl) (λ _ _. tt)
          (λ m' same. (
            (λ le. absurd (omega (arith, e, le))),
            (λ other. absurd (omega (arith, e, other))),
            (λ other. absurd (omega (arith, e, other))),
            (λ _. same),
            (λ other. absurd (omega (arith, e, other))),
          ))
          (string-Takes m field src iter.p_data depth denv noinit e f.static holds small)
    | inr (inr (inl e)) ↦
        let (there, short, good) = f.submessage e in
        kind-Takes depth
          (varint (length (bytes (env.table field.ptr) src)) ++ bytes (env.table field.ptr) src)
          (rw e refl) (λ _ ready. ready e)
          (λ m' same. (
            (λ le. absurd (omega (arith, e, le))),
            (λ other. absurd (omega (arith, e, other))),
            (λ other. absurd (omega (arith, e, other))),
            (λ other. absurd (omega (arith, e, other))),
            (λ _. same),
          ))
          (submessage-Takes depth denv noinit field iter.p_data (bytes (env.table field.ptr) src) e
            there once short
            (λ m' ready rest e'. rw (tables field.ptr) (
              nested.takes (env.table field.ptr) src iter.p_data (iter.p_data + field.data_size)
                good m' ready rest e')))
    | inr (inr (inr e)) ↦
        kind-Takes depth (varint field.data_size ++ bytes_at m src field.data_size) (rw e refl)
          (λ _ _. tt)
          (λ m' same. (
            (λ le. absurd (omega (arith, e, le))),
            (λ other. absurd (omega (arith, e, other))),
            (λ _. same),
            (λ other. absurd (omega (arith, e, other))),
            (λ other. absurd (omega (arith, e, other))),
          ))
          (fixed_length-Takes mem field src iter.p_data depth denv noinit e (f.fixed e))
  ]

  pub ItemReady-Local : Local iter.p_data (iter.p_data + field.data_size) ItemReady
  ItemReady-Local m1 m2 agree ready = λ e.
      nested.ready (env.table field.ptr) src iter.p_data (iter.p_data + field.data_size)
        (f.submessage e).2 m1 m2 agree (ready e)

  array-Local :
      (m1 m2 : Mem)
      → Agree iter.p_data (iter.p_data + field.data_size) m1 m2
      → array_size_at m src + 4 ≤ field.data_size
      → (array_size_at m1 iter.p_data ≡ array_size_at m src)
        × (array_at m1 iter.p_data ≡ array_at m src)
      → (array_size_at m2 iter.p_data ≡ array_size_at m src)
        × (array_at m2 iter.p_data ≡ array_at m src)
  array-Local m1 m2 agree holds (size, bs) =
      let size' : array_size_at m2 iter.p_data ≡ array_size_at m1 iter.p_data =
        load-Agree m1 m2 iter.p_data 4 (λ q le lt. agree q le (omega (arith, lt, holds))) in
      (
        size' ∙ size,
        ap (λ (k : ℕ). bytes_at m2 (iter.p_data + 4) k) size'
            ∙ bytes_at-Agree m1 m2 (iter.p_data + 4) (array_size_at m1 iter.p_data)
                (λ q le lt. agree q (omega (arith, le)) (omega (arith, lt, size, holds)))
            ∙ bs,
      )

  pub SameItem-Local :
      Local iter.p_data
        (iter.p_data + field.data_size)
        (SameItem Same env.table m field src iter.p_data)
  SameItem-Local m1 m2 agree (number, array, fixed, string, submessage) = (
    (λ h. load-Agree m1 m2 iter.p_data field.data_size agree ∙ number h),
    (λ e. array-Local m1 m2 agree (f.array e) (array e)),
    (λ e. bytes_at-Agree m1 m2 iter.p_data field.data_size agree ∙ fixed e),
    (λ e.
        let sizes = string_size-Agree m1 m2 field.data_size iter.p_data agree in
        let holds = f.string e in
        (
          sizes ∙ (string e).0,
          ap (λ (k : ℕ). bytes_at m2 iter.p_data k) sizes
              ∙ bytes_at-Agree m1 m2 iter.p_data (string_size m1 field.data_size iter.p_data)
                  (λ q le lt. agree q le (omega (arith, lt, (string e).0, holds)))
              ∙ (string e).1,
        )),
    (λ e.
        nested.same (env.table field.ptr) src iter.p_data (iter.p_data + field.data_size)
          (f.submessage e).2 m1 m2 agree (submessage e)),
  )
