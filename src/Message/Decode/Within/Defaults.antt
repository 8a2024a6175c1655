-- ===== src/Message/Decode/Within/Defaults.antt =====
-- `pb_message_set_to_defaults` ends, and stores within the region.
use ios_college_work.Common.{
  ne→==, fault, ℕ, zero, suc, ◌+◌, ◌*◌, ◌≡◌, ◌≢◌, refl, ◌∙◌, inl, inr, Bool, true, false,
  Bool-cases, not, ◌==◌, ◌&&◌, ◌||◌, if◌then◌else◌, List, length, arith, Run, Cmd, ok, err, fault,
  stuck, and_then, ◌>>◌,
}
use ios_college_work.Message.Memory.{Mem, bytes_at}
use ios_college_work.Message.Field.{
  Field, pb_ltype, pb_htype, pb_atype, ltype_submessage, ltype_extension, htype_optional,
  htype_repeated, htype_oneof, atype_static, atype_pointer,
}
use ios_college_work.Message.Iter.{
  FieldIter, current, previous_size, pb_field_iter_begin, pb_field_iter_next,
}
use ios_college_work.Message.Encode.Contract.Items.{length-bytes_at}
use ios_college_work.Message.Decode.Machine.{store_bytes, store-outside, store_bytes-outside}
use ios_college_work.Message.Decode.Defaults.{
  poke, default_fields, default_message, default_value, default_static, default_pointer,
  pb_field_set_to_default, pb_message_set_to_defaults,
}
use ios_college_work.Message.Decode.Contained.{Kept}
use ios_college_work.Message.Decode.Layout.{Inside, FieldFits, CountFits, Entries, IsLaidOut}

-- A run on the memory that succeeds, and stores within the region.
abbrev pub Sets : (lo len : ℕ) → Mem → Run Mem (Unit {0}) → Type 0
Sets lo len m (ok _ m') = Kept lo len m m'
Sets lo len m (err m') = ⊥
Sets lo len m fault = ⊥
Sets lo len m stuck = ⊥

abbrev pub SetsCmd : (lo len : ℕ) → Cmd Mem (Unit {0}) → Type 0
SetsCmd lo len c = (m : Mem) → Sets lo len m (c m)

module _ (lo len : ℕ) where
  then_run :
      (m : Mem) (r : Run Mem (Unit {0})) (k : Cmd Mem (Unit {0}))
      → Sets lo len m r
      → SetsCmd lo len k
      → Sets lo len m (and_then r (λ _. k))
  then_run m (ok _ m') k s next = later (k m') (next m')
    where
      later : (r : Run Mem (Unit {0})) → Sets lo len m' r → Sets lo len m r
      later (ok _ m'') kept = λ q out. kept q out ∙ s q out
      later (err _) kept = kept
      later fault kept = kept
      later stuck kept = kept
  then_run m (err m') k s next = absurd s
  then_run m fault k s next = absurd s
  then_run m stuck k s next = absurd s

  then-Sets :
      (c k : Cmd Mem (Unit {0})) → SetsCmd lo len c → SetsCmd lo len k → SetsCmd lo len (c >> k)
  then-Sets c k first next m = then_run m (c m) k (first m) next

  ok-Sets : SetsCmd lo len (ok tt)
  ok-Sets m q out = refl

  poke-Sets : (p size value : ℕ) → Inside lo len p size → SetsCmd lo len (poke p size value)
  poke-Sets p size value inside m q out =
      store-outside m p size value q (ground (arith, inside, out))

  if-Sets :
      (t : Bool) (c k : Cmd Mem (Unit {0}))
      → (t ≡ true → SetsCmd lo len c)
      → (t ≡ false → SetsCmd lo len k)
      → SetsCmd lo len (λ m. if t then c m else k m)
  if-Sets true c k first second = first refl
  if-Sets false c k first second = second refl

  bytes-Sets :
      (p : ℕ) (bs : List ℕ)
      → Inside lo len p (length bs)
      → SetsCmd lo len (λ m. ok tt (store_bytes m p bs))
  bytes-Sets p bs inside m q out = store_bytes-outside m p bs q (ground (arith, inside, out))

  -- A walk along the table, one entry after another.
  fields-Sets :
      (fuel : ℕ) (set : FieldIter → Cmd Mem (Unit {0})) (P Q : FieldIter → Type 0)
      (iter : FieldIter)
      → ((it : FieldIter) → P it → SetsCmd lo len (set it))
      → Entries fuel P Q iter
      → SetsCmd lo len (default_fields fuel set iter)
  unfolding default_fields
  fields-Sets zero set P Q iter each w = absurd w
  fields-Sets (suc fuel) set P Q iter each w =
      let next = pb_field_iter_next iter in
      then-Sets (set iter) (if next.1 then default_fields fuel set next.0 else ok tt)
        (each iter w.0)
        (elim (Bool-cases next.1) [
          | inl more ↦ rw more (fields-Sets fuel set P Q next.0 each (rw more at w.1))
          | inr last ↦ rw last ok-Sets
        ])

  message-Sets :
      (set : FieldIter → Cmd Mem (Unit {0})) (P Q : FieldIter → Type 0) (first : FieldIter × Bool)
      → ((it : FieldIter) → P it → SetsCmd lo len (set it))
      → Entries (suc (length first.0.start)) P Q first.0
      → SetsCmd lo len (default_message set first)
  unfolding default_message
  message-Sets set P Q (iter, true) each w =
      fields-Sets (suc (length iter.start)) set P Q iter each w
  message-Sets set P Q (iter, false) each w = ok-Sets

  module _ (Good : List Field → ℕ → Type 0) (table : ℕ → List Field)
      (message : List Field → ℕ → Cmd Mem (Unit {0}))
      (each : (fields : List Field) (dest : ℕ)
        → Good fields dest
        → SetsCmd lo len (message fields dest))
      (iter : FieldIter) (fits : FieldFits lo len Good table iter) where
    place_whole :
        pb_atype (current iter).type ≡ atype_static
        → pb_htype (current iter).type ≢ htype_repeated
        → Inside lo len iter.p_data (current iter).data_size
    place_whole static single =
        let e : previous_size (current iter) ≡ (current iter).data_size =
          unfold previous_size in ground arith in
        rw e at (fits.place (ground (arith, static)))

    first_place :
        pb_atype (current iter).type ≡ atype_static
        → pb_htype (current iter).type ≢ htype_repeated
        → pb_ltype (current iter).type ≡ ltype_submessage
        → Good (table (current iter).ptr) iter.p_data
    first_place static single sub =
        let here : iter.p_data + (current iter).data_size * 0 ≡ iter.p_data = omega arith in
        rw here at (fits.submessage static sub 0 (ground arith))

    value-Sets :
        pb_atype (current iter).type ≡ atype_static
        → pb_htype (current iter).type ≢ htype_repeated
        → SetsCmd lo len (default_value message table (current iter) iter.p_data)
    unfolding default_value
    value-Sets static single =
        let field = current iter in
        let inside = place_whole static single in
        if-Sets (pb_ltype field.type == ltype_submessage)
          (λ m. if field.ptr == 0 then fault else message (table field.ptr) iter.p_data m)
          (λ m.
            if not (field.ptr == 0)
            then ok tt (store_bytes m iter.p_data (bytes_at m field.ptr field.data_size))
            else poke iter.p_data field.data_size 0 m)
          (λ t.
            rw (ne→== field.ptr 0 (fits.linked static (ground arith)))
              (each (table field.ptr) iter.p_data (first_place static single (ground arith))))
          (λ t m. elim (Bool-cases (not (field.ptr == 0))) [
            | inl u ↦ rw u (
                bytes-Sets iter.p_data (bytes_at m field.ptr field.data_size)
                  (rw (length-bytes_at m field.ptr field.data_size) inside) m)
            | inr u ↦ rw u (poke-Sets iter.p_data field.data_size 0 inside m)
          ])

    static-Sets :
        pb_atype (current iter).type ≡ atype_static
        → SetsCmd lo len (default_static message table iter)
    unfolding default_static
    static-Sets static =
        let htype = pb_htype (current iter).type in
        let value = default_value message table (current iter) iter.p_data in
        if-Sets (htype == htype_optional && not (iter.p_size == iter.p_data))
          (poke iter.p_size 1 0 >> value)
          (λ m.
            if htype == htype_repeated || htype == htype_oneof
            then poke iter.p_size 4 0 m
            else value m)
          (λ t.
            then-Sets (poke iter.p_size 1 0) value
              (poke-Sets iter.p_size 1 0 (ground (arith, fits.has (ground (arith, static)))))
              (value-Sets static (ground (arith, t))))
          (λ t.
            if-Sets (htype == htype_repeated || htype == htype_oneof) (poke iter.p_size 4 0) value
              (λ u.
                poke-Sets iter.p_size 4 0
                  (inr (fits.count (ground (arith, static)) (ground (arith, u)))))
              (λ u. value-Sets static (ground (arith, u))))

    pointer-Sets :
        pb_atype (current iter).type ≡ atype_pointer → SetsCmd lo len (default_pointer iter)
    unfolding default_pointer
    pointer-Sets pointer =
        let htype = pb_htype (current iter).type in
        let many = htype == htype_repeated || htype == htype_oneof in
        let e : previous_size (current iter) ≡ 8 =
          unfold previous_size in ground (arith, pointer) in
        then-Sets (poke iter.p_data 8 0) (if many then poke iter.p_size 4 0 else ok tt)
          (poke-Sets iter.p_data 8 0 (rw e at (fits.place (ground (arith, pointer)))))
          (elim (Bool-cases many) [
            | inl u ↦ rw u (
                poke-Sets iter.p_size 4 0
                  (inr (fits.count (ground (arith, pointer)) (ground (arith, u)))))
            | inr u ↦ rw u ok-Sets
          ])

  field-Sets :
      (depth : ℕ) (table : ℕ → List Field) (Good : List Field → ℕ → Type 0) (iter : FieldIter)
      → ((fields : List Field) (dest : ℕ)
          → Good fields dest
          → SetsCmd lo len (pb_message_set_to_defaults depth table fields dest))
      → FieldFits lo len Good table iter
      → SetsCmd lo len (pb_field_set_to_default (suc depth) table iter)
  unfolding pb_field_set_to_default pb_message_set_to_defaults
  field-Sets depth table Good iter each fits m =
      let type = (current iter).type in
      let known : (pb_ltype type == ltype_extension) ≡ false = ground (arith, fits.known) in
      let message = pb_message_set_to_defaults depth table in
      elim (Bool-cases (pb_atype type == atype_static)) [
        | inl t ↦ rw (known, t) (static-Sets Good table message each iter fits (ground arith) m)
        | inr t ↦ elim (Bool-cases (pb_atype type == atype_pointer)) [
          | inl u ↦
              rw (known, t, u) (pointer-Sets Good table message each iter fits (ground arith) m)
          | inr u ↦ rw (known, t, u) (ok-Sets m)
        ]
      ]

  -- The table and those of its submessages, nested less than `depth` deep, have no extensions, fewer than 64
  -- required fields and not 32, a table for each static submessage, and their fields stand in the region. Then `pb_message_set_to_defaults` ends, without
  -- undefined behaviour, and stores only within the region.
  pub pb_message_set_to_defaults-Sets :
      (depth : ℕ) (table : ℕ → List Field) (fields : List Field) (dest : ℕ)
      → IsLaidOut depth lo len table fields dest
      → SetsCmd lo len (pb_message_set_to_defaults depth table fields dest)
  unfolding pb_message_set_to_defaults
  pb_message_set_to_defaults-Sets zero table fields dest w = absurd w
  pb_message_set_to_defaults-Sets (suc depth) table fields dest w =
      let Good = IsLaidOut depth lo len table in
      message-Sets (pb_field_set_to_default (suc depth) table) (FieldFits lo len Good table)
        CountFits (pb_field_iter_begin fields dest)
        (λ it fits.
          field-Sets depth table Good it (pb_message_set_to_defaults-Sets depth table) fits)
        (unfold pb_field_iter_begin in w)
