-- ===== src/Message/Decode/Within/Static.antt =====
-- `decode_static_field` within the region of a message.
use ios_college_work.Common.{
  ne→==, ltb, false, ℕ, ◌+◌, ◌-◌, ◌*◌, ◌%◌, ◌^◌, ◌≤◌, ◌<◌, ◌≡◌, ◌≢◌, inl, inr, Bool-cases, leb,
  ◌==◌, ◌&&◌, if◌then◌else◌, List, arith, ok, ◌>>◌,
}
use ios_college_work.Stream.Errors.{invalid_field_type, array_overflow}
use ios_college_work.Wire.Encode.{wt_string}
use ios_college_work.Message.Memory.{load}
use ios_college_work.Message.Field.{
  Field, pb_ltype, pb_htype, pb_atype, ltype_last_packable, ltype_submessage,
  ltype_fixed_length_bytes, htype_required, htype_optional, htype_repeated, htype_oneof,
  atype_static,
}
use ios_college_work.Message.Iter.{FieldIter, current}
use ios_college_work.Message.Decode.Machine.{write}
use ios_college_work.Message.Decode.Env.{DecodeEnv, Nested}
use ios_college_work.Message.Decode.Nest.{pb_decoder}
use ios_college_work.Message.Decode.Static.{
  item_address, count_item, decode_entry, set_submessage, decode_oneof, decode_static_field,
}
use ios_college_work.Message.Decode.Layout.{Inside, FieldFits, IsLaidOut, slots}
use ios_college_work.Message.Decode.Within.{WithinCmd, Any, bind-Within, ok-Within, refuse-Within}
use ios_college_work.Message.Decode.Within.Steps.{write-Within}
use ios_college_work.Message.Decode.Within.Slots.{item_room, slot-Inside, packed-Within}
use ios_college_work.Message.Decode.Within.Items.{pb_decoder-Within}
use ios_college_work.Message.Decode.Within.Nest.{pb_message_set-Within, pb_dec_submessage-Within}

module _ (lo len depth : ℕ) (env : DecodeEnv) (noinit : Nested)
    (each : (fields : List Field) (dest most : ℕ)
      → IsLaidOut depth lo len env.table fields dest
      → WithinCmd lo len (Any {A = Unit {0}}) 0 most (noinit fields dest))
    (iter : FieldIter) (fits : FieldFits lo len (IsLaidOut depth lo len env.table) env.table iter)
    (static : pb_atype (current iter).type ≡ atype_static) where
  -- The decoder of the field at a slot.
  slot-Within :
      (most i : ℕ)
      → i < slots (current iter)
      → WithinCmd lo len
          (Any {A = Unit {0}})
          0
          most
          (pb_decoder depth env noinit (current iter) (iter.p_data + (current iter).data_size * i))
  slot-Within most i low =
      let field = current iter in
      let dest = iter.p_data + field.data_size * i in
      pb_decoder-Within lo len field dest
        (slot-Inside lo len depth env noinit iter fits static i low) depth env noinit fits.four
        fits.eight most fits.known
        (λ sub.
          pb_dec_submessage-Within lo len depth env noinit field dest
            (fits.submessage static sub i low)
            (λ most'. each (env.table field.ptr) dest most' (fits.submessage static sub i low))
            most)

  count_item-Within :
      (most : ℕ)
      → (lo ≤ iter.p_size) × (iter.p_size + 4 ≤ lo + len)
      → WithinCmd lo len (Any {A = Unit {0}}) 0 most (count_item iter.p_size)
  unfolding count_item
  count_item-Within most place xs n e m small =
      write-Within lo len most iter.p_size 4 ((load m iter.p_size 4 + 1) % 2 ^ 32) (inr place) xs n
        e m small

  single-Within :
      (most : ℕ)
      → pb_htype (current iter).type ≢ htype_repeated
      → WithinCmd lo len
          (Any {A = Unit {0}})
          0
          most
          (pb_decoder depth env noinit (current iter) iter.p_data)
  single-Within most single =
      let here : iter.p_data + (current iter).data_size * 0 ≡ iter.p_data = omega arith in
      rw here at (slot-Within most 0 (ground arith))

  decode_entry-Within :
      (most : ℕ)
      → pb_htype (current iter).type ≡ htype_repeated
      → WithinCmd lo len
          (Any {A = Unit {0}})
          0
          most
          (decode_entry (pb_decoder depth env noinit (current iter)) iter)
  unfolding decode_entry
  decode_entry-Within most repeated xs n e m small held =
      let field = current iter in
      let size = load m iter.p_size 4 in
      elim (Bool-cases (leb field.array_size size)) [
        | inl t ↦
            rw t
              (refuse-Within lo len (Any {A = Unit {0}}) 0 most array_overflow xs n e m small held)
        | inr t ↦
            let address : item_address iter size ≡ iter.p_data + field.data_size * size =
              ground (
                arith,
                fits.small,
                item_room field.data_size size field.array_size (ground arith),
              ) in
            rw (t, address)
              (bind-Within lo len (Any {A = Unit {0}}) (Any {A = Unit {0}}) 0 most
                (count_item iter.p_size)
                (λ _. pb_decoder depth env noinit field (iter.p_data + field.data_size * size))
                (count_item-Within most (fits.count (ground (arith, static)) (inl repeated)))
                (λ _ _. slot-Within (most - 0) size (ground arith)) xs n e m small held)
      ]

  whole_Inside :
      pb_htype (current iter).type ≢ htype_repeated
      → Inside lo len iter.p_data (current iter).data_size
  whole_Inside single =
      let here : iter.p_data + (current iter).data_size * 0 ≡ iter.p_data = omega arith in
      rw here at (slot-Inside lo len depth env noinit iter fits static 0 (ground (arith, single)))

  -- The structure of a oneof field is made empty first.
  cleared-Within :
      (most : ℕ)
      → pb_htype (current iter).type ≢ htype_repeated
      → pb_ltype (current iter).type ≡ ltype_submessage
      → WithinCmd lo len (Any {A = Unit {0}}) 0 most (
          write iter.p_data (current iter).data_size 0
          >> set_submessage depth env (current iter) iter.p_data)
  cleared-Within most single sub =
      bind-Within lo len (Any {A = Unit {0}}) (Any {A = Unit {0}}) 0 most
        (write iter.p_data (current iter).data_size 0)
        (λ _. set_submessage depth env (current iter) iter.p_data)
        (write-Within lo len most iter.p_data (current iter).data_size 0 (whole_Inside single))
        (λ _ _.
          unfold set_submessage in
          rw (ne→== (current iter).ptr 0 (fits.linked static sub)) (
            pb_message_set-Within lo len depth env (env.table (current iter).ptr) iter.p_data
              (most - 0) laid))
    where
      laid : IsLaidOut depth lo len env.table (env.table (current iter).ptr) iter.p_data
      laid =
          let here : iter.p_data + (current iter).data_size * 0 ≡ iter.p_data = omega arith in
          rw here at (fits.submessage static sub 0 (ground (arith, single)))

  decode_oneof-Within :
      (most : ℕ)
      → pb_htype (current iter).type ≡ htype_oneof
      → WithinCmd lo len
          (Any {A = Unit {0}})
          0
          most
          (decode_oneof depth env (pb_decoder depth env noinit (current iter)) iter)
  unfolding decode_oneof
  decode_oneof-Within most oneof =
      let field = current iter in
      let Done = Any {A = Unit {0}} in
      let fresh =
        if pb_ltype field.type == ltype_submessage
        then write iter.p_data field.data_size 0 >> set_submessage depth env field iter.p_data
        else ok tt in
      let single : pb_htype field.type ≢ htype_repeated = ground (arith, oneof) in
      bind-Within lo len Done Done 0 most (write iter.p_size 4 field.tag >> fresh)
        (λ _. pb_decoder depth env noinit field iter.p_data)
        (bind-Within lo len Done Done 0 most (write iter.p_size 4 field.tag) (λ _. fresh)
          (write-Within lo len most iter.p_size 4 field.tag
            (inr (fits.count (ground (arith, static)) (inr oneof))))
          (λ _ _. elim (Bool-cases (pb_ltype field.type == ltype_submessage)) [
            | inl t ↦ rw t (cleared-Within (most - 0) single (ground arith))
            | inr t ↦ rw t (ok-Within lo len Done (most - 0) tt tt)
          ]))
        (λ _ _. single-Within (most - 0) single)

  optional-Within :
      (most : ℕ)
      → pb_htype (current iter).type ≡ htype_optional
      → WithinCmd lo len (Any {A = Unit {0}}) 0 most (
          (if iter.p_size == iter.p_data then ok tt else write iter.p_size 1 1)
          >> pb_decoder depth env noinit (current iter) iter.p_data)
  optional-Within most optional =
      let Done = Any {A = Unit {0}} in
      bind-Within lo len Done Done 0 most
        (if iter.p_size == iter.p_data then ok tt else write iter.p_size 1 1)
        (λ _. pb_decoder depth env noinit (current iter) iter.p_data)
        (elim (Bool-cases (iter.p_size == iter.p_data)) [
          | inl t ↦ rw t (ok-Within lo len Done most tt tt)
          | inr t ↦ rw t (
              write-Within lo len most iter.p_size 1 1
                (ground (arith, fits.has (ground (arith, static)) optional)))
        ])
        (λ _ _. single-Within (most - 0) (ground (arith, optional)))

  pub decode_static_field-Within :
      (most wire_type : ℕ)
      → WithinCmd lo len
          (Any {A = Unit {0}})
          0
          most
          (decode_static_field depth env noinit wire_type iter)
  unfolding decode_static_field
  decode_static_field-Within most wire_type =
      let type = (current iter).type in
      let known : ltb ltype_fixed_length_bytes (pb_ltype type) ≡ false =
        ground (arith, fits.known) in
      rw known (elim (Bool-cases (pb_htype type == htype_required)) [
        | inl t ↦ rw t (single-Within most (ground arith))
        | inr t0 ↦ elim (Bool-cases (pb_htype type == htype_optional)) [
          | inl t ↦ rw (t0, t) (optional-Within most (ground arith))
          | inr t1 ↦ elim (Bool-cases (pb_htype type == htype_repeated)) [
            | inl t ↦
                elim (Bool-cases
                  (wire_type == wt_string && leb (pb_ltype type) ltype_last_packable)) [
                    | inl u ↦
                        rw (t0, t1, t, u)
                          (packed-Within lo len depth env noinit iter fits static (ground arith)
                            most (ground (arith, u)))
                    | inr u ↦ rw (t0, t1, t, u) (decode_entry-Within most (ground arith))
                  ]
            | inr t2 ↦ elim (Bool-cases (pb_htype type == htype_oneof)) [
              | inl t ↦ rw (t0, t1, t2, t) (decode_oneof-Within most (ground arith))
              | inr t ↦
                  rw (t0, t1, t2, t)
                    (refuse-Within lo len (Any {A = Unit {0}}) 0 most invalid_field_type)
            ]
          ]
        ]
      ])
