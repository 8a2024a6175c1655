-- ===== src/Message/Decode/Within/Slots.antt =====
-- The places of the items of a field, and packed arrays.
use ios_college_work.Common.{
  ℕ, zero, suc, ◌+◌, ◌*◌, ◌≤◌, ◌<◌, ◌≡◌, refl, inl, inr, Bool-cases, ltb, ◌==◌, ◌&&◌, Option, List,
  arith, ◌>>=◌,
}
use native.Mathlib.Nat.{mul-le-mul_left, mul-suc}
use ios_college_work.Stream.Errors.{Error}
use ios_college_work.Stream.Buffers.{input}
use ios_college_work.Wire.Decode.{pb_make_string_substream}
use ios_college_work.Message.Memory.{Mem, load}
use ios_college_work.Message.Field.{
  pb_ltype, pb_htype, pb_atype, ltype_last_packable, htype_repeated, atype_static,
}
use ios_college_work.Message.Iter.{FieldIter, current, previous_size}
use ios_college_work.Message.Decode.Machine.{machine, on_stream}
use ios_college_work.Message.Decode.Env.{DecodeEnv, Nested}
use ios_college_work.Message.Decode.Nest.{pb_decoder}
use ios_college_work.Message.Decode.Static.{item_address, packed_items, packed_body}
use ios_college_work.Message.Decode.Layout.{Inside, FieldFits, IsLaidOut, slots}
use ios_college_work.Message.Decode.Within.{Holds, WithinCmd, Any}
use ios_college_work.Message.Decode.Within.Packed.{round-Ended, close_packed-Framed}
use ios_college_work.Message.Decode.Within.Items.{number-Within}
use ios_college_work.Message.Decode.Within.Substream.{Ended, substream-Within}

-- There is room for the item `i` of `a`.
pub item_room : (d i a : ℕ) → i < a → d * i + d ≤ d * a
item_room d i a h = omega (arith, mul-le-mul_left {m = suc i} d h, mul-suc d i)

module _ (lo len depth : ℕ) (env : DecodeEnv) (noinit : Nested) (iter : FieldIter)
    (fits : FieldFits lo len (IsLaidOut depth lo len env.table) env.table iter)
    (static : pb_atype (current iter).type ≡ atype_static) where
  -- The structure or the number `i`.
  pub slot-Inside :
      (i : ℕ)
      → i < slots (current iter)
      → Inside lo len (iter.p_data + (current iter).data_size * i) (current iter).data_size
  slot-Inside i low = elim (Bool-cases (pb_htype (current iter).type == htype_repeated)) [
    | inl t ↦
        let whole : previous_size (current iter)
            ≡ (current iter).data_size * (current iter).array_size =
          unfold previous_size in ground (arith, static) in
        let inside = rw whole at (fits.place (ground (arith, static))) in
        let room =
          item_room (current iter).data_size i (current iter).array_size (ground (arith, low)) in
        ground (arith, inside, room)
    | inr t ↦
        let whole : previous_size (current iter) ≡ (current iter).data_size =
          unfold previous_size in ground arith in
        let only : i ≡ 0 = ground (arith, low) in
        let first : (current iter).data_size * i ≡ 0 = rw only (omega arith) in
        let inside = rw whole at (fits.place (ground (arith, static))) in
        ground (arith, inside, first)
  ]

  module _ (repeated : pb_htype (current iter).type ≡ htype_repeated) where
    packed_items-Ended :
        (fuel : ℕ) (xs : List ℕ) (n : ℕ) (e : Option Error) (m : Mem)
        → pb_ltype (current iter).type ≤ ltype_last_packable
        → n < fuel
        → Holds xs n
        → Ended lo len xs n m (
            packed_items fuel
              (pb_decoder depth env noinit (current iter))
              iter
              (machine (input xs n e) m))
    unfolding packed_items
    packed_items-Ended zero xs n e m packable enough held = absurd (omega (arith, enough))
    packed_items-Ended (suc fuel) xs n e m packable enough held =
        let field = current iter in
        let func = pb_decoder depth env noinit field in
        let size = load m iter.p_size 4 in
        elim (Bool-cases (ltb 0 n && ltb size field.array_size)) [
          | inl t ↦
              let low : size < slots field = ground (arith, t, repeated) in
              let dest = iter.p_data + field.data_size * size in
              let address : item_address iter size ≡ dest = ground (
                arith,
                fits.small,
                item_room field.data_size size field.array_size (ground arith),
              ) in
              rw (t, address)
                (round-Ended lo len iter.p_size (fits.count (ground (arith, static)) (inl repeated))
                  (packed_items fuel func iter) xs n m (func dest (machine (input xs n e) m)) held
                  (λ ys k e' m' less held'.
                    packed_items-Ended fuel ys k e' m' packable (omega (arith, enough, less)) held')
                  (number-Within lo len field dest (slot-Inside size low) depth env noinit fits.four
                    fits.eight n packable xs n e m (omega arith) held))
          | inr t ↦ rw t (record {
            stream = record { taken = 0; bound = omega arith; errmsg = e; same = ground arith };
            memory = λ q out. refl;
          })
        ]

    pub packed-Within :
        (most : ℕ)
        → pb_ltype (current iter).type ≤ ltype_last_packable
        → WithinCmd lo len (Any {A = Unit {0}}) 0 most (
            on_stream pb_make_string_substream
            >>= packed_body (pb_decoder depth env noinit (current iter)) iter)
    unfolding packed_body
    packed-Within most packable =
        let func = pb_decoder depth env noinit (current iter) in
        substream-Within lo len most (packed_body func iter) (λ ys size rest e m small held.
          close_packed-Framed lo len ys size rest e m
            (packed_items (suc size) func iter (machine (input ys size e) m)) held.0
            (packed_items-Ended (suc size) ys size e m packable (omega arith)
              (omega (arith, held.0), held.1)))
