-- ===== src/Message/Decode/Trip/Unknown.antt =====
-- Fields that the table does not have, between the others.
use ios_college_work.Common.{
  ℕ, zero, suc, ◌+◌, ◌-◌, ◌*◌, ◌^◌, ◌≤◌, ◌<◌, ◌≡◌, ◌≢◌, sym, ap, ◌∙◌, Bool, List, [], ◌∷◌, ◌++◌,
  length, length-append, All, arith, ok,
}
use mathlib.Core.Path.{subst}
use mathlib.Core.List.{append_assoc}
use ios_college_work.Stream.Buffers.{input}
use ios_college_work.Wire.Varint.{length-groups}
use ios_college_work.Wire.Fields.Tag.{IsTag, tag_bytes}
use ios_college_work.Wire.Fields.Skip.{
  Payload, varint_value, fixed64_value, fixed32_value, string_value, wire_type, payload_bytes,
  IsPayload, pb_skip_field-Reads,
}
use ios_college_work.Message.Memory.{Mem}
use ios_college_work.Message.Field.{Field, field_at, pb_ltype, ltype_extension}
use ios_college_work.Message.Iter.{FieldIter, current, pb_field_iter_begin}
use ios_college_work.Message.Iter.Walk.{field_at-All}
use ios_college_work.Message.Decode.Machine.{machine, on_memory, on_stream}
use ios_college_work.Message.Decode.Env.{DecodeEnv, Nested}
use ios_college_work.Message.Decode.Layout.{Entries, On, On-here}
use ios_college_work.Message.Decode.Messages.{decode_fields, tagged_field}
use ios_college_work.Message.Decode.Unknown.{unknown-skip}
use ios_college_work.Message.Decode.Trip.Walk.{walk, IsWalk, IsWalk-begin, walk-IsWalk, walk-pos}
use ios_college_work.Message.Decode.Trip.Count.{seen_at, walk-current, walk-step, walk-around}
use ios_college_work.Message.Decode.Trip.Loop.{loop-round, fuel-suc}
use ios_college_work.Message.Decode.Trip.Rounds.{IsSimple, Seen}
use ios_college_work.Message.Decode.Trip.Feed.{Fed}

-- A field by its number and its value.
pub record Foreign : Type 0 where
  pub field_number : ℕ
  pub payload : Payload

abbrev pub foreign_bytes : Foreign → List ℕ
foreign_bytes u = tag_bytes (wire_type u.payload) u.field_number ++ payload_bytes u.payload

-- Its number is not in the table.
pub record IsForeign (fields : List Field) (u : Foreign) : Type 0 where
  pub number : (0 < u.field_number) × (u.field_number < 2 ^ 29)
  pub value : IsPayload u.payload
  pub missing : (k : ℕ) → k < length fields → (field_at fields k).tag ≢ u.field_number

abbrev pub all_bytes : List Foreign → List ℕ
all_bytes [] = []
all_bytes (u ∷ us) = foreign_bytes u ++ all_bytes us

wire-IsTag :
    (fields : List Field) (u : Foreign)
    → IsForeign fields u
    → IsTag (wire_type u.payload) u.field_number
wire-IsTag fields u f = record { wire = small u.payload; small = f.number.1 }
  where
    small : (p : Payload) → wire_type p < 8
    small (varint_value v) = omega arith
    small (fixed64_value v) = omega arith
    small (fixed32_value v) = omega arith
    small (string_value bs) = omega arith

module _ (fields : List Field) (dest : ℕ) (simple : IsSimple fields) (u : Foreign)
    (f : IsForeign fields u) where
  -- An iterator of the walk within the table, at an entry that is not the field.
  abbrev IsOther : FieldIter → Type 0
  IsOther iter =
      IsWalk fields dest iter
      × (iter.pos < length fields)
      × (pb_ltype (current iter).type ≢ ltype_extension)
      × ((current iter).tag ≢ u.field_number)

  walk-IsOther : (k : ℕ) → k < length fields → IsOther (walk fields dest k)
  walk-IsOther k lt =
      let here = walk-current fields dest simple.closed simple.no_oneof k lt in
      (
        walk-IsWalk fields dest k,
        rw (walk-pos fields dest simple.closed k lt) lt,
        rw here (
            field_at-All (λ field. pb_ltype field.type ≢ ltype_extension) fields k
              simple.no_extension lt),
        rw here (f.missing k lt),
      )

  abbrev Anything : FieldIter → Type 0
  Anything iter = Unit {0}

  walk-Entries :
      (r k : ℕ) → k + suc r ≡ length fields → Entries (suc r) IsOther Anything (walk fields dest k)
  walk-Entries zero k e =
      let around =
        ap (λ (t : FieldIter × Bool). t.1)
          (walk-around fields dest simple.closed simple.no_oneof k (omega (arith, e))) in
      (walk-IsOther k (omega (arith, e)), rw around tt)
  walk-Entries (suc r) k e =
      let step =
        ap (λ (t : FieldIter × Bool). t.1)
          (walk-step fields dest simple.closed simple.no_oneof k (omega (arith, e))) in
      (walk-IsOther k (omega (arith, e)), rw step (walk-Entries r (suc k) (omega (arith, e))))

  On-walk :
      (iter : FieldIter)
      → IsWalk fields dest iter
      → iter.pos < length fields
      → On fields dest IsOther Anything iter
  On-walk iter w lt =
      let (r, up) = fuel-suc (length fields - iter.pos) (omega (arith, lt)) in
      record {
        start = w.start;
        dest_struct = w.dest_struct;
        left = suc r;
        entries =
            subst (λ (i : FieldIter). Entries (suc r) IsOther Anything i) (sym w.same)
              (walk-Entries r iter.pos (omega (arith, up, lt)));
      }

  module _ (depth : ℕ) (env : DecodeEnv) (noinit : Nested) (lo hi : ℕ → ℕ)
      (Ready Same : ℕ → Mem → Type 0) where
    -- It is skipped, and the loop goes on.
    pub Fed-Foreign :
        {bs : List ℕ} (k : ℕ) (iter : FieldIter) (ws : List ℕ) (range : ℕ)
        → Seen fields dest k iter ws
        → ((next : FieldIter) (range' : ℕ)
            → Seen fields dest k next ws
            → Fed fields dest simple depth env noinit lo hi Ready Same k bs next ws range')
        → Fed fields dest simple depth env noinit lo hi Ready Same k
            (foreign_bytes u ++ bs)
            iter
            ws
            range
    unfolding on_stream on_memory
    Fed-Foreign {bs = bs} k iter ws range seen next =
        let w = wire_type u.payload in
        let (prog', run, kept_seen, on) =
          unknown-skip fields dest u.field_number IsOther Anything whole (λ i o. o.2) (λ i o. o.3)
            depth env noinit w (seen_at iter ws range) (On-walk iter seen.on_walk seen.within)
            (omega (arith, f.number)) in
        let other = On-here fields dest IsOther Anything prog'.iter on in
        let fed = next prog'.iter prog'.extension_range_start (record {
          on_walk = other.0;
          within = other.1;
          visited = seen.visited;
          all = seen.all;
          marks = seen.marks;
          covered = seen.covered;
        }) in
        record {
          at = fed.at;
          bitmap = fed.bitmap;
          range_at = fed.range_at;
          seen = fed.seen;
          runs = λ m ready fuel rest e enough.
              let (g, up) = fuel-suc fuel (omega (arith, enough)) in
              let (after, r, kept, same) =
                fed.runs m ready g rest e (omega (arith, up, enough, size, some_tag)) in
              let there =
                subst
                  (λ (l : List ℕ).
                    decode_fields g (tagged_field depth env noinit)
                      (seen_at prog'.iter l prog'.extension_range_start)
                      (machine (input (bs ++ rest) (length bs) e) m)
                    ≡ ok (seen_at fed.at fed.bitmap fed.range_at) (machine (input rest 0 e) after))
                  (sym kept_seen) r in
              (
                after,
                rw (up, joined rest, size)
                    (loop-round g (tagged_field depth env noinit) (seen_at iter ws range) w
                        u.field_number (payload_bytes u.payload ++ (bs ++ rest))
                        (length (payload_bytes u.payload) + length bs) e m (wire-IsTag fields u f)
                        f.number.0
                      ∙ rw
                          (
                            run (
                                machine
                                  (input (payload_bytes u.payload ++ (bs ++ rest))
                                    (length (payload_bytes u.payload) + length bs) e)
                                  m),
                            pb_skip_field-Reads u.payload f.value (bs ++ rest) (length bs) e,
                          )
                          there),
                kept,
                same,
              );
        }
      where
        whole : On fields dest IsOther Anything (pb_field_iter_begin fields dest).0
        whole =
            let some_left : 0 < length fields = omega (arith, seen.within) in
            On-walk (walk fields dest 0) (IsWalk-begin fields dest)
              (rw (walk-pos fields dest simple.closed 0 some_left) some_left)

        some_tag : 1 ≤ length (tag_bytes (wire_type u.payload) u.field_number)
        some_tag = (length-groups 9 (wire_type u.payload + u.field_number * 8)).0

        joined :
            (rest : List ℕ)
            → (foreign_bytes u ++ bs) ++ rest
              ≡ tag_bytes (wire_type u.payload) u.field_number
                ++ (payload_bytes u.payload ++ (bs ++ rest))
        joined rest =
            append_assoc (foreign_bytes u) bs rest
            ∙ append_assoc (tag_bytes (wire_type u.payload) u.field_number)
                (payload_bytes u.payload) (bs ++ rest)

        size :
            length (foreign_bytes u ++ bs)
            ≡ length (tag_bytes (wire_type u.payload) u.field_number)
              + (length (payload_bytes u.payload) + length bs)
        size = omega (
          arith,
          length-append (foreign_bytes u) bs,
          length-append (tag_bytes (wire_type u.payload) u.field_number) (payload_bytes u.payload),
        )

-- Any number of them.
module _ (fields : List Field) (dest : ℕ) (simple : IsSimple fields) (depth : ℕ) (env : DecodeEnv)
    (noinit : Nested) (lo hi : ℕ → ℕ) (Ready Same : ℕ → Mem → Type 0) where
  pub Fed-all_bytes :
      {bs : List ℕ} (us : List Foreign)
      → All (λ u. IsForeign fields u) us
      → (k : ℕ) (iter : FieldIter) (ws : List ℕ) (range : ℕ) → Seen fields dest k iter ws
      → ((next : FieldIter) (range' : ℕ)
          → Seen fields dest k next ws
          → Fed fields dest simple depth env noinit lo hi Ready Same k bs next ws range')
      → Fed fields dest simple depth env noinit lo hi Ready Same k
          (all_bytes us ++ bs)
          iter
          ws
          range
  Fed-all_bytes [] all k iter ws range seen next = next iter range seen
  Fed-all_bytes {bs = bs} (u ∷ us) all k iter ws range seen next =
      subst
        (λ (l : List ℕ). Fed fields dest simple depth env noinit lo hi Ready Same k l iter ws range)
        (sym (append_assoc (foreign_bytes u) (all_bytes us) bs))
        (Fed-Foreign fields dest simple u all.0 depth env noinit lo hi Ready Same k iter ws range
          seen (λ next' range' seen'. Fed-all_bytes us all.1 k next' ws range' seen' next))
