-- ===== src/Message/Decode/Trip/Defaults.antt =====
-- `pb_message_set_to_defaults` clears the `has_` bytes.
use ios_college_work.Common.{
  ℕ, zero, suc, ◌+◌, ◌≤◌, ◌<◌, ◌≡◌, ◌≢◌, refl, ap, ◌∙◌, ◌⊎◌, inl, inr, Bool, Bool-cases, false, not,
  ◌==◌, List, length, arith, Cmd, ok, ne→==,
}
use mathlib.Core.Path.{subst}
use native.Mathlib.Decide.{dec_lt}
use ios_college_work.Message.Memory.{Mem, bytes_at}
use ios_college_work.Message.Field.{
  Field, field_at, pb_ltype, pb_htype, pb_atype, ltype_submessage, ltype_extension, htype_required,
  htype_optional, atype_static,
}
use ios_college_work.Message.Iter.{FieldIter, current, pb_field_iter_begin}
use ios_college_work.Message.Iter.Walk.{field_at-All}
use ios_college_work.Message.Encode.Env.{Env}
use ios_college_work.Message.Encode.Contract.Items.{IsMem, length-bytes_at}
use ios_college_work.Message.Decode.Machine.{store, store_bytes, store-outside, store_bytes-outside}
use ios_college_work.Message.Decode.Env.{DecodeEnv}
use ios_college_work.Message.Decode.Defaults.{
  default_fields, default_message, default_value, default_static, pb_field_set_to_default,
  pb_message_set_to_defaults,
}
use ios_college_work.Message.Decode.Trip.Walk.{walk}
use ios_college_work.Message.Decode.Trip.Takes.{Kept, Local}
use ios_college_work.Message.Decode.Trip.Static.{first_byte, end_byte}
use ios_college_work.Message.Decode.Trip.Count.{walk-current, walk-step, walk-around}
use ios_college_work.Message.Decode.Trip.Rounds.{IsSimple}
use ios_college_work.Message.Decode.Trip.Loop.{fuel-suc}
use ios_college_work.Message.Decode.Trip.Plan.{IsCleared, IsTrip}
use ios_college_work.Message.Decode.Trip.Entry.{ReadyAt}
use ios_college_work.Message.Decode.Trip.Messages.{messages-NestedTrip, inside, fields-IsApart}

-- A run on the memory that succeeds, stores between `lo` and `hi` only, and leaves what `Ready` says.
pub record Cleared (c : Cmd Mem (Unit {0})) (lo hi : ℕ) (Ready : Mem → Type 0) (m : Mem)
    : Type 0 where
  pub after : Mem
  pub runs : c m ≡ ok tt after
  pub kept : Kept lo hi m after
  pub ready : Ready after

abbrev pub Clears : Cmd Mem (Unit {0}) → (lo hi : ℕ) → (Ready : Mem → Type 0) → Type 0
Clears c lo hi Ready = (m : Mem) → Cleared c lo hi Ready m

-- The value of a field.
module _ (message : List Field → ℕ → Cmd Mem (Unit {0})) (table : ℕ → List Field) (field : Field)
    (p : ℕ) (Ready : List Field → ℕ → Mem → Type 0) where
  value-Clears :
      (pb_ltype field.type ≡ ltype_submessage → field.ptr ≢ 0)
      → (pb_ltype field.type ≡ ltype_submessage
          → Clears
              (message (table field.ptr) p)
              p
              (p + field.data_size)
              (Ready (table field.ptr) p))
      → Clears
          (default_value message table field p)
          p
          (p + field.data_size)
          (λ m'. pb_ltype field.type ≡ ltype_submessage → Ready (table field.ptr) p m')
  unfolding default_value
  value-Clears linked nested m = elim (Bool-cases (pb_ltype field.type == ltype_submessage)) [
    | inl t ↦
        let c = nested (ground (arith, t)) m in
        record {
          after = c.after;
          runs = rw (t, ne→== field.ptr 0 (linked (ground (arith, t)))) c.runs;
          kept = c.kept;
          ready = λ _. c.ready;
        }
    | inr t ↦ elim (Bool-cases (not (field.ptr == 0))) [
      | inl u ↦ record {
        after = store_bytes m p (bytes_at m field.ptr field.data_size);
        runs = rw (t, u) refl;
        kept = λ q out.
            store_bytes-outside m p (bytes_at m field.ptr field.data_size) q
              (ground (arith, out, length-bytes_at m field.ptr field.data_size));
        ready = λ e. absurd (ground (arith, t, e));
      }
      | inr u ↦ record {
        after = store m p field.data_size 0;
        runs = rw (t, u) refl;
        kept = λ q out. store-outside m p field.data_size 0 q out;
        ready = λ e. absurd (ground (arith, t, e));
      }
    ]
  ]

module _ (table : ℕ → List Field) (fields : List Field) (dest : ℕ) (simple : IsSimple fields)
    (Ready : List Field → ℕ → Mem → Type 0) where
  -- The loop over the fields, where each of them clears its own bytes.
  module _ (set : FieldIter → Cmd Mem (Unit {0})) (lo hi : ℕ → ℕ)
      (apart : (i k : ℕ)
        → i ≢ k
        → i < length fields
        → k < length fields
        → (q : ℕ) → lo i ≤ q
        → q < hi i
        → (q < lo k) ⊎ (hi k ≤ q))
      (local : (k : ℕ)
        → k < length fields
        → Local (lo k) (hi k) (ReadyAt table fields dest Ready k))
      (each : (k : ℕ)
        → k < length fields
        → Clears (set (walk fields dest k)) (lo k) (hi k) (ReadyAt table fields dest Ready k)) where
    pub default_fields-Clears :
        (fuel r k : ℕ)
        → k + suc r ≡ length fields
        → r < fuel
        → (m : Mem)
        → (after : Mem) × (default_fields fuel set (walk fields dest k) m ≡ ok tt after)
          × ((q : ℕ)
              → ((i : ℕ) → k ≤ i → i < length fields → (q < lo i) ⊎ (hi i ≤ q))
              → after q ≡ m q)
          × ((i : ℕ) → k ≤ i → i < length fields → ReadyAt table fields dest Ready i after)
    unfolding default_fields
    default_fields-Clears zero r k e enough m = absurd (omega (arith, enough))
    default_fields-Clears (suc fuel) zero k e enough m =
        let around =
          ap (λ (t : FieldIter × Bool). t.1)
            (walk-around fields dest simple.closed simple.no_oneof k (omega (arith, e))) in
        let c = each k (omega (arith, e)) m in
        (
          c.after,
          rw (c.runs, around) refl,
          (λ q out. c.kept q (out k (omega arith) (omega (arith, e)))),
          λ i le lt.
              let same : k ≡ i = omega (arith, e, le, lt) in
              subst (λ (j : ℕ). ReadyAt table fields dest Ready j c.after) same c.ready,
        )
    default_fields-Clears (suc fuel) (suc r) k e enough m =
        let step =
          ap (λ (t : FieldIter × Bool). t.1)
            (walk-step fields dest simple.closed simple.no_oneof k (omega (arith, e))) in
        let c = each k (omega (arith, e)) m in
        let (after, run, kept, ready) =
          default_fields-Clears fuel r (suc k) (omega (arith, e)) (omega (arith, enough)) c.after in
        (
          after,
          rw (c.runs, step) run,
          (λ q out.
              kept q (λ i le. out i (omega (arith, le)))
              ∙ c.kept q (out k (omega arith) (omega (arith, e)))),
          λ i le lt. elim (dec_lt k i) [
            | yes h ↦ ready i h lt
            | no h ↦
                let same : k ≡ i = omega (arith, h, le) in
                subst (λ (j : ℕ). ReadyAt table fields dest Ready j after) same
                  (local k (omega (arith, e)) c.after after
                    (λ q low under. kept q (λ j behind within.
                      apart k j (λ f. absurd (omega (arith, f, behind))) (omega (arith, e)) within q
                        low under))
                    c.ready)
          ],
        )

  -- An entry.
  module _ (depth k : ℕ) (lt : k < length fields)
      (static : pb_atype (field_at fields k).type ≡ atype_static)
      (singular : (pb_htype (field_at fields k).type ≡ htype_required)
        ⊎ ((pb_htype (field_at fields k).type ≡ htype_optional)
            × ((walk fields dest k).p_size < (walk fields dest k).p_data)))
      (linked : pb_ltype (field_at fields k).type ≡ ltype_submessage → (field_at fields k).ptr ≢ 0)
      (nested : pb_ltype (field_at fields k).type ≡ ltype_submessage
        → Clears
            (pb_message_set_to_defaults depth table
              (table (field_at fields k).ptr)
              (walk fields dest k).p_data)
            (walk fields dest k).p_data
            ((walk fields dest k).p_data + (field_at fields k).data_size)
            (Ready (table (field_at fields k).ptr) (walk fields dest k).p_data)) where
    there : current (walk fields dest k) ≡ field_at fields k
    there = walk-current fields dest simple.closed simple.no_oneof k lt

    same_set :
        (m : Mem)
        → pb_field_set_to_default (suc depth) table (walk fields dest k) m
          ≡ default_static (pb_message_set_to_defaults depth table) table (walk fields dest k) m
    unfolding pb_field_set_to_default pb_message_set_to_defaults
    same_set m =
        let plain =
          field_at-All (λ field. pb_ltype field.type ≢ ltype_extension) fields k simple.no_extension
            lt in
        rw (there, ne→== (pb_ltype (field_at fields k).type) ltype_extension plain, static) refl

    pub entry-Clears :
        Clears
          (pb_field_set_to_default (suc depth) table (walk fields dest k))
          (first_byte (walk fields dest k))
          (end_byte (walk fields dest k))
          (ReadyAt table fields dest Ready k)
    unfolding default_static
    entry-Clears m = elim singular [
      | inl r ↦
          let c =
            value-Clears (pb_message_set_to_defaults depth table) table (field_at fields k)
              (walk fields dest k).p_data Ready linked nested m in
          record {
            after = c.after;
            runs = same_set m ∙ rw (there, r) c.runs;
            kept = rw (there, r) c.kept;
            ready = ((λ o. absurd (omega (arith, o, r))), c.ready);
          }
      | inr (o, front) ↦
          let m1 : Mem = store m (walk fields dest k).p_size 1 0 in
          let c =
            value-Clears (pb_message_set_to_defaults depth table) table (field_at fields k)
              (walk fields dest k).p_data Ready linked nested m1 in
          let apart : ((walk fields dest k).p_size == (walk fields dest k).p_data) ≡ false =
            ground (arith, front) in
          record {
            after = c.after;
            runs = same_set m ∙ rw (there, o, apart) c.runs;
            kept =
                rw (there, o)
                  (λ q out.
                    c.kept q (ground (arith, out, front))
                    ∙ store-outside m (walk fields dest k).p_size 1 0 q
                        (ground (arith, out, front)));
            ready = ((λ _. c.kept (walk fields dest k).p_size (inl front) ∙ ground arith), c.ready);
          }
    ]

-- A table that is not empty.
first_message :
    (fields : List Field) (dest : ℕ) (set : FieldIter → Cmd Mem (Unit {0})) (m : Mem)
    → (field_at fields 0).tag ≢ 0
    → default_message set (pb_field_iter_begin fields dest) m
      ≡ default_fields (suc (length fields)) set (walk fields dest 0) m
unfolding default_message pb_field_iter_begin
first_message fields dest set m tagged = rw (ne→== (field_at fields 0).tag 0 tagged) refl

module _ {m : Mem} (mem : IsMem m) (env : Env) (denv : DecodeEnv)
    (tables : (p : ℕ) → denv.table p ≡ env.table p) where
  -- On a structure for a message.
  pub pb_message_set_to_defaults-Clears :
      (depth : ℕ) (fields : List Field) (src dest top : ℕ)
      → IsTrip depth env.table m fields src dest top
      → Clears
          (pb_message_set_to_defaults depth env.table fields dest)
          dest
          top
          (IsCleared depth env.table fields dest)
  unfolding pb_message_set_to_defaults
  pb_message_set_to_defaults-Clears zero fields src dest top trip m' = absurd trip
  pb_message_set_to_defaults-Clears (suc depth) fields src dest top trip m' =
      let nested = messages-NestedTrip mem env denv tables depth in
      let is = fields-IsApart mem env denv tables depth nested fields src dest top trip in
      let (r, up) = fuel-suc (length fields) trip.1 in
      let (after, run, kept, ready) =
        default_fields-Clears env.table fields dest trip.0 (IsCleared depth env.table)
          (pb_field_set_to_default (suc depth) env.table) (λ k. first_byte (walk fields dest k))
          (λ k. end_byte (walk fields dest k)) is.apart is.ready
          (λ k lt.
            let f = trip.2 k lt in
            entry-Clears env.table fields dest trip.0 (IsCleared depth env.table) depth k lt
              f.static (elim f.singular [ inl o ↦ inl o | inr o ↦ inr (o.0, o.2) ])
              (λ e. (f.submessage e).0)
              (λ e.
                pb_message_set_to_defaults-Clears depth (env.table (field_at fields k).ptr)
                  (walk fields src k).p_data (walk fields dest k).p_data
                  ((walk fields dest k).p_data + (field_at fields k).data_size) (f.submessage e).2))
          (suc (length fields)) r 0 (omega (arith, up)) (omega (arith, up)) m' in
      record {
        after = after;
        runs =
            first_message fields dest (pb_field_set_to_default (suc depth) env.table) m'
              (field_at-All (λ field. field.tag ≢ 0) fields 0 trip.0.closed trip.1)
            ∙ run;
        kept = λ q out. kept q (λ i _ lt.
            let at = inside mem env denv tables depth nested fields src dest top trip i lt in
            ground (arith, at, out));
        ready = λ i lt. ready i (omega arith) lt;
      }
