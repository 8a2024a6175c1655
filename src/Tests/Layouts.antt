-- ===== src/Tests/Layouts.antt =====
-- A structure for the decoder, and where its fields stand.
use ios_college_work.Common.{
  ℕ, zero, suc, ◌+◌, ◌*◌, ◌<◌, false, ◌-◌, ◌^◌, Option, none, some, List, [], ◌∷◌, ◌==◌,
  if◌then◌else◌, Run, ok, ◌≡◌, refl, ◌>>=◌, inl, inr, arith,
}
use ios_college_work.Stream.Errors.{callback_failed}
use ios_college_work.Stream.Buffers.{input}
use ios_college_work.Message.Memory.{displace, bytes_at}
use ios_college_work.Message.Field.{Field}
use ios_college_work.Stream.Input.{pb_readbyte}
use ios_college_work.Message.Iter.{
  FieldIter, pb_field_iter_begin, pb_field_iter_next, advance, previous_size,
}
use ios_college_work.Message.Decode.Layout.{IsLaidOut, FieldFits}
use ios_college_work.Message.Decode.Machine.{Machine, machine, refuse, on_stream, on_memory}
use ios_college_work.Message.Decode.Env.{DecodeEnv}
use ios_college_work.Message.Decode.Messages.{pb_decode}
use ios_college_work.Message.Decode.Machine.{refuse}
use ios_college_work.Message.Decode.Within.{WithinCmd, Any, ok-Within}
use ios_college_work.Message.Decode.Within.Steps.{less-Within}
use ios_college_work.Message.Decode.Within.Numbers.{stream-Within, pb_readbyte-Within, Byte}
use ios_college_work.Message.Decode.Within.Callbacks.{CallbacksFit}

-- `struct { uint32_t number; pb_size_t count; uint32_t items[2]; struct { uint32_t number; } inner; }`
abbrev number : Field
number = record {
  tag = 1;
  type = 1;
  data_offset = 0;
  size_offset = 0;
  data_size = 4;
  array_size = 0;
  ptr = 0;
}

abbrev items : Field
items = record {
  tag = 4;
  type = 0x21;
  data_offset = 4;
  size_offset = 2 ^ 32 - 4;
  data_size = 4;
  array_size = 2;
  ptr = 0;
}

abbrev inner : Field
inner = record {
  tag = 3;
  type = 7;
  data_offset = 0;
  size_offset = 0;
  data_size = 4;
  array_size = 0;
  ptr = 1;
}

-- A `pb_callback_t` behind them.
abbrev hook : Field
hook = record {
  tag = 5;
  type = 0x50;
  data_offset = 0;
  size_offset = 0;
  data_size = 16;
  array_size = 0;
  ptr = 0;
}

abbrev pub outer_table : List Field
outer_table = number ∷ items ∷ inner ∷ hook ∷ []

abbrev pub hooks : DecodeEnv
hooks = record {
  table = λ p. if p == 1 then number ∷ [] else [];
  decode_callback = λ func field arg. on_stream (pb_readbyte >>= (λ byte. ok tt));
  decode_extension = λ func extension tag wire_type. refuse callback_failed;
}

-- The bytes of the structure at 64, and what is left of the input.
abbrev seen : Run Machine (Unit {0}) → Option (List ℕ × List ℕ)
seen (ok _ s) = some (bytes_at s.mem 64 20, s.stream.state)
seen _ = none

abbrev decoded : Option (List ℕ × List ℕ)
decoded = seen (
    pb_decode 3 hooks outer_table 64 (
      machine (input (8 ∷ 150 ∷ 1 ∷ 34 ∷ 3 ∷ 3 ∷ 142 ∷ 2 ∷ 26 ∷ 2 ∷ 8 ∷ 5 ∷ 40 ∷ 7 ∷ []) 14 none)
        (λ p. 255)))

abbrev short : Run Machine (Unit {0})
short =
    pb_decode 3 hooks outer_table 64
      (machine (input (8 ∷ 150 ∷ 1 ∷ 34 ∷ 3 ∷ 3 ∷ 142 ∷ 2 ∷ []) 8 none) (λ p. 255))

-- The bytes of the structure, the callback included.
abbrev pub InFrame : (Good : List Field → ℕ → Type 0) (iter : FieldIter) → Type 0
InFrame Good iter = FieldFits 64 36 Good hooks.table iter

-- `number` alone, at the place of `inner`.
inner_entry : InFrame (λ _ _. ⊥) (pb_field_iter_begin (number ∷ []) 80).0
unfolding pb_field_iter_begin previous_size
inner_entry = record {
  known = inl (omega arith);
  place = λ _. inr (omega arith, omega arith);
  four = λ e. omega arith;
  eight = λ e. absurd (omega (arith, e));
  small = omega arith;
  has = λ _ e. absurd (omega (arith, e));
  count = λ _ e. absurd (omega (arith, e));
  linked = λ _ e. absurd (omega (arith, e));
  submessage = λ _ e. absurd (omega (arith, e));
}

laid_inner : IsLaidOut 1 64 36 hooks.table (number ∷ []) 80
unfolding pb_field_iter_begin pb_field_iter_next advance previous_size
laid_inner = (inner_entry, (omega arith, λ e. absurd (omega (arith, e))))

abbrev second : FieldIter
second = (pb_field_iter_next (pb_field_iter_begin outer_table 64).0).0

abbrev pub third : FieldIter
third = (pb_field_iter_next second).0

abbrev fourth : FieldIter
fourth = (pb_field_iter_next third).0

abbrev pub LaidBelow : List Field → ℕ → Type 0
LaidBelow = IsLaidOut 1 64 36 hooks.table

number_entry : InFrame LaidBelow (pb_field_iter_begin outer_table 64).0
unfolding pb_field_iter_begin previous_size
number_entry = record {
  known = inl (omega arith);
  place = λ _. inr (omega arith, omega arith);
  four = λ e. omega arith;
  eight = λ e. absurd (omega (arith, e));
  small = omega arith;
  has = λ _ e. absurd (omega (arith, e));
  count = λ _ e. absurd (omega (arith, e));
  linked = λ _ e. absurd (omega (arith, e));
  submessage = λ _ e. absurd (omega (arith, e));
}

items_entry : InFrame LaidBelow second
unfolding pb_field_iter_begin pb_field_iter_next advance previous_size displace
items_entry = record {
  known = inl (omega arith);
  place = λ _. inr (omega arith, omega arith);
  four = λ e. omega arith;
  eight = λ e. absurd (omega (arith, e));
  small = omega arith;
  has = λ _ e. absurd (omega (arith, e));
  count = λ _ _. (omega arith, omega arith);
  linked = λ _ e. absurd (omega (arith, e));
  submessage = λ _ e. absurd (omega (arith, e));
}

below_place : (i : ℕ) → i < 1 → LaidBelow (number ∷ []) (80 + 4 * i)
below_place zero h = laid_inner
below_place (suc i) h = absurd (omega (arith, h))

submessage_entry : InFrame LaidBelow third
unfolding pb_field_iter_begin pb_field_iter_next advance previous_size displace
submessage_entry = record {
  known = inl (omega arith);
  place = λ _. inr (omega arith, omega arith);
  four = λ e. omega arith;
  eight = λ e. absurd (omega (arith, e));
  small = omega arith;
  has = λ _ e. absurd (omega (arith, e));
  count = λ _ e. absurd (omega (arith, e));
  linked = λ _ _ e. absurd (omega (arith, e));
  submessage = λ _ _ i h. below_place i h;
}

hook_entry : InFrame LaidBelow fourth
unfolding pb_field_iter_begin pb_field_iter_next advance previous_size displace
hook_entry = record {
  known = inl (omega arith);
  place = λ other. absurd (other refl);
  four = λ e. omega arith;
  eight = λ e. omega arith;
  small = omega arith;
  has = λ other. absurd (other refl);
  count = λ other. absurd (other refl);
  linked = λ e. absurd (omega (arith, e));
  submessage = λ e. absurd (omega (arith, e));
}

pub laid_outer : IsLaidOut 2 64 36 hooks.table outer_table 64
unfolding pb_field_iter_begin pb_field_iter_next advance
laid_outer = (
  number_entry,
  (items_entry, (submessage_entry, (hook_entry, (omega arith, λ e. absurd (omega (arith, e)))))),
)

hook-Within :
    (most : ℕ)
    → WithinCmd 64 36 (Any {A = Unit {0}}) 1 most (on_stream (pb_readbyte >>= (λ byte. ok tt)))
unfolding on_stream on_memory
hook-Within most =
    stream-Within 64 36 (Byte 64 36) (Any {A = Unit {0}}) 1 most pb_readbyte (λ byte. ok tt)
      (pb_readbyte-Within 64 36 most)
      (λ byte _. ok-Within 64 36 (Any {A = Unit {0}}) (most - 1) tt tt)

pub hooks_fit : CallbacksFit 64 36 hooks
hooks_fit func field arg xs zero e m held =
    less-Within 64 36 (Any {A = Unit {0}}) 1 0 0 0 (on_stream (pb_readbyte >>= (λ byte. ok tt)))
      (omega arith) (omega arith) (hook-Within 0) xs 0 e m (omega arith) held
hooks_fit func field arg xs (suc n) e m held =
    let some_left : (suc n == 0) ≡ false = ground arith in
    rw some_left (hook-Within (suc n) xs (suc n) e m (omega arith) held)
