-- ===== src/Tests/Person.antt =====
-- A table with a number, an optional string and a submessage, and a structure with its fields.
use ios_college_work.Common.{
  ℕ, zero, suc, ◌-◌, ◌^◌, ◌≤◌, ◌<◌, ◌≡◌, ◌≢◌, refl, inl, inr, List, [], ◌∷◌, get_or, All, arith,
}
use ios_college_work.Stream.Errors.{callback_error, callback_failed}
use ios_college_work.Stream.Output.{fail}
use ios_college_work.Wire.Varint.{groups}
use ios_college_work.Message.Memory.{Mem, displace}
use ios_college_work.Message.Field.{Field, field_at}
use ios_college_work.Message.Iter.{
  FieldIter, pb_field_iter_begin, pb_field_iter_next, advance, previous_size,
}
use ios_college_work.Message.Encode.Env.{Env}
use ios_college_work.Message.Encode.Items.{is_word_size, string_size}
use ios_college_work.Message.Encode.Contract.Items.{IsMem}
use ios_college_work.Message.Decode.Machine.{refuse}
use ios_college_work.Message.Decode.Env.{DecodeEnv}
use ios_college_work.Message.Decode.Trip.Walk.{walk}
use ios_college_work.Message.Decode.Trip.Static.{first_byte, end_byte}
use ios_college_work.Message.Decode.Trip.Numbers.{IsNumber}
use ios_college_work.Message.Decode.Trip.Rounds.{IsSimple}
use ios_college_work.Message.Decode.Trip.Plan.{message_bytes, FieldTrip, IsTrip}

-- `struct { uint32_t number; bool has_name; char name[8]; struct { uint32_t number; } inner; }` with 150,
-- "hi" and 5, at the address 64.
abbrev source : List ℕ
source = 150 ∷ 0 ∷ 0 ∷ 0 ∷ 1 ∷ 104 ∷ 105 ∷ 0 ∷ 0 ∷ 0 ∷ 0 ∷ 0 ∷ 0 ∷ 0 ∷ 0 ∷ 0 ∷ 5 ∷ 0 ∷ 0 ∷ 0 ∷ []

abbrev pub image : Mem
image p = get_or source (p - 64) 0

abbrev number : Field
number = record {
  tag = 1;
  type = 1;
  data_offset = 0;
  size_offset = 0;
  data_size = 4;
  array_size = 0;
  ptr = 0;
}

abbrev name : Field
name = record {
  tag = 2;
  type = 0x16;
  data_offset = 1;
  size_offset = 2 ^ 32 - 1;
  data_size = 8;
  array_size = 0;
  ptr = 0;
}

abbrev inner : Field
inner = record {
  tag = 3;
  type = 7;
  data_offset = 3;
  size_offset = 0;
  data_size = 4;
  array_size = 0;
  ptr = 1;
}

abbrev pub person : List Field
person = number ∷ name ∷ inner ∷ []

abbrev pub table : ℕ → List Field
table p = number ∷ []

abbrev pub env : Env
env = record {
  table = table;
  encode_callback = λ func field arg m. fail callback_error;
  encode_extension = λ func extension m. fail callback_error;
}

abbrev pub denv : DecodeEnv
denv = record {
  table = table;
  decode_callback = λ func field arg. refuse callback_failed;
  decode_extension = λ func extension tag wire_type. refuse callback_failed;
}

get_or-lt : (bs : List ℕ) (i : ℕ) → All (λ b. b < 256) bs → get_or bs i 0 < 256
get_or-lt [] i h = omega arith
get_or-lt (b ∷ bs) zero h = h.0
get_or-lt (b ∷ bs) (suc i) h = get_or-lt bs i h.1

pub image-IsMem : IsMem image
image-IsMem p = get_or-lt source (p - 64) (ground arith)

person-tag : (i : ℕ) → i < 3 → (field_at person i).tag ≡ suc i
person-tag zero h = refl
person-tag (suc zero) h = refl
person-tag (suc (suc zero)) h = refl
person-tag (suc (suc (suc i))) h = absurd (omega (arith, h))

person-IsSimple : IsSimple person
person-IsSimple = record {
  closed = (
    (λ e. absurd (omega (arith, e))),
    ((λ e. absurd (omega (arith, e))), ((λ e. absurd (omega (arith, e))), tt)),
  );
  no_oneof = (
    (λ e. absurd (omega (arith, e))),
    ((λ e. absurd (omega (arith, e))), ((λ e. absurd (omega (arith, e))), tt)),
  );
  no_extension = (
    (λ e. absurd (omega (arith, e))),
    ((λ e. absurd (omega (arith, e))), ((λ e. absurd (omega (arith, e))), tt)),
  );
  distinct = λ i k li lk e. omega (arith, person-tag i li, person-tag k lk, e);
  few = omega arith;
  other = λ e. absurd (omega (arith, e));
}

number-IsSimple : IsSimple (number ∷ [])
number-IsSimple = record {
  closed = ((λ e. absurd (omega (arith, e))), tt);
  no_oneof = ((λ e. absurd (omega (arith, e))), tt);
  no_extension = ((λ e. absurd (omega (arith, e))), tt);
  distinct = λ i k li lk e. omega (arith, li, lk);
  few = omega arith;
  other = λ e. absurd (omega (arith, e));
}

number-IsNumber : IsNumber number
unfolding is_word_size
number-IsNumber = record {
  known = omega arith;
  word = λ _. refl;
  four = λ e. absurd (omega (arith, e));
  eight = λ e. absurd (omega (arith, e));
}

number-FieldTrip :
    (Good : List Field → (src dest top : ℕ) → Type 0) (sub : List Field → ℕ → List ℕ) (src : ℕ)
    (iter : FieldIter)
    → src ≢ 0
    → FieldTrip Good sub table image number src iter
number-FieldTrip Good sub src iter there = record {
  static = refl;
  singular = inl refl;
  tag_small = omega arith;
  known = inl (omega arith);
  there = there;
  number = λ _. number-IsNumber;
  array = λ e. absurd (omega (arith, e));
  fixed = λ e. absurd (omega (arith, e));
  string = λ e. absurd (omega (arith, e));
  submessage = λ e. absurd (omega (arith, e));
}

inner_fields :
    (k : ℕ)
    → k < 1
    → FieldTrip
        (IsTrip 0 table image)
        (message_bytes 0 table image)
        table
        image
        (field_at (number ∷ []) k)
        (walk (number ∷ []) 80 k).p_data
        (walk (number ∷ []) 144 k)
unfolding pb_field_iter_begin
inner_fields zero h =
    number-FieldTrip (IsTrip 0 table image) (message_bytes 0 table image) 80
      (walk (number ∷ []) 144 0) (λ e. absurd (omega (arith, e)))
inner_fields (suc k) h = absurd (omega (arith, h))

inner_top : (k : ℕ) → suc k ≡ 1 → end_byte (walk (number ∷ []) 144 k) ≤ 148
unfolding pb_field_iter_begin
inner_top zero h = omega arith
inner_top (suc k) h = absurd (omega (arith, h))

inner-IsTrip : IsTrip 1 table image (number ∷ []) 80 144 148
unfolding pb_field_iter_begin
inner-IsTrip = (
  number-IsSimple,
  omega arith,
  inner_fields,
  omega arith,
  (λ k h. absurd (omega (arith, h))),
  inner_top,
)

name-FieldTrip :
    (Good : List Field → (src dest top : ℕ) → Type 0) (sub : List Field → ℕ → List ℕ)
    → FieldTrip Good sub table image name (walk person 64 1).p_data (walk person 128 1)
unfolding pb_field_iter_begin pb_field_iter_next advance previous_size displace string_size
name-FieldTrip Good sub = record {
  static = refl;
  singular = inr (refl, (λ e. absurd (omega (arith, e))), omega arith);
  tag_small = omega arith;
  known = inr (inl refl);
  there = λ e. absurd (omega (arith, e));
  number = λ h. absurd (omega (arith, h));
  array = λ e. absurd (omega (arith, e));
  fixed = λ e. absurd (omega (arith, e));
  string = λ e. (omega arith, omega arith);
  submessage = λ e. absurd (omega (arith, e));
}

inner-FieldTrip :
    FieldTrip
      (IsTrip 1 table image)
      (message_bytes 1 table image)
      table
      image
      inner
      (walk person 64 2).p_data
      (walk person 128 2)
unfolding pb_field_iter_begin pb_field_iter_next advance previous_size displace groups
inner-FieldTrip = record {
  static = refl;
  singular = inl refl;
  tag_small = omega arith;
  known = inr (inr (inl refl));
  there = λ e. absurd (omega (arith, e));
  number = λ h. absurd (omega (arith, h));
  array = λ e. absurd (omega (arith, e));
  fixed = λ e. absurd (omega (arith, e));
  string = λ e. absurd (omega (arith, e));
  submessage = λ e. ((λ z. absurd (omega (arith, z))), omega arith, inner-IsTrip);
}

person_fields :
    (k : ℕ)
    → k < 3
    → FieldTrip
        (IsTrip 1 table image)
        (message_bytes 1 table image)
        table
        image
        (field_at person k)
        (walk person 64 k).p_data
        (walk person 128 k)
unfolding pb_field_iter_begin
person_fields zero h =
    number-FieldTrip (IsTrip 1 table image) (message_bytes 1 table image) 64 (walk person 128 0)
      (λ e. absurd (omega (arith, e)))
person_fields (suc zero) h = name-FieldTrip (IsTrip 1 table image) (message_bytes 1 table image)
person_fields (suc (suc zero)) h = inner-FieldTrip
person_fields (suc (suc (suc k))) h = absurd (omega (arith, h))

person_order :
    (k : ℕ) → suc k < 3 → end_byte (walk person 128 k) ≤ first_byte (walk person 128 (suc k))
unfolding pb_field_iter_begin pb_field_iter_next advance previous_size displace
person_order zero h = omega arith
person_order (suc zero) h = omega arith
person_order (suc (suc k)) h = absurd (omega (arith, h))

person_top : (k : ℕ) → suc k ≡ 3 → end_byte (walk person 128 k) ≤ 148
unfolding pb_field_iter_begin pb_field_iter_next advance previous_size displace
person_top zero h = absurd (omega (arith, h))
person_top (suc zero) h = absurd (omega (arith, h))
person_top (suc (suc zero)) h = omega arith
person_top (suc (suc (suc k))) h = absurd (omega (arith, h))

pub person-IsTrip : IsTrip 2 table image person 64 128 148
unfolding pb_field_iter_begin
person-IsTrip = (person-IsSimple, omega arith, person_fields, omega arith, person_order, person_top)
