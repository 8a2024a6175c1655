-- ===== src/Message/Iter.antt =====
-- The field iterator (pb_common.c). `pos` is the index of the current entry of the table `start`.
pub mod Walk
pub mod Find
use ios_college_work.Common.{
  ℕ, zero, suc, ◌+◌, ◌-◌, ◌*◌, ◌%◌, ◌^◌, Bool, true, false, not, List, [], ◌∷◌, ◌==◌, ◌&&◌,
  if◌then◌else◌, length,
}
use ios_college_work.Message.Memory.{displace}
use ios_college_work.Message.Field.{
  Field, field_at, pb_ltype, pb_htype, pb_atype, ltype_extension, htype_required, htype_repeated,
  htype_oneof, atype_static, atype_pointer, pb_size_max,
}

pub record FieldIter : Type 0 where
  pub start : List Field
  pub pos : ℕ
  pub required_field_index : ℕ
  pub dest_struct : ℕ
  pub p_data : ℕ
  pub p_size : ℕ

-- `*iter->pos`
abbrev pub current : FieldIter → Field
current iter = field_at iter.start iter.pos

unfoldable pub pb_field_iter_begin : List Field → ℕ → FieldIter × Bool
pb_field_iter_begin fields dest_struct =
    let first = field_at fields 0 in
    let p_data = dest_struct + first.data_offset in
    (
      record {
        start = fields;
        pos = 0;
        required_field_index = 0;
        dest_struct = dest_struct;
        p_data = p_data;
        p_size = displace p_data first.size_offset;
      },
      not (first.tag == 0),
    )

-- The size that the previous field takes in the structure.
unfoldable pub previous_size : Field → ℕ
previous_size prev =
    if pb_atype prev.type == atype_static && pb_htype prev.type == htype_repeated
    then prev.data_size * prev.array_size
    else if pb_atype prev.type == atype_pointer
    then 8
    else prev.data_size

-- The step to the entry `pos`, which is not the terminator.
unfoldable pub advance : Field → Field → FieldIter → FieldIter
advance prev pos iter =
    if pb_htype prev.type == htype_oneof
      && (pb_htype pos.type == htype_oneof && pos.data_offset == pb_size_max)
    then record iter { pos = iter.pos + 1 }
    else let p_data = iter.p_data + previous_size prev + pos.data_offset in
      let index =
        if pb_htype prev.type == htype_required
        then (iter.required_field_index + 1) % 2 ^ 32
        else iter.required_field_index in
      record iter {
        pos = iter.pos + 1;
        required_field_index = index;
        p_data = p_data;
        p_size = displace p_data pos.size_offset;
      }

unfoldable pub pb_field_iter_next : FieldIter → FieldIter × Bool
pb_field_iter_next iter =
    let prev = current iter in
    let pos = field_at iter.start (iter.pos + 1) in
    if prev.tag == 0
    then (iter, false)
    else if pos.tag == 0
    then ((pb_field_iter_begin iter.start iter.dest_struct).0, false)
    else (advance prev pos iter, true)

-- The do-while loop of `pb_field_iter_find`, from the position `start`. A turn through the table comes
-- back to `start` before the fuel of `length + 1` rounds is used up.
unfoldable pub find_loop : (fuel start tag : ℕ) → FieldIter → FieldIter × Bool
find_loop zero start tag iter = (iter, false)
find_loop (suc fuel) start tag iter =
    let next = (pb_field_iter_next iter).0 in
    let more = find_loop fuel start tag next in
    if (current iter).tag == tag && not (pb_ltype (current iter).type == ltype_extension)
    then (iter, true)
    else if next.pos == start
    then (next, false)
    else more

unfoldable pub pb_field_iter_find : FieldIter → (tag : ℕ) → FieldIter × Bool
pb_field_iter_find iter tag = find_loop (suc (length iter.start)) iter.pos tag iter
