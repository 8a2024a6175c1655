-- ===== src/Message/Decode/Messages.antt =====
-- Whole messages: `pb_decode_noinit`, `pb_decode` and `pb_decode_delimited`.
use ios_college_work.Common.{
  ℕ, zero, suc, ◌+◌, ◌-◌, ◌/◌, ◌%◌, ◌^◌, bit_or, not, Option, none, some, List, [], ◌∷◌, length,
  ltb, ◌==◌, ◌&&◌, if◌then◌else◌, Cmd, ok, err, fault, stuck, ◌>>=◌, ◌>>◌,
}
use mathlib.Core.Option
use ios_college_work.Stream.Errors.{missing_required_field}
use ios_college_work.Stream.Input.{IStream}
use ios_college_work.Wire.Decode.{Header, pb_decode_tag, pb_skip_field, pb_make_string_substream}
use ios_college_work.Message.Field.{Field, pb_htype, htype_required}
use ios_college_work.Message.Iter.{
  FieldIter, current, pb_field_iter_begin, pb_field_iter_next, pb_field_iter_find,
}
use ios_college_work.Message.Decode.Machine.{Machine, machine, on_stream, refuse}
use ios_college_work.Message.Decode.Env.{DecodeEnv, Nested}
use ios_college_work.Message.Decode.Nest.{pb_message_set, outcome, close}
use ios_college_work.Message.Decode.Fields.{decode_field}
use ios_college_work.Message.Decode.Extensions.{decode_extension, find_extension_field}

-- `PB_MAX_REQUIRED_FIELDS`
abbrev pub max_required_fields : ℕ
max_required_fields = 64

-- `allbits`
abbrev pub allbits : ℕ
allbits = 2 ^ 32 - 1

-- The local variables of `pb_decode_noinit`; `fields_seen` has two words.
pub record Progress : Type 0 where
  pub iter : FieldIter
  pub fields_seen : List ℕ
  pub extension_range_start : ℕ

-- `fields_seen[index] |= tmp`, and `none` beyond the array.
unfoldable pub or_word : List ℕ → (index tmp : ℕ) → Option (List ℕ)
or_word [] index tmp = none
or_word (w ∷ ws) zero tmp = some (bit_or w tmp ∷ ws)
or_word (w ∷ ws) (suc index) tmp = Option.map (λ vs. w ∷ vs) (or_word ws index tmp)

abbrev pub with_seen : Progress → Option (List ℕ) → Cmd Machine Progress
with_seen prog none s = fault
with_seen prog (some ws) s = ok (record prog { fields_seen = ws }) s

unfoldable pub mark_seen : Progress → Cmd Machine Progress
unfolding or_word
mark_seen prog s =
    let index = prog.iter.required_field_index in
    if pb_htype (current prog.iter).type == htype_required && ltb index max_required_fields
    then with_seen prog (or_word prog.fields_seen (index / 32) (2 ^ (index % 32))) s
    else ok prog s

-- A field that the iterator has been moved to.
unfoldable pub known_field :
    (depth : ℕ) → DecodeEnv → Nested → Header → Progress → Cmd Machine Progress
unfolding mark_seen
known_field depth env noinit header prog =
    mark_seen prog
    >>= (λ prog'. decode_field depth env noinit header.wire_type prog'.iter >> ok prog')

unfoldable pub skip_unknown : Header → Progress → Cmd Machine Progress
skip_unknown header prog = on_stream (pb_skip_field header.wire_type) >> ok prog

-- An extension that has taken something ends the round; otherwise the data is skipped.
unfoldable pub try_extension :
    (depth : ℕ) → DecodeEnv → Nested → Header → Progress → Cmd Machine Progress
unfolding skip_unknown
try_extension depth env noinit header prog s =
    (decode_extension depth env noinit header.tag header.wire_type prog.iter >> (λ t.
        if s.stream.bytes_left == t.stream.bytes_left
        then skip_unknown header prog t
        else ok prog t))
      s

unfoldable pub unknown_field :
    (depth : ℕ) → DecodeEnv → Nested → Header → Progress → Cmd Machine Progress
unfolding skip_unknown try_extension
unknown_field depth env noinit header prog s =
    let found = find_extension_field prog.iter in
    let range = if found.1 then (current found.0).tag else 2 ^ 32 - 1 in
    let prog' = record prog { iter = found.0; extension_range_start = range } in
    if ltb header.tag prog.extension_range_start
    then skip_unknown header prog s
    else if ltb header.tag range
    then skip_unknown header prog' s
    else try_extension depth env noinit header prog' s

unfoldable pub tagged_field :
    (depth : ℕ) → DecodeEnv → Nested → Header → Progress → Cmd Machine Progress
unfolding known_field unknown_field
tagged_field depth env noinit header prog s =
    let found = pb_field_iter_find prog.iter header.tag in
    let prog' = record prog { iter = found.0 } in
    if found.1
    then known_field depth env noinit header prog' s
    else unknown_field depth env noinit header prog' s

-- `while (stream->bytes_left)`. A tag takes a byte at least.
unfoldable pub decode_fields :
    (fuel : ℕ) → (body : Header → Progress → Cmd Machine Progress) → Progress → Cmd Machine Progress
decode_fields zero body prog s = stuck
decode_fields (suc fuel) body prog s =
    let more = decode_fields fuel body in
    if s.stream.bytes_left == 0
    then ok prog s
    else (on_stream pb_decode_tag >>= (λ header.
          if header.success
          then (body header prog >>= more)
          else if header.eof
          then ok prog
          else err))
        s

-- The seek to the end of the table: `required_field_index` and the type of the last entry, and the iterator.
unfoldable pub seek_end : (fuel : ℕ) → FieldIter → Option (ℕ × ℕ × FieldIter)
seek_end zero iter = none
seek_end (suc fuel) iter =
    let next = pb_field_iter_next iter in
    let more = seek_end fuel next.0 in
    if next.1 then more else some (iter.required_field_index, (current iter).type, next.0)

-- The loop over the whole words; beyond the array is a fault.
unfoldable pub check_words : (count : ℕ) → List ℕ → Cmd Machine (Unit {0})
check_words zero seen s = ok tt s
check_words (suc count) [] s = fault
check_words (suc count) (w ∷ ws) s =
    let more = check_words count ws in
    if not (w == allbits) then refuse missing_required_field s else more s

-- The remaining bits; to shift a `uint32_t` by 32 is a fault, and so is to read beyond the array.
unfoldable pub check_bits : (index bits : ℕ) → List ℕ → Cmd Machine (Unit {0})
check_bits index bits [] s = fault
check_bits (suc index) bits (w ∷ ws) s = check_bits index bits ws s
check_bits zero bits (w ∷ ws) s =
    if bits == 0
    then fault
    else if not (w == allbits / 2 ^ (32 - bits))
    then refuse missing_required_field s
    else ok tt s

unfoldable pub check_count : (req_field_count : ℕ) → List ℕ → Cmd Machine (Unit {0})
unfolding check_words check_bits
check_count req_field_count seen s =
    if req_field_count == 0
    then ok tt s
    else (check_words (req_field_count / 32) seen
          >> check_bits (req_field_count / 32) (req_field_count % 32) seen)
        s

unfoldable pub check_end : Option (ℕ × ℕ × FieldIter) → List ℕ → Cmd Machine (Unit {0})
unfolding check_count
check_end none seen s = stuck
check_end (some (count, last_type, iter)) seen s =
    let all =
      if pb_htype last_type == htype_required && not ((current iter).tag == 0)
      then (count + 1) % 2 ^ 32
      else count in
    check_count all seen s

unfoldable pub check_required : Progress → Cmd Machine (Unit {0})
unfolding seek_end check_end
check_required prog = check_end (seek_end (suc (length prog.iter.start)) prog.iter) prog.fields_seen

abbrev pub first_progress : FieldIter → Progress
first_progress iter = record { iter = iter; fields_seen = 0 ∷ 0 ∷ []; extension_range_start = 0 }

-- `depth` bounds the nesting of submessages, and the length of the lists of extensions.
unfoldable pub pb_decode_noinit :
    (depth : ℕ) → DecodeEnv → List Field → (dest_struct : ℕ) → Cmd Machine (Unit {0})
unfolding decode_fields tagged_field check_required
pb_decode_noinit zero env fields dest_struct s = stuck
pb_decode_noinit (suc depth) env fields dest_struct s =
    (decode_fields (suc s.stream.bytes_left) (tagged_field depth env (pb_decode_noinit depth env))
          (first_progress (pb_field_iter_begin fields dest_struct).0)
        >>= check_required)
      s

unfoldable pub pb_decode :
    (depth : ℕ) → DecodeEnv → List Field → (dest_struct : ℕ) → Cmd Machine (Unit {0})
pb_decode depth env fields dest_struct =
    pb_message_set depth env fields dest_struct >> pb_decode_noinit depth env fields dest_struct

unfoldable pub delimited_body :
    (depth : ℕ) → DecodeEnv → List Field → (dest_struct : ℕ) → IStream → Cmd Machine (Unit {0})
unfolding outcome close
delimited_body depth env fields dest_struct substream s =
    close s.stream (outcome (pb_decode depth env fields dest_struct (machine substream s.mem)))

unfoldable pub pb_decode_delimited :
    (depth : ℕ) → DecodeEnv → List Field → (dest_struct : ℕ) → Cmd Machine (Unit {0})
unfolding delimited_body
pb_decode_delimited depth env fields dest_struct =
    on_stream pb_make_string_substream >>= delimited_body depth env fields dest_struct
