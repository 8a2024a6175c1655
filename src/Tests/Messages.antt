-- ===== src/Tests/Messages.antt =====
-- Whole messages, decoded.
use ios_college_work.Common.{
  ℕ, ◌<◌, none, List, [], ◌∷◌, All, if◌then◌else◌, ok, ◌≡◌, refl, ◌>>=◌, arith,
}
use ios_college_work.Stream.Buffers.{input}
use ios_college_work.Message.Iter.{
  pb_field_iter_find, pb_field_iter_begin, pb_field_iter_next, advance,
}
use ios_college_work.Message.Decode.Layout.{On, On-begin, On-find, CountFits}
use ios_college_work.Message.Decode.Machine.{machine, refuse, on_stream}
use ios_college_work.Wire.Decode.{pb_decode_tag}
use ios_college_work.Message.Decode.Defaults.{pb_message_set_to_defaults}
use ios_college_work.Message.Decode.Messages.{pb_decode, pb_decode_delimited, check_count}
use ios_college_work.Message.Decode.Required.{
  has, indices, mark_each, IsRequired, check_count-mark_each,
}
use ios_college_work.Message.Decode.Required.Bits.{every}
use ios_college_work.Stream.Errors.{missing_required_field}
use ios_college_work.Message.Decode.Machine.{refuse}
use ios_college_work.Message.Decode.Within.{Within, Any}
use ios_college_work.Message.Decode.Within.Defaults.{Sets, pb_message_set_to_defaults-Sets}
use ios_college_work.Message.Decode.Within.Tags.{Tagged, pb_decode_tag-Tagged}
use ios_college_work.Message.Decode.Within.Messages.{pb_decode-Within, pb_decode_delimited-Within}
use ios_college_work.Message.Field.{pb_ltype, ltype_extension}
use ios_college_work.Message.Decode.Layout.{Entries}
use ios_college_work.Message.Iter.{current, FieldIter, advance, pb_field_iter_next}
use ios_college_work.Common.{◌≢◌, true, false, ◌>>◌}
use ios_college_work.Wire.Decode.{Header, pb_skip_field}
use ios_college_work.Message.Decode.Messages.{
  Progress, tagged_field, first_progress, pb_decode_noinit,
}
use ios_college_work.Message.Decode.Unknown.{tagged_field-unknown}
use ios_college_work.Tests.Layouts.{
  outer_table, hooks, InFrame, LaidBelow, third, laid_outer, hooks_fit,
}

-- Fields in any order, one of them unknown, an array in packed form, and an end that is missing.
abbrev sent : List ℕ
sent = 34 ∷ 3 ∷ 3 ∷ 142 ∷ 2 ∷ 56 ∷ 9 ∷ 8 ∷ 150 ∷ 1 ∷ 26 ∷ 2 ∷ 8 ∷ 5 ∷ 40 ∷ 7 ∷ 26 ∷ 9 ∷ []

sent_bytes : All (λ b. b < 256) sent
sent_bytes = ground arith

pb_decode-Within_example :
    Within 64 36
      (Any {A = Unit {0}})
      0
      sent
      18
      (λ p. 255)
      (pb_decode 2 hooks outer_table 64 (machine (input sent 18 none) (λ p. 255)))
pb_decode-Within_example =
    pb_decode-Within 64 36 hooks hooks_fit 2 outer_table 64 sent 18 none (λ p. 255) laid_outer
      (omega arith, sent_bytes)

pb_decode_delimited-Within_example :
    Within 64 36
      (Any {A = Unit {0}})
      0
      (16 ∷ sent)
      19
      (λ p. 255)
      (pb_decode_delimited 2 hooks outer_table 64 (machine (input (16 ∷ sent) 19 none) (λ p. 255)))
pb_decode_delimited-Within_example =
    pb_decode_delimited-Within 64 36 hooks hooks_fit 2 outer_table 64 (16 ∷ sent) 19 none (λ p. 255)
      laid_outer (omega arith, (omega arith, sent_bytes))

pb_message_set_to_defaults-Sets_example :
    Sets 64 36 (λ p. 255) (pb_message_set_to_defaults 2 hooks.table outer_table 64 (λ p. 255))
pb_message_set_to_defaults-Sets_example =
    pb_message_set_to_defaults-Sets 64 36 2 hooks.table outer_table 64 laid_outer (λ p. 255)

pb_decode_tag-Tagged_example :
    Tagged 64 36 sent 18
      (λ p. 255)
      (on_stream pb_decode_tag (machine (input sent 18 none) (λ p. 255)))
pb_decode_tag-Tagged_example =
    pb_decode_tag-Tagged 64 36 sent 18 none (λ p. 255) (omega arith, sent_bytes)

whole : On outer_table 64 (InFrame LaidBelow) CountFits (pb_field_iter_begin outer_table 64).0
whole = On-begin outer_table 64 (InFrame LaidBelow) CountFits 5 laid_outer

On-find_example :
    On outer_table 64
      (InFrame LaidBelow)
      CountFits
      (pb_field_iter_find (pb_field_iter_begin outer_table 64).0 5).0
On-find_example =
    On-find outer_table 64 (InFrame LaidBelow) CountFits whole
      (pb_field_iter_begin outer_table 64).0 5 whole

marked_entries :
    All
      (λ iter. IsRequired iter × (iter.required_field_index < 2))
      ((pb_field_iter_begin outer_table 64).0 ∷ third ∷ [])
unfolding pb_field_iter_begin pb_field_iter_next advance
marked_entries = ((refl, omega arith), ((refl, omega arith), tt))

-- `inner` and then `number` have been seen, of the two required fields.
check_count-mark_each_example :
    (mark_each ((pb_field_iter_begin outer_table 64).0 ∷ third ∷ []) >>= check_count 2)
      (machine (input sent 18 none) (λ p. 255))
    ≡ (if every 2 (λ j. has j (indices ((pb_field_iter_begin outer_table 64).0 ∷ third ∷ [])))
        then ok tt (machine (input sent 18 none) (λ p. 255))
        else refuse missing_required_field (machine (input sent 18 none) (λ p. 255)))
check_count-mark_each_example =
    check_count-mark_each 2 ((pb_field_iter_begin outer_table 64).0 ∷ third ∷ [])
      (machine (input sent 18 none) (λ p. 255)) (omega arith) (λ e. absurd (omega (arith, e)))
      marked_entries

-- No entry of the table has the tag 7.
abbrev HasNoSeven : FieldIter → Type 0
HasNoSeven iter = (pb_ltype (current iter).type ≢ ltype_extension) × ((current iter).tag ≢ 7)

plain_walk : Entries 5 HasNoSeven (λ _. Unit {0}) (pb_field_iter_begin outer_table 64).0
unfolding pb_field_iter_begin pb_field_iter_next advance
plain_walk = (
  (λ e. absurd (omega (arith, e)), λ e. absurd (omega (arith, e))),
  (
    (λ e. absurd (omega (arith, e)), λ e. absurd (omega (arith, e))),
    (
      (λ e. absurd (omega (arith, e)), λ e. absurd (omega (arith, e))),
      ((λ e. absurd (omega (arith, e)), λ e. absurd (omega (arith, e))), tt),
    ),
  ),
)

plain_table : On outer_table 64 HasNoSeven (λ _. Unit {0}) (pb_field_iter_begin outer_table 64).0
plain_table = On-begin outer_table 64 HasNoSeven (λ _. Unit {0}) 5 plain_walk

abbrev unknown_header : Header
unknown_header = record { success = true; wire_type = 0; tag = 7; eof = false }

tagged_field-unknown_example :
    (prog' : Progress) × (tagged_field 2 hooks
        (pb_decode_noinit 2 hooks)
        unknown_header
        (first_progress (pb_field_iter_begin outer_table 64).0)
        (machine (input (9 ∷ []) 1 none) (λ p. 255))
      ≡ (on_stream (pb_skip_field 0) >> ok prog') (machine (input (9 ∷ []) 1 none) (λ p. 255)))
    × (prog'.fields_seen ≡ 0 ∷ 0 ∷ [])
    × On outer_table 64 HasNoSeven (λ _. Unit {0}) prog'.iter
tagged_field-unknown_example =
    tagged_field-unknown outer_table 64 7 HasNoSeven (λ _. Unit {0}) plain_table (λ iter w. w.0)
      (λ iter w. w.1) 2 hooks (pb_decode_noinit 2 hooks) 0
      (first_progress (pb_field_iter_begin outer_table 64).0)
      (machine (input (9 ∷ []) 1 none) (λ p. 255)) plain_table (omega arith)
