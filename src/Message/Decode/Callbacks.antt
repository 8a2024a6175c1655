-- ===== src/Message/Decode/Callbacks.antt =====
-- `decode_callback_field` and `read_raw_value`.
use ios_college_work.Common.{
  ℕ, zero, suc, ◌+◌, bit_and, Bool, true, false, List, [], ◌∷◌, length, ◌==◌, if◌then◌else◌, Run,
  Cmd, ok, err, fault, stuck, ◌>>=◌, ◌>>◌,
}
use ios_college_work.Stream.Errors.{invalid_wire_type, callback_failed}
use ios_college_work.Stream.Input.{IStream, fail, pb_istream_from_buffer, pb_read}
use ios_college_work.Wire.Encode.{wt_varint, wt_64bit, wt_string, wt_32bit}
use ios_college_work.Wire.Decode.{byte_of, pb_skip_field, pb_make_string_substream}
use ios_college_work.Message.Memory.{load_pointer}
use ios_college_work.Message.Iter.{FieldIter, current}
use ios_college_work.Message.Decode.Machine.{Machine, machine, on_stream, refuse}
use ios_college_work.Message.Decode.Env.{DecodeEnv}
use ios_college_work.Message.Decode.Nest.{outcome, close}

-- The varint of `read_raw_value`, where `buf` has `room` bytes left. A longer one is refused without a
-- message.
unfoldable pub raw_varint : (room : ℕ) → Cmd IStream (List ℕ)
unfolding byte_of
raw_varint zero s = err s
raw_varint (suc room) s =
    let more = raw_varint room in
    (pb_read 1 >>= byte_of >>= (λ byte.
        if bit_and byte 0x80 == 0 then ok (byte ∷ []) else (more >>= (λ bytes. ok (byte ∷ bytes)))))
      s

-- The bytes that have been stored in `buf`, with their number in `size`, which is `max_size` at first.
unfoldable pub read_raw_value : (wire_type max_size : ℕ) → Cmd IStream (List ℕ)
unfolding raw_varint
read_raw_value wire_type max_size s =
    if wire_type == wt_varint
    then raw_varint max_size s
    else if wire_type == wt_64bit
    then pb_read 8 s
    else if wire_type == wt_32bit
    then pb_read 4 s
    else fail invalid_wire_type s

-- `do { … } while (substream.bytes_left)`, with fuel for callbacks that take a byte each time.
unfoldable pub callback_rounds :
    (fuel : ℕ) → (callback : Cmd Machine (Unit {0})) → Cmd Machine (Unit {0})
callback_rounds zero callback s = stuck
callback_rounds (suc fuel) callback s =
    let more = callback_rounds fuel callback in
    (callback >> (λ t. if t.stream.bytes_left == 0 then ok tt t else more t)) s

-- Behind the rounds: the parent fails as such, or the substream is closed.
unfoldable pub close_callback : (parent : IStream) → Run Machine Bool → Run Machine (Unit {0})
unfolding close
close_callback parent (ok true s) = close parent (ok true s)
close_callback parent (ok false s) = refuse callback_failed (machine parent s.mem)
close_callback parent (err s) = err s
close_callback parent fault = fault
close_callback parent stuck = stuck

unfoldable pub callback_body :
    (callback : Cmd Machine (Unit {0})) → IStream → Cmd Machine (Unit {0})
unfolding callback_rounds outcome close_callback
callback_body callback substream s =
    close_callback s.stream
      (outcome (callback_rounds (suc substream.bytes_left) callback (machine substream s.mem)))

-- The parent's stream, with the memory and the status of a callback on a copied value.
unfoldable pub back_to : (parent : IStream) → Run Machine (Unit {0}) → Run Machine (Unit {0})
back_to parent (ok _ s) = ok tt (machine parent s.mem)
back_to parent (err s) = err (machine parent s.mem)
back_to parent fault = fault
back_to parent stuck = stuck

unfoldable pub callback_value :
    (callback : Cmd Machine (Unit {0})) → (buffer : List ℕ) → Cmd Machine (Unit {0})
unfolding back_to
callback_value callback buffer s =
    back_to s.stream (callback (machine (pb_istream_from_buffer buffer (length buffer)) s.mem))

unfoldable pub decode_callback_field :
    DecodeEnv → (wire_type : ℕ) → FieldIter → Cmd Machine (Unit {0})
unfolding callback_body callback_value read_raw_value
decode_callback_field env wire_type iter s =
    let func = load_pointer s.mem iter.p_data in
    let callback = λ (t : Machine).
      env.decode_callback (load_pointer t.mem iter.p_data) (current iter) (iter.p_data + 8) t in
    if func == 0
    then on_stream (pb_skip_field wire_type) s
    else if wire_type == wt_string
    then (on_stream pb_make_string_substream >>= callback_body callback) s
    else (on_stream (read_raw_value wire_type 10) >>= callback_value callback) s
