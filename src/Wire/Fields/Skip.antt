-- ===== src/Wire/Fields/Skip.antt =====
-- `pb_skip_field` against the encoders of each wire type.
use ios_college_work.Common.{
  ℕ, zero, suc, ◌+◌, ◌/◌, ◌%◌, ◌^◌, ◌≤◌, ◌<◌, ◌≡◌, Option, List, [], ◌∷◌, ◌++◌, length, arith, ok,
  Cmd,
}
use ios_college_work.Common.Bits.{top_bit}
use ios_college_work.Stream.Errors.{Error}
use ios_college_work.Stream.Input.{pb_read_null}
use ios_college_work.Stream.Output.{OStream}
use ios_college_work.Stream.Buffers.{input}
use ios_college_work.Stream.Writes.{Writes, Writes-then, pb_write-Writes}
use ios_college_work.Stream.Reads.{Reads, Reads-bind, pb_read-Reads, pb_read_null-Reads}
use ios_college_work.Wire.Encode.{
  wt_varint, wt_64bit, wt_string, wt_32bit, fixed32_bytes, fixed64_bytes, pb_encode_varint,
  pb_encode_fixed32, pb_encode_fixed64, pb_encode_string,
}
use ios_college_work.Wire.Decode.{
  skip_varint_loop, pb_skip_varint, pb_skip_string, pb_skip_field, pb_decode_varint32,
}
use ios_college_work.Wire.Varint.{groups, varint, length-groups}
use ios_college_work.Wire.Scalars.Varint.{pb_encode_varint-Writes, pb_decode_varint32-Reads}
use ios_college_work.Wire.Scalars.Fixed.{pb_encode_fixed32-Writes, pb_encode_fixed64-Writes}

-- A payload of each wire type.
pub data Payload : Type 0 where
  varint_value fixed64_value fixed32_value : ℕ → Payload
  string_value : List ℕ → Payload

abbrev pub wire_type : Payload → ℕ
wire_type (varint_value v) = wt_varint
wire_type (fixed64_value v) = wt_64bit
wire_type (fixed32_value v) = wt_32bit
wire_type (string_value bs) = wt_string

abbrev pub payload_bytes : Payload → List ℕ
payload_bytes (varint_value v) = varint v
payload_bytes (fixed64_value v) = fixed64_bytes v
payload_bytes (fixed32_value v) = fixed32_bytes v
payload_bytes (string_value bs) = varint (length bs) ++ bs

-- The encoder that the source uses for the wire type.
abbrev pub encode_payload : Payload → Cmd OStream (Unit {0})
encode_payload (varint_value v) = pb_encode_varint v
encode_payload (fixed64_value v) = pb_encode_fixed64 v
encode_payload (fixed32_value v) = pb_encode_fixed32 v
encode_payload (string_value bs) = pb_encode_string bs (length bs)

-- Values fit their words; a length fits the `uint32_t` of the decoder.
abbrev pub IsPayload : Payload → Type 0
IsPayload (varint_value v) = v < 2 ^ 64
IsPayload (fixed64_value v) = v < 2 ^ 64
IsPayload (fixed32_value v) = v < 2 ^ 32
IsPayload (string_value bs) = length bs < 2 ^ 32

pub pb_encode_string-Writes :
    (bs : List ℕ)
    → length bs < 2 ^ 64
    → Writes (pb_encode_string bs (length bs)) (varint (length bs) ++ bs)
unfolding pb_encode_string
pb_encode_string-Writes bs h =
    Writes-then (pb_encode_varint-Writes (length bs) h) (pb_write-Writes bs)

pub encode_payload-Writes :
    (p : Payload) → IsPayload p → Writes (encode_payload p) (payload_bytes p)
encode_payload-Writes (varint_value v) h = pb_encode_varint-Writes v h
encode_payload-Writes (fixed64_value v) h = pb_encode_fixed64-Writes v
encode_payload-Writes (fixed32_value v) h = pb_encode_fixed32-Writes v
encode_payload-Writes (string_value bs) h = pb_encode_string-Writes bs (omega (arith, h))

skip_last :
    (fuel g : ℕ) (rest : List ℕ) (n : ℕ) (e : Option Error)
    → g < 128
    → skip_varint_loop (suc fuel) (input (g ∷ rest) (suc n) e) ≡ ok tt (input rest n e)
unfolding skip_varint_loop
skip_last fuel g rest n e h = ground (arith, pb_read-Reads (g ∷ []) rest n e, top_bit g)

skip_inner :
    (fuel g : ℕ) (rest : List ℕ) (n : ℕ) (e : Option Error)
    → g < 128
    → skip_varint_loop (suc fuel) (input ((g + 128) ∷ rest) (suc n) e)
      ≡ skip_varint_loop fuel (input rest n e)
unfolding skip_varint_loop
skip_inner fuel g rest n e h =
    ground (arith, pb_read-Reads ((g + 128) ∷ []) rest n e, top_bit (g + 128))

skip_varint_loop-groups :
    (k fuel v : ℕ) (rest : List ℕ) (n : ℕ) (e : Option Error)
    → length (groups k v) ≤ fuel
    → v < 128 ^ suc k
    → skip_varint_loop fuel (input (groups k v ++ rest) (length (groups k v) + n) e)
      ≡ ok tt (input rest n e)
unfolding groups
skip_varint_loop-groups k zero v rest n e hf small = absurd (omega (arith, length-groups k v))
skip_varint_loop-groups zero (suc fuel) v rest n e hf small =
    ground (arith, skip_last fuel v rest n e)
skip_varint_loop-groups (suc k) (suc fuel) v rest n e hf small = ground (
  arith,
  skip_last fuel v rest n e,
  skip_inner fuel (v % 128) (groups k (v / 128) ++ rest) (length (groups k (v / 128)) + n) e,
  skip_varint_loop-groups k fuel (v / 128) rest n e,
)

pub pb_skip_varint-Reads : (v : ℕ) → v < 2 ^ 64 → Reads pb_skip_varint (varint v) tt
unfolding pb_skip_varint
pb_skip_varint-Reads v h rest n e =
    skip_varint_loop-groups 9 (suc (length (varint v) + n)) v rest n e (omega arith) (omega arith)

pub pb_skip_string-Reads :
    (bs : List ℕ) → length bs < 2 ^ 32 → Reads pb_skip_string (varint (length bs) ++ bs) tt
unfolding pb_skip_string
pb_skip_string-Reads bs h =
    Reads-bind pb_decode_varint32 pb_read_null (varint (length bs)) bs (length bs) tt
      (pb_decode_varint32-Reads (length bs) h) (pb_read_null-Reads bs)

-- `pb_skip_field` takes exactly the payload that stands behind the tag.
pub pb_skip_field-Reads :
    (p : Payload) → IsPayload p → Reads (pb_skip_field (wire_type p)) (payload_bytes p) tt
unfolding pb_skip_field fixed64_bytes fixed32_bytes
pb_skip_field-Reads (varint_value v) h rest n e = pb_skip_varint-Reads v h rest n e
pb_skip_field-Reads (fixed64_value v) h rest n e = pb_read_null-Reads (fixed64_bytes v) rest n e
pb_skip_field-Reads (fixed32_value v) h rest n e = pb_read_null-Reads (fixed32_bytes v) rest n e
pb_skip_field-Reads (string_value bs) h rest n e = pb_skip_string-Reads bs h rest n e
