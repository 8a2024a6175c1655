-- ===== src/Message/Decode/Trip/Loop.antt =====
-- Single rounds of the loop of `pb_decode_noinit`.
use ios_college_work.Common.{
  ℕ, zero, suc, ◌+◌, ◌*◌, ◌<◌, ◌≡◌, refl, false, ◌==◌, Option, List, ◌++◌, length, arith, Cmd, ok,
  ◌>>=◌,
}
use ios_college_work.Stream.Errors.{Error}
use ios_college_work.Stream.Buffers.{input}
use ios_college_work.Wire.Decode.{Header}
use ios_college_work.Wire.Varint.{length-groups}
use ios_college_work.Wire.Fields.Tag.{IsTag, header, tag_bytes, pb_decode_tag-Reads}
use ios_college_work.Message.Memory.{Mem}
use ios_college_work.Message.Decode.Machine.{Machine, machine, on_memory, on_stream}
use ios_college_work.Message.Decode.Messages.{Progress, decode_fields}

-- A round of the loop: the tag, and the body.
pub loop-round :
    (fuel : ℕ) (body : Header → Progress → Cmd Machine Progress) (prog : Progress) (w f : ℕ)
    (xs : List ℕ) (n : ℕ) (e : Option Error) (m : Mem)
    → IsTag w f
    → 0 < f
    → decode_fields
        (suc fuel)
        body
        prog
        (machine (input (tag_bytes w f ++ xs) (length (tag_bytes w f) + n) e) m)
      ≡ (body (header w f) prog >>= decode_fields fuel body) (machine (input xs n e) m)
unfolding decode_fields on_stream on_memory
loop-round fuel body prog w f xs n e m t positive =
    let more : (length (tag_bytes w f) + n == 0) ≡ false =
      ground (arith, length-groups 9 (w + f * 8)) in
    rw (more, pb_decode_tag-Reads w f t positive xs n e) refl

pub loop-end :
    (fuel : ℕ) (body : Header → Progress → Cmd Machine Progress) (prog : Progress) (xs : List ℕ)
    (e : Option Error) (m : Mem)
    → 0 < fuel
    → decode_fields fuel body prog (machine (input xs 0 e) m) ≡ ok prog (machine (input xs 0 e) m)
unfolding decode_fields
loop-end zero body prog xs e m h = absurd (omega (arith, h))
loop-end (suc fuel) body prog xs e m h = refl

pub fuel-suc : (fuel : ℕ) → 0 < fuel → (f : ℕ) × (fuel ≡ suc f)
fuel-suc zero h = absurd (omega (arith, h))
fuel-suc (suc f) h = (f, refl)
