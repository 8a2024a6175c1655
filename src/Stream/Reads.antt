-- ===== src/Stream/Reads.antt =====
-- The contract of a decoder: on a buffer that goes on with the bytes `bs` it yields `a` and takes exactly
-- these bytes.
use ios_college_work.Common.{
  ℕ, ◌+◌, ◌≡◌, ap, ◌∙◌, Option, List, ◌++◌, length, length-append, arith, Cmd, ok, ◌>>=◌,
}
use mathlib.Core.List.{append_assoc}
use ios_college_work.Stream.Errors.{Error}
use ios_college_work.Stream.Input.{IStream, pb_read, pb_read_null}
use ios_college_work.Stream.Buffers.{input, pb_read-input, pb_read_null-input}

abbrev pub Reads : {A : Type 0} → Cmd IStream A → List ℕ → A → Type 0
Reads c bs a =
    (rest : List ℕ) (n : ℕ) (e : Option Error)
    → c (input (bs ++ rest) (length bs + n) e) ≡ ok a (input rest n e)

pub pb_read-Reads : (bs : List ℕ) → Reads (pb_read (length bs)) bs bs
pb_read-Reads = pb_read-input

pub pb_read_null-Reads : (bs : List ℕ) → Reads (pb_read_null (length bs)) bs tt
pb_read_null-Reads = pb_read_null-input

-- One decoder after another.
pub Reads-bind :
    {A B : Type 0} (c : Cmd IStream A) (k : A → Cmd IStream B) (bs cs : List ℕ) (a : A) (b : B)
    → Reads c bs a
    → Reads (k a) cs b
    → Reads (c >>= k) (bs ++ cs) b
Reads-bind c k bs cs a b first second rest n e =
    ap (λ (s : IStream). (c >>= k) s) split
    ∙ rw (first (cs ++ rest) (length cs + n) e) (second rest n e)
  where
    split :
        input ((bs ++ cs) ++ rest) (length (bs ++ cs) + n) e
        ≡ input (bs ++ (cs ++ rest)) (length bs + (length cs + n)) e
    split = ground (arith, append_assoc bs cs rest, length-append bs cs)
