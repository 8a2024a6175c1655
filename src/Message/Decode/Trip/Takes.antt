-- ===== src/Message/Decode/Trip/Takes.antt =====
-- The contract of a decoder for the bytes that its encoder writes.
use ios_college_work.Common.{
  zero, suc, refl, arith, ℕ, ◌+◌, ◌≤◌, ◌<◌, ◌≡◌, ◌∙◌, ◌⊎◌, Option, List, ◌++◌, length, Cmd, ok,
}
use ios_college_work.Stream.Errors.{Error}
use ios_college_work.Stream.Buffers.{input}
use ios_college_work.Message.Memory.{Mem, load, bytes_at}
use ios_college_work.Message.Decode.Machine.{Machine, machine}

-- The bytes at `lo` and behind it, before `hi`, are the same.
abbrev pub Agree : (lo hi : ℕ) → Mem → Mem → Type 0
Agree lo hi m m' = (q : ℕ) → lo ≤ q → q < hi → m' q ≡ m q

-- The other bytes are the same.
abbrev pub Kept : (lo hi : ℕ) → Mem → Mem → Type 0
Kept lo hi m m' = (q : ℕ) → (q < lo) ⊎ (hi ≤ q) → m' q ≡ m q

-- `P` is a matter of the bytes there.
abbrev pub Local : (lo hi : ℕ) → (Mem → Type 0) → Type 0
Local lo hi P = (m m' : Mem) → Agree lo hi m m' → P m → P m'

-- A run of `decode` on `bs`, with `n` more bytes behind them: it takes them, stores between `lo` and `hi` only,
-- and leaves what `Same` says.
pub record Took (decode : Cmd Machine (Unit {0})) (bs : List ℕ) (lo hi : ℕ) (Same : Mem → Type 0)
    (m : Mem) (rest : List ℕ) (n : ℕ) (e : Option Error) : Type 0 where
  pub after : Mem
  pub runs :
      decode (machine (input (bs ++ rest) (length bs + n) e) m)
      ≡ ok tt (machine (input rest n e) after)
  pub kept : Kept lo hi m after
  pub same : Same after

-- On memory as `Ready` has it.
abbrev pub Takes :
    Cmd Machine (Unit {0}) → List ℕ → (lo hi : ℕ) → (Ready Same : Mem → Type 0) → Type 0
Takes decode bs lo hi Ready Same =
    (m : Mem)
    → Ready m
    → (rest : List ℕ) (n : ℕ) (e : Option Error) → Took decode bs lo hi Same m rest n e

-- A command with the same runs keeps the same contract.
pub Takes-eq :
    {c d : Cmd Machine (Unit {0})} {bs : List ℕ} {lo hi : ℕ} {Ready Same : Mem → Type 0}
    → ((s : Machine) → d s ≡ c s)
    → Takes c bs lo hi Ready Same
    → Takes d bs lo hi Ready Same
Takes-eq same takes m ready rest n e =
    let t = takes m ready rest n e in
    record { after = t.after; runs = same _ ∙ t.runs; kept = t.kept; same = t.same }

pub load-Agree :
    (m m' : Mem) (p size : ℕ) → Agree p (p + size) m m' → load m' p size ≡ load m p size
load-Agree m m' p zero same = refl
load-Agree m m' p (suc size) same =
    rw
      (
        same p (omega arith) (omega arith),
        load-Agree m m' (p + 1) size (λ q le lt. same q (omega (arith, le)) (omega (arith, lt))),
      )
      refl

pub bytes_at-Agree :
    (m m' : Mem) (p size : ℕ) → Agree p (p + size) m m' → bytes_at m' p size ≡ bytes_at m p size
bytes_at-Agree m m' p zero same = refl
bytes_at-Agree m m' p (suc size) same =
    rw
      (
        same p (omega arith) (omega arith),
        bytes_at-Agree m m' (p + 1) size
            (λ q le lt. same q (omega (arith, le)) (omega (arith, lt))),
      )
      refl
