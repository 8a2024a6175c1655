-- ===== src/Common/Outcome.antt =====
-- The outcome of a C function that returns `bool` and updates an object that it is handed: `ok` is
-- `true` with its results, `err` is `false`. Both carry the object as it was left. `fault` is an access
-- that C leaves undefined, `stuck` a loop that has used up its fuel.
pub data Run (S A : Type 0) : Type 0 where
  ok : A → S → Run S A
  err : S → Run S A
  fault stuck : Run S A

-- A function of the program that works on an `S` and yields an `A`.
abbrev pub Cmd : Type 0 → Type 0 → Type 0
Cmd S A = S → Run S A

abbrev pub pure : {S A : Type 0} → A → Cmd S A
pure a s = ok a s

-- `if (!first(s)) return false; rest`
abbrev pub and_then : {S A B : Type 0} → Run S A → (A → Cmd S B) → Run S B
and_then (ok a s) k = k a s
and_then (err s) k = err s
and_then fault k = fault
and_then stuck k = stuck

infixl 5 ◌>>=◌ ◌>>◌
abbrev pub ◌>>=◌ : {S A B : Type 0} → Cmd S A → (A → Cmd S B) → Cmd S B
◌>>=◌ m k s = and_then (m s) k

abbrev pub ◌>>◌ : {S B : Type 0} → Cmd S (Unit {0}) → Cmd S B → Cmd S B
m >> k = m >>= λ _. k
