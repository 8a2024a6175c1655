-- ===== src/Message/Encode/Contract/Items.antt =====
-- What is loaded from a memory of bytes.
use ios_college_work.Common.{ℕ, zero, suc, ◌+◌, ◌^◌, ◌<◌, ◌≡◌, refl, ◌⊎◌, true, length, arith}
use native.Mathlib.Nat.{pow-suc}
use ios_college_work.Message.Memory.{Mem, bytes_at, load}
use ios_college_work.Message.Encode.Items.{is_word_size}

-- Every address holds a byte.
abbrev pub IsMem : Mem → Type 0
IsMem m = (p : ℕ) → m p < 256

pub load-lt : {m : Mem} → IsMem m → (p size : ℕ) → load m p size < 256 ^ size
load-lt mem p zero = omega arith
load-lt {m} mem p (suc size) = grind (arith, pow-suc 256 size, mem p, load-lt mem (p + 1) size)

pub length-bytes_at : (m : Mem) (p size : ℕ) → length (bytes_at m p size) ≡ size
length-bytes_at m p zero = refl
length-bytes_at m p (suc size) = omega (arith, length-bytes_at m (p + 1) size)

pub word-cases : (d : ℕ) → is_word_size d ≡ true → (d ≡ 1) ⊎ (d ≡ 2) ⊎ (d ≡ 4) ⊎ (d ≡ 8)
unfolding is_word_size
word-cases d h = ground arith
