-- ===== src/Message/Memory.antt =====
-- Memory as the encoder reads it and the decoder writes it: one byte at each address, words with the
-- lowest byte first and pointers of eight bytes, as on arm64 and x86_64.
use ios_college_work.Common.{
  ℕ, zero, suc, ◌+◌, ◌-◌, ◌*◌, ◌^◌, Bool, true, List, [], ◌∷◌, ltb, ◌==◌, if◌then◌else◌, ◌&&◌,
}

abbrev pub Mem : Type 0
Mem = ℕ → ℕ

-- The `size` bytes from an address on.
abbrev pub bytes_at : Mem → (p size : ℕ) → List ℕ
bytes_at m p zero = []
bytes_at m p (suc size) = m p ∷ bytes_at m (p + 1) size

-- The unsigned word of `size` bytes at an address.
abbrev pub load : Mem → (p size : ℕ) → ℕ
load m p zero = 0
load m p (suc size) = m p + 256 * load m (p + 1) size

abbrev pub load_pointer : Mem → ℕ → ℕ
load_pointer m p = load m p 8

-- The bit pattern of an `int64_t` that a signed word of `bits` bits converts to.
unfoldable pub sign_extend : (bits value : ℕ) → ℕ
sign_extend bits value = if ltb value (2 ^ (bits - 1)) then value else value + (2 ^ 64 - 2 ^ bits)

-- `p + offset` for an `int32_t` offset, given by its bit pattern.
unfoldable pub displace : (p offset : ℕ) → ℕ
displace p offset = if ltb offset (2 ^ 31) then p + offset else p - (2 ^ 32 - offset)

-- Whether all of the `size` bytes at an address are zero.
unfoldable pub all_zero : Mem → (p size : ℕ) → Bool
all_zero m p zero = true
all_zero m p (suc size) = (m p == 0) && all_zero m (p + 1) size
