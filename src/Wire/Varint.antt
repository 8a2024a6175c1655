-- ===== src/Wire/Varint.antt =====
-- What a varint looks like, stated without the loops: groups of seven bits, lowest first, with the
-- top bit set on all but the last.
pub mod Encode
pub mod Decode
use ios_college_work.Common.{
  ℕ, zero, suc, ◌+◌, ◌*◌, ◌/◌, ◌%◌, ◌^◌, ◌≤◌, ◌<◌, ◌≡◌, refl, List, [], ◌∷◌, ltb, if◌then◌else◌,
  length, All, arith,
}

-- For `v` below 128 ^ (k + 1).
unfoldable pub groups : ℕ → ℕ → List ℕ
groups zero v = v ∷ []
groups (suc k) v =
    let rest = groups k (v / 128) in if ltb v 128 then v ∷ [] else (v % 128 + 128) ∷ rest

-- A `uint64_t` takes ten groups at most.
abbrev pub varint : ℕ → List ℕ
varint = groups 9

pub length-groups : (k v : ℕ) → (1 ≤ length (groups k v)) × (length (groups k v) ≤ k + 1)
unfolding groups
length-groups zero v = omega arith
length-groups (suc k) v = ground (arith, length-groups k (v / 128))
