-- ===== src/Wire/Varint/Decode.antt =====
-- The loops of `pb_decode_varint` and `pb_decode_varint32` read the groups back.
use ios_college_work.Common.{
  ℕ, zero, suc, ◌+◌, ◌*◌, ◌/◌, ◌%◌, ◌^◌, ◌≤◌, ◌<◌, ◌≡◌, ap, Option, List, ◌∷◌, ◌++◌, ltb, length,
  arith, ok, Bool-cases, inl, inr,
}
use native.Mathlib.Nat.{pow-le-pow_right, div-add-mod, mod-eq_of_lt}
use native.Mathlib.Decide.{dec_lt}
use native.Mathlib.Numerals.{towards_suc}
use ios_college_work.Common.Bits.{low_bits, top_bit, bit_or-shift}
use ios_college_work.Stream.Errors.{Error}
use ios_college_work.Stream.Buffers.{input, pb_readbyte-input}
use ios_college_work.Wire.Decode.{add_group, varint_loop}
use ios_college_work.Wire.Varint.{groups}

seven_more : (b : ℕ) → 2 ^ (b + 7) ≡ 128 * 2 ^ b
seven_more b = simp towards_suc (omega arith)

add_group-sum :
    (width acc byte b : ℕ)
    → acc < 2 ^ b
    → byte % 128 * 2 ^ b < 2 ^ width
    → add_group width acc byte b ≡ acc + byte % 128 * 2 ^ b
add_group-sum width acc byte b low fits =
    rw (low_bits byte, mod-eq_of_lt fits) (bit_or-shift b (byte % 128) acc low)

module _ (width : ℕ) (e : Option Error) where
  -- A last byte ends the loop, any other byte leads to its next round.
  last_group :
      (fuel b acc g : ℕ) (xs : List ℕ) (n : ℕ)
      → b < width
      → g < 128
      → acc < 2 ^ b
      → g * 2 ^ b < 2 ^ width
      → varint_loop width (suc fuel) b acc (input (g ∷ xs) (suc n) e)
        ≡ ok (acc + g * 2 ^ b) (input xs n e)
  unfolding varint_loop
  last_group fuel b acc g xs n hb hg low fits =
      ground (arith, pb_readbyte-input g xs n e, top_bit g, add_group-sum width acc g b low)

  inner_group :
      (fuel b acc g : ℕ) (xs : List ℕ) (n : ℕ)
      → b < width
      → width ≤ 64
      → g < 128
      → acc < 2 ^ b
      → g * 2 ^ b < 2 ^ width
      → varint_loop width (suc fuel) b acc (input ((g + 128) ∷ xs) (suc n) e)
        ≡ varint_loop width fuel (b + 7) (acc + g * 2 ^ b) (input xs n e)
  unfolding varint_loop
  inner_group fuel b acc g xs n hb hw hg low fits = ground (
    arith,
    pb_readbyte-input (g + 128) xs n e,
    top_bit (g + 128),
    add_group-sum width acc (g + 128) b low,
  )

  -- The bit position stays below the width as long as there is something left to read.
  position-lt : (b w : ℕ) → 1 ≤ w → w * 2 ^ b < 2 ^ width → b < width
  position-lt b w pos fits = elim (dec_lt b width) [
    | yes h ↦ h
    | no h ↦
        let bound : 2 ^ width ≤ 2 ^ b = pow-le-pow_right {n = 2} (omega arith) (omega arith) in
        absurd (grind (arith, bound))
  ]

  split_group : (w b : ℕ) → w * 2 ^ b ≡ w % 128 * 2 ^ b + w / 128 * 2 ^ (b + 7)
  split_group w b = omega (
    arith,
    ap (λ (t : ℕ). t * 2 ^ b) (div-add-mod w 128),
    ap (λ (t : ℕ). w / 128 * t) (seven_more b),
  )

  low_sum : (acc g b : ℕ) → acc < 2 ^ b → g < 128 → acc + g * 2 ^ b < 2 ^ (b + 7)
  low_sum acc g b low hg = grind (arith, seven_more b)

  -- `acc` is what the loop has read, and the groups of `w` count from bit `b` on.
  pub varint_loop-groups :
      (k fuel b acc w : ℕ) (rest : List ℕ) (n : ℕ)
      → k < fuel
      → b < width
      → width ≤ 64
      → w < 128 ^ suc k
      → acc < 2 ^ b
      → acc + w * 2 ^ b < 2 ^ width
      → varint_loop width fuel b acc (input (groups k w ++ rest) (length (groups k w) + n) e)
        ≡ ok (acc + w * 2 ^ b) (input rest n e)
  unfolding groups
  varint_loop-groups k zero b acc w rest n hf hb hw small low fits = absurd (omega arith)
  varint_loop-groups zero (suc fuel) b acc w rest n hf hb hw small low fits =
      ground (arith, last_group fuel b acc w rest n)
  varint_loop-groups (suc k) (suc fuel) b acc w rest n hf hb hw small low fits =
      elim (Bool-cases (ltb w 128)) [
        | inl last ↦ ground (arith, last_group fuel b acc w rest n)
        | inr more ↦ ground (
          arith,
          split_group w b,
          low_sum acc (w % 128) b,
          position-lt (b + 7) (w / 128),
          inner_group fuel b acc (w % 128) (groups k (w / 128) ++ rest)
              (length (groups k (w / 128)) + n),
          varint_loop-groups k fuel (b + 7) (acc + w % 128 * 2 ^ b) (w / 128) rest n (omega arith),
        )
      ]
