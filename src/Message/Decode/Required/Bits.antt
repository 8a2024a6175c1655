-- ===== src/Message/Decode/Required/Bits.antt =====
-- Bits of a word of the bitmap, after a mark and in a word of ones.
use ios_college_work.Common.{
  ℕ, zero, suc, ◌+◌, ◌-◌, ◌*◌, ◌/◌, ◌%◌, ◌^◌, ◌<◌, ◌≡◌, refl, sym, ap, ◌∙◌, inl, inr, Bool, true,
  false, Bool-cases, ◌==◌, ◌&&◌, bit_or, if◌then◌else◌, arith,
}
use ios_college_work.Common.Digits.{bit_or-halves}
use native.Mathlib.Nat.{pow-suc, div-div-eq-div-mul, one-le-pow}

-- Bit `j` of a word.
abbrev pub bit : (w j : ℕ) → ℕ
bit w j = w / 2 ^ j % 2

bit-suc : (w j : ℕ) → bit w (suc j) ≡ bit (w / 2) j
bit-suc w j =
    ap (λ (k : ℕ). w / k % 2) (pow-suc 2 j ∙ two_first)
    ∙ ap (λ (k : ℕ). k % 2) (sym (div-div-eq-div-mul w 2 (2 ^ j)))
  where
    two_first : 2 ^ j * 2 ≡ 2 * 2 ^ j
    two_first = omega arith

bit-zero : (w : ℕ) → bit w 0 ≡ w % 2
bit-zero w = omega arith

or_zero : (n a : ℕ) → a < n → bit_or a 0 ≡ a
or_zero zero a h = absurd (omega (arith, h))
or_zero (suc n) zero h = refl
or_zero (suc n) (suc a) h =
    omega (arith, bit_or-halves (suc a) 0, or_zero n (suc a / 2) (omega (arith, h)))

or_up : (i w : ℕ) → bit_or w (2 ^ suc i) / 2 ≡ bit_or (w / 2) (2 ^ i)
or_up i w =
    let half : 2 ^ suc i / 2 ≡ 2 ^ i = omega (arith, pow-suc 2 i) in
    let even : 2 ^ suc i % 2 ≡ 0 = omega (arith, pow-suc 2 i) in
    ground (arith, bit_or-halves w (2 ^ suc i), half, even)

-- A mark sets its own bit, and no other one.
pub bit-mark : (i j w : ℕ) → bit (bit_or w (2 ^ i)) j ≡ (if i == j then 1 else bit w j)
bit-mark zero zero w = ground (arith, bit-zero (bit_or w 1), bit_or-halves w 1)
bit-mark zero (suc j) w =
    let high : bit_or w 1 / 2 ≡ w / 2 =
      omega (arith, bit_or-halves w 1, or_zero (suc (w / 2)) (w / 2) (omega arith)) in
    bit-suc (bit_or w 1) j ∙ ap (λ (k : ℕ). bit k j) high ∙ sym (bit-suc w j) ∙ ground arith
bit-mark (suc i) zero w =
    let low : bit_or w (2 ^ suc i) % 2 ≡ w % 2 =
      omega (arith, bit_or-halves w (2 ^ suc i), pow-suc 2 i) in
    bit-zero (bit_or w (2 ^ suc i)) ∙ low ∙ sym (bit-zero w) ∙ ground arith
bit-mark (suc i) (suc j) w =
    bit-suc (bit_or w (2 ^ suc i)) j
    ∙ ap (λ (k : ℕ). bit k j) (or_up i w)
    ∙ bit-mark i j (w / 2)
    ∙ ground (arith, sym (bit-suc w j))

-- A mark stays below where its word is.
pub mark-lt : (i n w : ℕ) → i < n → w < 2 ^ n → bit_or w (2 ^ i) < 2 ^ n
mark-lt i zero w h low = absurd (omega (arith, h))
mark-lt zero (suc n) w h low =
    omega (arith, low, pow-suc 2 n, bit_or-halves w 1, or_zero (suc (w / 2)) (w / 2) (omega arith))
mark-lt (suc i) (suc n) w h low =
    let rest = mark-lt i n (w / 2) (omega (arith, h)) (omega (arith, low, pow-suc 2 n)) in
    omega (arith, rest, or_up i w, pow-suc 2 n)

-- `f` holds at every number below `n`.
abbrev pub every : (n : ℕ) → (ℕ → Bool) → Bool
every zero f = true
every (suc n) f = let rest = every n (λ j. f (suc j)) in f 0 && rest

pub every-ext : (n : ℕ) (f g : ℕ → Bool) → ((j : ℕ) → j < n → f j ≡ g j) → every n f ≡ every n g
every-ext zero f g same = refl
every-ext (suc n) f g same =
    rw
      (
        same 0 (omega arith),
        every-ext n (λ j. f (suc j)) (λ j. g (suc j)) (λ j h. same (suc j) (omega (arith, h))),
      )
      refl

pub every-add : (a b : ℕ) (f : ℕ → Bool) → every (a + b) f ≡ (every a f && every b (λ j. f (a + j)))
every-add zero b f =
    ap (λ (k : ℕ). every k f) no_more
    ∙ every-ext b f (λ j. f (0 + j)) (λ j _. ap f (sym (left_zero j)))
  where
    left_zero : (j : ℕ) → 0 + j ≡ j
    left_zero j = omega arith

    no_more : 0 + b ≡ b
    no_more = omega arith
every-add (suc a) b f =
    let up : suc a + b ≡ suc (a + b) = omega arith in
    let shifted = every-ext b (λ j. f (suc (a + j))) (λ j. f (suc a + j)) (λ j _. ap f (shift j)) in
    let rest = every-add a b (λ j. f (suc j)) in
    rw (up, rest, shifted) (assoc (f 0) (every a (λ j. f (suc j))) (every b (λ j. f (suc a + j))))
  where
    shift : (j : ℕ) → suc (a + j) ≡ suc a + j
    shift j = omega arith

    assoc : (p q r : Bool) → (p && (q && r)) ≡ ((p && q) && r)
    assoc true q r = refl
    assoc false q r = refl

-- A word of `n` bits is the one of ones if all of them are.
pub ones-every : (n w : ℕ) → w < 2 ^ n → (w == 2 ^ n - 1) ≡ every n (λ j. bit w j == 1)
ones-every zero w h = ground (arith, h)
ones-every (suc n) w h =
    let rest = ones-every n (w / 2) (omega (arith, h, pow-suc 2 n)) in
    let same =
      every-ext n (λ j. bit w (suc j) == 1) (λ j. bit (w / 2) j == 1)
        (λ j _. ap (λ (k : ℕ). k == 1) (bit-suc w j)) in
    split ∙ ap (λ (t : Bool). (bit w 0 == 1) && t) (rest ∙ sym same)
  where
    split : (w == 2 ^ suc n - 1) ≡ ((bit w 0 == 1) && (w / 2 == 2 ^ n - 1))
    split = elim (Bool-cases (w == 2 ^ suc n - 1)) [
      | inl t ↦ rw t (ground (arith, t, bit-zero w, pow-suc 2 n, one-le-pow n 2))
      | inr t ↦ rw t (ground (arith, t, bit-zero w, pow-suc 2 n, one-le-pow n 2))
    ]
