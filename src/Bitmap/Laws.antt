-- ===== src/Bitmap/Laws.antt =====
-- The macros BMAP_GET, BMAP_SET and BMAP_CLR of libexfat/exfatfs.h as a set of bits.
use native.Mathlib.Decide.{ℕ_discrete}
use nuclear_armageddon.Prelude.{
  ℕ, zero, suc, ◌-◌, ◌*◌, ◌/◌, ◌%◌, ◌^◌, ◌≤◌, ◌<◌, bit_and, bit_or, ◌≡◌, ◌≢◌, refl, sym, ap, ◌∙◌,
  true, false, not, List, [], ◌∷◌, ◌==◌, if◌then◌else◌, get_or, set, length, length-set,
  get_or-set_self, get_or-set_ne, arith,
}
use nuclear_armageddon.Prelude.Bits.{
  digit, digit_le, digit-bit_or, digit-bit_and, digit-pow_self, digit-pow_ne, digit-complement,
  bit_and-pow, bit_or-lt, bit_and-le, zero-digit,
}
use nuclear_armageddon.Bitmap.{word_bits, bmap_mask, bmap_get, bmap_set, bmap_clr}
use native.Mathlib.Nat.{one-le-pow, pow-le-pow_right, le_refl, le_trans}
use Prim.Native.Nat.{suc-le-suc}

-- The words of the array hold `n` bits.
pub record IsBitmap (bitmap : List ℕ) (n : ℕ) : Type 0 where
  pub room : n ≤ length bitmap * word_bits
  pub words : (i : ℕ) → get_or bitmap i 0 < 2 ^ word_bits

-- A bit of the array, as a digit of its word.
abbrev digit_at : List ℕ → ℕ → ℕ
digit_at bitmap index = digit (get_or bitmap (index / word_bits) 0) (index % word_bits)

digit_test : (d p : ℕ) → d ≤ 1 → 1 ≤ p → not (d * p == 0) ≡ (d == 1)
digit_test zero p h l = ground arith
digit_test (suc zero) p h l = ground arith
digit_test (suc (suc d)) p h l = absurd (omega arith)

bmap_get-digit :
    (bitmap : List ℕ) (index : ℕ) → bmap_get bitmap index ≡ (digit_at bitmap index == 1)
unfolding bmap_get
bmap_get-digit bitmap index =
    ap (λ t. not (t == 0)) (bit_and-pow (get_or bitmap (index / word_bits) 0) (index % word_bits))
    ∙ digit_test _ (2 ^ (index % word_bits)) (digit_le _ (index % word_bits))
        (one-le-pow (index % word_bits) 2 (omega arith))

digit-mask_self :
    (i j : ℕ) → i % word_bits ≡ j % word_bits → digit (bmap_mask i) (j % word_bits) ≡ 1
digit-mask_self i j e = rw e (digit-pow_self (j % word_bits))

digit-mask_ne : (i j : ℕ) → i % word_bits ≢ j % word_bits → digit (bmap_mask i) (j % word_bits) ≡ 0
digit-mask_ne i j ne = digit-pow_ne (i % word_bits) (j % word_bits) ne

mask_lt : (i : ℕ) → bmap_mask i < 2 ^ word_bits
mask_lt i =
    omega (arith, pow-le-pow_right {n = 2} (omega arith) {i = i % word_bits} {j = 63} (omega arith))

-- Two bits are the same one if their words and their places agree.
same_bit : (i j : ℕ) → i / word_bits ≡ j / word_bits → i % word_bits ≡ j % word_bits → i ≡ j
same_bit i j b m = omega arith

module _ (bitmap : List ℕ) (n : ℕ) (is : IsBitmap bitmap n) (i j : ℕ) (hi : i < n) where
  block_in : i / word_bits < length bitmap
  block_in = omega (arith, is.room)

  -- A word that is stored at the block of `i` is read back there, and nowhere else.
  stored_self :
      (w : ℕ)
      → i / word_bits ≡ j / word_bits
      → digit_at (set bitmap (i / word_bits) w) j ≡ digit w (j % word_bits)
  stored_self w e =
      ap (λ t. digit t (j % word_bits))
        (ap (λ b. get_or (set bitmap (i / word_bits) w) b 0) (sym e)
          ∙ get_or-set_self bitmap (i / word_bits) w 0 block_in)

  stored_ne :
      (w : ℕ)
      → i / word_bits ≢ j / word_bits
      → digit_at (set bitmap (i / word_bits) w) j ≡ digit_at bitmap j
  stored_ne w ne =
      ap (λ t. digit t (j % word_bits))
        (get_or-set_ne bitmap (i / word_bits) (j / word_bits) w 0 ne)

  abbrev word : ℕ
  word = get_or bitmap (i / word_bits) 0

  same_word : i / word_bits ≡ j / word_bits → digit word (j % word_bits) ≡ digit_at bitmap j
  same_word e = ap (λ b. digit (get_or bitmap b 0) (j % word_bits)) e

  digit-bmap_set : digit_at (bmap_set bitmap i) j ≡ (if i == j then 1 else digit_at bitmap j)
  unfolding bmap_set
  digit-bmap_set = elim (ℕ_discrete (i / word_bits) (j / word_bits)) [
    | no ne ↦ rw (stored_ne (bit_or word (bmap_mask i)) ne) (ground arith)
    | yes e ↦ elim (ℕ_discrete (i % word_bits) (j % word_bits)) [
      | yes m ↦ ground (
        arith,
        stored_self (bit_or word (bmap_mask i)) e,
        digit-bit_or word (bmap_mask i) (j % word_bits),
        digit-mask_self i j m,
        digit_le word (j % word_bits),
        same_bit i j e m,
      )
      | no ne ↦ ground (
        arith,
        stored_self (bit_or word (bmap_mask i)) e,
        digit-bit_or word (bmap_mask i) (j % word_bits),
        digit-mask_ne i j ne,
        same_word e,
      )
    ]
  ]

  digit-bmap_clr : digit_at (bmap_clr bitmap i) j ≡ (if i == j then 0 else digit_at bitmap j)
  unfolding bmap_clr
  digit-bmap_clr = elim (ℕ_discrete (i / word_bits) (j / word_bits)) [
    | no ne ↦ rw (stored_ne (bit_and word (2 ^ word_bits - 1 - bmap_mask i)) ne) (ground arith)
    | yes e ↦ elim (ℕ_discrete (i % word_bits) (j % word_bits)) [
      | yes m ↦ ground (
        arith,
        stored_self (bit_and word (2 ^ word_bits - 1 - bmap_mask i)) e,
        digit-bit_and word (2 ^ word_bits - 1 - bmap_mask i) (j % word_bits),
        digit-complement word_bits (bmap_mask i) (j % word_bits) (mask_lt i) (omega arith),
        digit-mask_self i j m,
        same_bit i j e m,
      )
      | no ne ↦ ground (
        arith,
        stored_self (bit_and word (2 ^ word_bits - 1 - bmap_mask i)) e,
        digit-bit_and word (2 ^ word_bits - 1 - bmap_mask i) (j % word_bits),
        digit-complement word_bits (bmap_mask i) (j % word_bits) (mask_lt i) (omega arith),
        digit-mask_ne i j ne,
        digit_le word (j % word_bits),
        same_word e,
      )
    ]
  ]

  -- BMAP_SET sets its bit and leaves every other bit alone.
  pub bmap_get-bmap_set :
      bmap_get (bmap_set bitmap i) j ≡ (if i == j then true else bmap_get bitmap j)
  bmap_get-bmap_set =
      ground (arith, digit-bmap_set, bmap_get-digit (bmap_set bitmap i) j, bmap_get-digit bitmap j)

  -- BMAP_CLR clears its bit and leaves every other bit alone.
  pub bmap_get-bmap_clr :
      bmap_get (bmap_clr bitmap i) j ≡ (if i == j then false else bmap_get bitmap j)
  bmap_get-bmap_clr =
      ground (arith, digit-bmap_clr, bmap_get-digit (bmap_clr bitmap i) j, bmap_get-digit bitmap j)

set_below :
    (xs : List ℕ) (i v m : ℕ)
    → v < m
    → ((k : ℕ) → get_or xs k 0 < m)
    → (k : ℕ) → get_or (set xs i v) k 0 < m
set_below [] i v m h below k = below k
set_below (x ∷ xs) zero v m h below zero = h
set_below (x ∷ xs) zero v m h below (suc k) = below (suc k)
set_below (x ∷ xs) (suc i) v m h below zero = below 0
set_below (x ∷ xs) (suc i) v m h below (suc k) = set_below xs i v m h (λ j. below (suc j)) k

module _ (bitmap : List ℕ) (n : ℕ) (is : IsBitmap bitmap n) (i : ℕ) where
  pub bmap_set-IsBitmap : IsBitmap (bmap_set bitmap i) n
  unfolding bmap_set
  bmap_set-IsBitmap = record {
    room = rw (length-set bitmap (i / word_bits)) is.room;
    words =
        set_below bitmap (i / word_bits) _ (2 ^ word_bits)
          (bit_or-lt word_bits _ _ (is.words (i / word_bits)) (mask_lt i)) is.words;
  }

  pub bmap_clr-IsBitmap : IsBitmap (bmap_clr bitmap i) n
  unfolding bmap_clr
  bmap_clr-IsBitmap = record {
    room = rw (length-set bitmap (i / word_bits)) is.room;
    words =
        set_below bitmap (i / word_bits) _ (2 ^ word_bits)
          (le_trans
            (suc-le-suc (
              bit_and-le (get_or bitmap (i / word_bits) 0) (get_or bitmap (i / word_bits) 0)
                (2 ^ word_bits - 1 - bmap_mask i) (le_refl _)))
            (is.words (i / word_bits)))
          is.words;
  }

-- In a word of ones every bit is set.
pub bmap_get_full :
    (bitmap : List ℕ) (j : ℕ)
    → get_or bitmap (j / word_bits) 0 ≡ 2 ^ word_bits - 1
    → bmap_get bitmap j ≡ true
bmap_get_full bitmap j full = bmap_get-digit bitmap j ∙ rw (full, ones) refl
  where
    ones : digit (2 ^ word_bits - 1) (j % word_bits) ≡ 1
    ones = omega (
      arith,
      digit-complement word_bits 0 (j % word_bits) (omega arith) (omega arith),
      zero-digit (j % word_bits),
    )
