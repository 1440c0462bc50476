-- ===== src/Prelude/Bits.antt =====
-- The bit operations of C, digit by digit and as arithmetic.
use Prim.Native.Nat.{
  ℕ, zero, suc, ◌+◌, ◌-◌, ◌*◌, ◌/◌, ◌%◌, ◌^◌, ◌≤◌, ◌<◌, min, max, bit_and, bit_or, bitwise, digits,
  bit_and-bitwise, bit_or-bitwise,
}
use mathlib.Core.Path.{◌≡◌, refl, ap, ◌∙◌}
use mathlib.Core.Logic.{◌≢◌}
use native.Mathlib.Nat.{pow-suc, one-le-pow, le_refl, div-div-eq-div-mul}
use native.Mathlib.Omega.{arith}

-- `bitwise` recurs with a bound on the number of digits; any bound that is large enough will do.
module _ (z : ℕ → ℕ) (f : ℕ → ℕ → ℕ) where
  digits_bound : (n m a b : ℕ) → a ≤ n → a ≤ m → digits z f n a b ≡ digits z f m a b
  digits_bound zero zero a b h k = refl
  digits_bound zero (suc m) zero b h k = refl
  digits_bound (suc n) zero zero b h k = refl
  digits_bound (suc n) (suc m) zero b h k = refl
  digits_bound zero (suc m) (suc a) b h k = absurd (omega arith)
  digits_bound (suc n) zero (suc a) b h k = absurd (omega arith)
  digits_bound (suc n) (suc m) (suc a) b h k =
      omega (arith, digits_bound n m (suc a / 2) (b / 2) (omega arith) (omega arith))

  bitwise_digit :
      (a b : ℕ)
      → bitwise z f (suc a) b ≡ bitwise z f (suc a / 2) (b / 2) * 2 + f (suc a % 2) (b % 2)
  bitwise_digit a b =
      omega (arith, digits_bound a (suc a / 2) (suc a / 2) (b / 2) (omega arith) (le_refl _))

-- One digit at a time.
pub bit_or_digit : (a b : ℕ) → bit_or a b ≡ bit_or (a / 2) (b / 2) * 2 + max (a % 2) (b % 2)
bit_or_digit zero b = simp bit_or-bitwise (omega arith)
bit_or_digit (suc a) b = simp bit_or-bitwise (bitwise_digit (λ y. y) max a b)

pub bit_and_digit : (a b : ℕ) → bit_and a b ≡ bit_and (a / 2) (b / 2) * 2 + min (a % 2) (b % 2)
bit_and_digit zero b = simp bit_and-bitwise (omega arith)
bit_and_digit (suc a) b = simp bit_and-bitwise (bitwise_digit (λ y. 0) min a b)

-- The binary digit of `a` at position `j`, from 0.
pub digit : ℕ → ℕ → ℕ
digit a zero = a % 2
digit a (suc j) = digit (a / 2) j

pub digit_le : (a j : ℕ) → digit a j ≤ 1
unfolding digit
digit_le a zero = omega arith
digit_le a (suc j) = digit_le (a / 2) j

pub digit-bit_or : (a b j : ℕ) → digit (bit_or a b) j ≡ max (digit a j) (digit b j)
unfolding digit
digit-bit_or a b zero = omega (arith, bit_or_digit a b)
digit-bit_or a b (suc j) = rw half (digit-bit_or (a / 2) (b / 2) j)
  where
    half : bit_or a b / 2 ≡ bit_or (a / 2) (b / 2)
    half = omega (arith, bit_or_digit a b)

pub digit-bit_and : (a b j : ℕ) → digit (bit_and a b) j ≡ min (digit a j) (digit b j)
unfolding digit
digit-bit_and a b zero = omega (arith, bit_and_digit a b)
digit-bit_and a b (suc j) = rw half (digit-bit_and (a / 2) (b / 2) j)
  where
    half : bit_and a b / 2 ≡ bit_and (a / 2) (b / 2)
    half = omega (arith, bit_and_digit a b)

pub zero-digit : (j : ℕ) → digit 0 j ≡ 0
unfolding digit
zero-digit zero = refl
zero-digit (suc j) = zero-digit j

one-digit : (j : ℕ) → digit 1 (suc j) ≡ 0
unfolding digit
one-digit j = zero-digit j

pow_half : (k : ℕ) → 2 ^ suc k / 2 ≡ 2 ^ k
pow_half k = omega (arith, pow-suc 2 k)

pub digit-pow_self : (k : ℕ) → digit (2 ^ k) k ≡ 1
unfolding digit
digit-pow_self zero = refl
digit-pow_self (suc k) = rw pow_half (digit-pow_self k)

pub digit-pow_ne : (k j : ℕ) → k ≢ j → digit (2 ^ k) j ≡ 0
unfolding digit
digit-pow_ne zero zero h = absurd (h refl)
digit-pow_ne zero (suc j) h = zero-digit j
digit-pow_ne (suc k) zero h = omega (arith, pow-suc 2 k)
digit-pow_ne (suc k) (suc j) h = rw pow_half (digit-pow_ne k j (λ e. h (ap suc e)))

-- The bits of `~a` in a word of `w` bits.
pub digit-complement : (w a j : ℕ) → a < 2 ^ w → j < w → digit (2 ^ w - 1 - a) j ≡ 1 - digit a j
unfolding digit
digit-complement zero a j h k = absurd (omega arith)
digit-complement (suc w) a zero h k = omega (arith, pow-suc 2 w)
digit-complement (suc w) a (suc j) h k = rw half (digit-complement w (a / 2) j fits (omega arith))
  where
    fits : a / 2 < 2 ^ w
    fits = omega (arith, pow-suc 2 w)

    half : (2 ^ suc w - 1 - a) / 2 ≡ 2 ^ w - 1 - a / 2
    half = omega (arith, pow-suc 2 w)

bit_and-zero : (n a : ℕ) → a ≤ n → bit_and a 0 ≡ 0
bit_and-zero n zero h = refl
bit_and-zero zero (suc a) h = absurd (omega arith)
bit_and-zero (suc n) (suc a) h =
    omega (arith, bit_and_digit (suc a) 0, bit_and-zero n (suc a / 2) (omega arith))

bit_or-zero : (n a : ℕ) → a ≤ n → bit_or a 0 ≡ a
bit_or-zero n zero h = refl
bit_or-zero zero (suc a) h = absurd (omega arith)
bit_or-zero (suc n) (suc a) h =
    omega (arith, bit_or_digit (suc a) 0, bit_or-zero n (suc a / 2) (omega arith))

-- `a & (1 <<< k)` is the digit, in its place.
pub bit_and-pow : (a k : ℕ) → bit_and a (2 ^ k) ≡ digit a k * 2 ^ k
unfolding digit
bit_and-pow a zero = omega (arith, bit_and_digit a 1, bit_and-zero (a / 2) (a / 2) (le_refl _))
bit_and-pow a (suc k) = ground (
  arith,
  bit_and_digit a (2 ^ suc k),
  pow-suc 2 k,
  pow_half k,
  bit_and-pow (a / 2) k,
  ap (λ (t : ℕ). digit (a / 2) k * t) (pow-suc 2 k),
)

double_place : (q k : ℕ) → q * 2 ^ suc k ≡ 2 * (q * 2 ^ k)
double_place q k = omega (arith, ap (λ (t : ℕ). q * t) (pow-suc 2 k))

bit_and-low : (k q r : ℕ) → r < 2 ^ k → bit_and (q * 2 ^ k + r) (2 ^ k - 1) ≡ r
bit_and-low zero q r h = rw (bit_and-zero (q * 1 + r) (q * 1 + r) (le_refl _)) (omega arith)
bit_and-low (suc k) q r h = ground (
  arith,
  bit_and_digit (q * 2 ^ suc k + r) (2 ^ suc k - 1),
  double_place q k,
  pow-suc 2 k,
  one-le-pow k 2,
  bit_and-low k q (r / 2) (omega (arith, pow-suc 2 k)),
)

-- `a & ((1 <<< k) - 1)` is the remainder.
pub bit_and-mask : (a k : ℕ) → bit_and a (2 ^ k - 1) ≡ a % 2 ^ k
bit_and-mask a k = ground (arith, one-le-pow k 2, bit_and-low k (a / 2 ^ k) (a % 2 ^ k))

-- `(q <<< k) | r` is a sum where `r` fits below.
pub bit_or-fields : (q k r : ℕ) → r < 2 ^ k → bit_or (q * 2 ^ k) r ≡ q * 2 ^ k + r
bit_or-fields q zero r h = ground (arith, bit_or-zero q q (le_refl _))
bit_or-fields q (suc k) r h = ground (
  arith,
  bit_or_digit (q * 2 ^ suc k) r,
  double_place q k,
  bit_or-fields q k (r / 2) (omega (arith, pow-suc 2 k)),
)

-- A mask whose `k` lowest bits are clear reads the bits above.
pub bit_and-shift : (k a m : ℕ) → bit_and a (m * 2 ^ k) ≡ bit_and (a / 2 ^ k) m * 2 ^ k
bit_and-shift zero a m = ground arith
bit_and-shift (suc k) a m = ground (
  arith,
  bit_and_digit a (m * 2 ^ suc k),
  double_place m k,
  double_place (bit_and (a / 2 ^ suc k) m) k,
  pow-suc 2 k,
  bit_and-shift k (a / 2) m,
  same,
)
  where
    same : a / 2 / 2 ^ k ≡ a / 2 ^ suc k
    same = div-div-eq-div-mul a 2 (2 ^ k) ∙ ap (λ (t : ℕ). a / t) (omega (arith, pow-suc 2 k))

-- A mask of `m` ones above `k` zeros.
pub bit_and-high : (k m a : ℕ) → bit_and a ((2 ^ m - 1) * 2 ^ k) ≡ a / 2 ^ k % 2 ^ m * 2 ^ k
bit_and-high k m a =
    bit_and-shift k a (2 ^ m - 1) ∙ ap (λ (t : ℕ). t * 2 ^ k) (bit_and-mask (a / 2 ^ k) m)

zero-bit_or : (n a : ℕ) → a ≤ n → bit_or 0 a ≡ a
zero-bit_or n zero h = refl
zero-bit_or zero (suc a) h = absurd (omega arith)
zero-bit_or (suc n) (suc a) h =
    omega (arith, bit_or_digit 0 (suc a), zero-bit_or n (suc a / 2) (omega arith))

-- `r | (q <<< k)`, the low field first.
pub bit_or-low_fields : (q k r : ℕ) → r < 2 ^ k → bit_or r (q * 2 ^ k) ≡ q * 2 ^ k + r
bit_or-low_fields q zero zero h = ground (arith, zero-bit_or q q (le_refl _))
bit_or-low_fields q zero (suc r) h = absurd (omega arith)
bit_or-low_fields q (suc k) r h = ground (
  arith,
  bit_or_digit r (q * 2 ^ suc k),
  double_place q k,
  bit_or-low_fields q k (r / 2) (omega (arith, pow-suc 2 k)),
)

pub bit_or-lt : (k a b : ℕ) → a < 2 ^ k → b < 2 ^ k → bit_or a b < 2 ^ k
bit_or-lt zero a b h l = rw (a_zero, b_zero) (omega arith)
  where
    a_zero : a ≡ 0
    a_zero = omega arith

    b_zero : b ≡ 0
    b_zero = omega arith
bit_or-lt (suc k) a b h l = omega (
  arith,
  bit_or_digit a b,
  pow-suc 2 k,
  bit_or-lt k (a / 2) (b / 2) (omega (arith, pow-suc 2 k)) (omega (arith, pow-suc 2 k)),
)

pub bit_and-le : (n a b : ℕ) → a ≤ n → bit_and a b ≤ a
bit_and-le n zero b h = omega (arith, bit_and-bitwise 0 b)
bit_and-le zero (suc a) b h = absurd (omega arith)
bit_and-le (suc n) (suc a) b h =
    omega (arith, bit_and_digit (suc a) b, bit_and-le n (suc a / 2) (b / 2) (omega arith))
