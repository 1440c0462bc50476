-- ===== src/Checksum/Rotate.antt =====
-- One step of the sums of libexfat/utils.c: a rotation, which loses nothing, and an addition.
use nuclear_armageddon.Prelude.{ℕ, ◌+◌, ◌*◌, ◌/◌, ◌%◌, ◌^◌, ◌<◌, ◌≡◌, arith, u32, ◌<<<◌}
use nuclear_armageddon.Prelude.Bits.{bit_or-fields}
use nuclear_armageddon.Checksum.{add_checksum_byte, add_checksum_byte32}

-- A sum of a given modulus that takes bytes: it stays below the modulus, and neither two sums with
-- one byte nor one sum with two bytes come together.
pub record IsSum (add : ℕ → ℕ → ℕ) (modulus : ℕ) : Type 0 where
  pub below : (sum byte : ℕ) → add sum byte < modulus
  pub sum_inj : (s t byte : ℕ) → s < modulus → t < modulus → add s byte ≡ add t byte → s ≡ t
  pub byte_inj : (sum a b : ℕ) → sum < modulus → a < 256 → b < 256 → add sum a ≡ add sum b → a ≡ b

pub add_checksum_byte-eq :
    (sum byte : ℕ)
    → sum < 2 ^ 16
    → add_checksum_byte sum byte ≡ (sum % 2 * 2 ^ 15 + sum / 2 + byte) % 2 ^ 16
unfolding add_checksum_byte
add_checksum_byte-eq sum byte h = ground (arith, bit_or-fields sum 15 (sum / 2))

pub add_checksum_byte32-eq :
    (sum byte : ℕ)
    → sum < 2 ^ 32
    → add_checksum_byte32 sum byte ≡ (sum % 2 * 2 ^ 31 + sum / 2 + byte) % 2 ^ 32
unfolding add_checksum_byte32
add_checksum_byte32-eq sum byte h =
    rw shifted (ground (arith, bit_or-fields (sum % 2) 31 (sum / 2)))
  where
    shifted : u32 (sum <<< 31) ≡ (sum % 2) <<< 31
    shifted = omega arith

pub add_checksum_byte-IsSum : IsSum add_checksum_byte (2 ^ 16)
add_checksum_byte-IsSum = record {
  below = λ sum byte. unfold add_checksum_byte in omega arith;
  sum_inj = λ s t byte hs ht e.
      omega (arith, e, add_checksum_byte-eq s byte hs, add_checksum_byte-eq t byte ht);
  byte_inj = λ sum a b hs ha hb e.
      omega (arith, e, add_checksum_byte-eq sum a hs, add_checksum_byte-eq sum b hs);
}

pub add_checksum_byte32-IsSum : IsSum add_checksum_byte32 (2 ^ 32)
add_checksum_byte32-IsSum = record {
  below = λ sum byte. unfold add_checksum_byte32 in omega arith;
  sum_inj = λ s t byte hs ht e.
      omega (arith, e, add_checksum_byte32-eq s byte hs, add_checksum_byte32-eq t byte ht);
  byte_inj = λ sum a b hs ha hb e.
      omega (arith, e, add_checksum_byte32-eq sum a hs, add_checksum_byte32-eq sum b hs);
}
