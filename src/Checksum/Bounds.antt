-- ===== src/Checksum/Bounds.antt =====
-- The checksum of a boot region is a number of 32 bits.
use nuclear_armageddon.Prelude.{
  ℕ, ◌^◌, ◌+◌, ◌<◌, Bool, true, false, List, [], ◌∷◌, if◌then◌else◌, arith,
}
use nuclear_armageddon.Checksum.{
  add_checksum_byte32, sum_from, outside_volatile, exfat_vbr_start_checksum, exfat_vbr_add_checksum,
}

added_byte :
    (b : Bool) (sum byte : ℕ)
    → sum < 2 ^ 32
    → (if b then add_checksum_byte32 sum byte else sum) < 2 ^ 32
unfolding add_checksum_byte32
added_byte true sum byte h = omega arith
added_byte false sum byte h = h

sum_from-bound :
    (counts : ℕ → Bool) (i sum : ℕ) (bytes : List ℕ)
    → sum < 2 ^ 32
    → sum_from add_checksum_byte32 counts i sum bytes < 2 ^ 32
unfolding sum_from
sum_from-bound counts i sum [] h = h
sum_from-bound counts i sum (byte ∷ bytes) h =
    sum_from-bound counts (i + 1) _ bytes (added_byte (counts i) sum byte h)

pub exfat_vbr_start_checksum-bound : (sector : List ℕ) → exfat_vbr_start_checksum sector < 2 ^ 32
unfolding exfat_vbr_start_checksum
exfat_vbr_start_checksum-bound sector = sum_from-bound outside_volatile 0 0 sector (omega arith)

pub exfat_vbr_add_checksum-bound :
    (sector : List ℕ) (sum : ℕ) → sum < 2 ^ 32 → exfat_vbr_add_checksum sector sum < 2 ^ 32
unfolding exfat_vbr_add_checksum
exfat_vbr_add_checksum-bound sector sum h = sum_from-bound (λ i. true) 0 sum sector h
