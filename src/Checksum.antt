-- ===== src/Checksum.antt =====
-- The checksums and the name hash of libexfat/utils.c: each byte is added to the sum turned right
-- by one bit. A buffer is the list of its bytes, an entry a list of 32.
mod Tests
pub mod Rotate
pub mod Detect
pub mod Hash
pub mod Bounds
use nuclear_armageddon.Prelude.{
  ℕ, zero, suc, ◌+◌, ◌*◌, ◌/◌, ◌%◌, ◌^◌, bit_and, bit_or, Bool, true, ◌&&◌, not, List, [], ◌∷◌,
  ◌==◌, if◌then◌else◌, length, take, drop, u16, u32, ◌<<<◌, ◌>>>◌,
}

-- The shifts are done in `int`, and only the return value has 16 bits.
pub add_checksum_byte : ℕ → ℕ → ℕ
add_checksum_byte sum byte = u16 (bit_or (sum <<< 15) (sum >>> 1) + byte)

-- The same in `uint32_t`, which all of the expression has.
pub add_checksum_byte32 : ℕ → ℕ → ℕ
add_checksum_byte32 sum byte = u32 (bit_or (u32 (sum <<< 31)) (sum >>> 1) + byte)

-- The loop over a buffer, at index `i`, that adds the bytes whose index `counts`.
pub sum_from : (ℕ → ℕ → ℕ) → (ℕ → Bool) → ℕ → ℕ → List ℕ → ℕ
sum_from add counts i sum [] = sum
sum_from add counts i sum (byte ∷ bytes) =
    sum_from add counts (i + 1) (if counts i then add sum byte else sum) bytes

-- Skips the checksum field itself.
abbrev pub outside_checksum : ℕ → Bool
outside_checksum i = not (i == 2) && not (i == 3)

-- Skips the fields volume_state and allocated_percent.
abbrev pub outside_volatile : ℕ → Bool
outside_volatile i = not (i == 0x6a) && not (i == 0x6b) && not (i == 0x70)

pub add_checksum_bytes : ℕ → List ℕ → ℕ
add_checksum_bytes sum buffer = sum_from add_checksum_byte (λ i. true) 0 sum buffer

pub exfat_start_checksum : List ℕ → ℕ
exfat_start_checksum entry = sum_from add_checksum_byte outside_checksum 0 0 entry

pub exfat_add_checksum : List ℕ → ℕ → ℕ
exfat_add_checksum entry sum = add_checksum_bytes sum entry

pub add_checksum_entries : ℕ → List (List ℕ) → ℕ
add_checksum_entries checksum [] = checksum
add_checksum_entries checksum (entry ∷ entries) =
    add_checksum_entries (exfat_add_checksum entry checksum) entries

-- The first of the `n` entries, and the others.
pub exfat_calc_checksum : List ℕ → List (List ℕ) → ℕ
exfat_calc_checksum meta1 entries = add_checksum_entries (exfat_start_checksum meta1) entries

pub exfat_vbr_start_checksum : List ℕ → ℕ
exfat_vbr_start_checksum sector = sum_from add_checksum_byte32 outside_volatile 0 0 sector

pub exfat_vbr_add_checksum : List ℕ → ℕ → ℕ
exfat_vbr_add_checksum sector sum = sum_from add_checksum_byte32 (λ i. true) 0 sum sector

-- The hash of a name, by the table of upper case letters.
pub hash_from : (ℕ → ℕ) → ℕ → List ℕ → ℕ
hash_from upcase hash [] = hash
hash_from upcase hash (unit ∷ name) =
    let c = upcase unit in
    hash_from upcase (add_checksum_byte (add_checksum_byte hash (bit_and c 0xff)) (c >>> 8)) name

pub exfat_calc_name_hash : (ℕ → ℕ) → List ℕ → ℕ
exfat_calc_name_hash upcase name = hash_from upcase 0 name
