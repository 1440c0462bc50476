-- ===== src/Checksum/Tests.antt =====
-- Checksums of short buffers.
use nuclear_armageddon.Prelude.{ℕ, ◌≡◌, ◌≢◌, refl, List, [], ◌∷◌, set, arith}
use nuclear_armageddon.Checksum.{
  exfat_calc_checksum, exfat_start_checksum, exfat_vbr_start_checksum, sum_from, add_checksum_byte,
}
use nuclear_armageddon.Checksum.Detect.{
  store_checksum, exfat_calc_checksum_detects, exfat_calc_checksum-store_checksum,
  exfat_vbr_start_checksum_detects,
}

abbrev meta1 : List ℕ
meta1 = 0x85 ∷ 2 ∷ 0x12 ∷ 0x34 ∷ 0x20 ∷ []

abbrev others : List (List ℕ)
others = (0xc0 ∷ 1 ∷ []) ∷ (0xc1 ∷ 0x61 ∷ []) ∷ []

exfat_start_checksum-meta1 : exfat_start_checksum meta1 ≡ 0x4042
unfolding exfat_start_checksum sum_from add_checksum_byte
exfat_start_checksum-meta1 = refl

exfat_calc_checksum_detects_example :
    exfat_calc_checksum (set meta1 4 0x10) others ≢ exfat_calc_checksum meta1 others
exfat_calc_checksum_detects_example =
    exfat_calc_checksum_detects meta1 others 4 0x10 (omega arith) refl (omega arith) (omega arith)
      (omega arith)

exfat_calc_checksum-store_checksum_example :
    exfat_calc_checksum (store_checksum meta1 0x8182) others ≡ exfat_calc_checksum meta1 others
exfat_calc_checksum-store_checksum_example = exfat_calc_checksum-store_checksum meta1 others 0x8182

exfat_vbr_start_checksum_detects_example :
    exfat_vbr_start_checksum (set (0xeb ∷ 0x76 ∷ []) 1 0x77)
    ≢ exfat_vbr_start_checksum (0xeb ∷ 0x76 ∷ [])
exfat_vbr_start_checksum_detects_example =
    exfat_vbr_start_checksum_detects (0xeb ∷ 0x76 ∷ []) 1 0x77 (omega arith) refl (omega arith)
      (omega arith) (omega arith)
