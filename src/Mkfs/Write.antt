-- ===== src/Mkfs/Write.antt =====
-- What is written of each object of a new volume: vbr.c, fat.c, cbm.c, uct.c and rootdir.c of mkfs.
use mathlib.Core.Bool.{cond}
use nuclear_armageddon.Prelude.{
  ℕ, zero, suc, ◌+◌, ◌-◌, ◌*◌, ◌/◌, Option, none, some, List, [], ◌∷◌, ◌++◌, ◌==◌, if◌then◌else◌,
  length, take, replicate, u8, u32, sub32, ◌<<<◌, ◌>>>◌,
}
use nuclear_armageddon.Bitmap.{div_round_up, bmap_set, first_data_cluster, cluster_end}
use nuclear_armageddon.Exfat.{Stream, le32_bytes}
use nuclear_armageddon.Utf.{utf16_length}
use nuclear_armageddon.Checksum.{
  add_checksum_byte32, exfat_vbr_start_checksum, exfat_vbr_add_checksum,
}
use nuclear_armageddon.Cluster.Truncate.{bmap_size, chunk_bytes}
use nuclear_armageddon.Entry.{ename_max}
use nuclear_armageddon.Entry.Codec.{le16_bytes, le64_bytes, unit_bytes, padded}
use nuclear_armageddon.Mkfs.{
  W, ◌>>=◌, ◌>>◌, pure, stop, attempt, Param, get_sector_size, get_cluster_size, round_up, or_zero,
  fat, cbm, uct, rootdir, get_alignment, get_size, get_position,
}

-- EXFAT in capitals and three spaces.
abbrev pub oem_name : List ℕ
oem_name = 69 ∷ 88 ∷ 70 ∷ 65 ∷ 84 ∷ 32 ∷ 32 ∷ 32 ∷ []

abbrev pub clusters_max : Param → ℕ
clusters_max p = u32 (p.volume_size / get_cluster_size p)

unfoldable pub fat_sectors : Param → ℕ
fat_sectors p = u32 (div_round_up (clusters_max p * 4) (get_sector_size p))

unfoldable pub fat_sector_start : Param → ℕ
fat_sector_start p = u32 (get_alignment p fat / get_sector_size p)

-- ROUND_UP on `uint32_t`.
abbrev pub round_up32 : ℕ → ℕ → ℕ
round_up32 x d = u32 (u32 (u32 x + d - 1) / d * d)

unfoldable pub fat_sector_count : Param → ℕ
fat_sector_count p =
    sub32 (round_up32 (fat_sector_start p + fat_sectors p) (1 <<< p.spc_bits)) (fat_sector_start p)

unfoldable pub cluster_sector_start : Param → ℕ
cluster_sector_start p = u32 (or_zero (get_position p cbm) / get_sector_size p)

unfoldable pub cluster_count : Param → ℕ
cluster_count p =
    sub32 (clusters_max p) (u32 (fat_sector_start p + fat_sector_count p) >>> p.spc_bits)

-- The cluster at which an object of the clusters heap starts.
abbrev pub cluster_of : Param → Option ℕ → ℕ
cluster_of p position =
    u32
      ((or_zero position - or_zero (get_position p cbm)) / get_cluster_size p + first_data_cluster)

-- The bytes of the super block.
unfoldable pub init_sb : Param → List ℕ
init_sb p =
    (0xeb ∷ 0x76 ∷ 0x90 ∷ oem_name)
    ++ (replicate 53 0
        ++ (le64_bytes p.first_sector
            ++ (le64_bytes (p.volume_size / get_sector_size p)
                ++ (le32_bytes (fat_sector_start p)
                    ++ (le32_bytes (fat_sector_count p)
                        ++ (le32_bytes (cluster_sector_start p)
                            ++ (le32_bytes (cluster_count p)
                                ++ (le32_bytes (cluster_of p (get_position p rootdir))
                                    ++ (le32_bytes p.volume_serial
                                        ++ ((0 ∷ 1 ∷ [])
                                            ++ (le16_bytes 0
                                                ++ ((u8 p.sector_bits
                                                      ∷ u8 p.spc_bits
                                                      ∷ 1
                                                      ∷ 0x80
                                                      ∷ 0
                                                      ∷ [])
                                                    ++ (replicate 397 0
                                                        ++ le16_bytes 0xaa55)))))))))))))

-- A sector of copies of one number.
unfoldable pub words : ℕ → ℕ → List ℕ
words zero w = []
words (suc n) w = le32_bytes w ++ words n w

-- The sector with the boot signature in its last number.
abbrev pub signature_sector : Param → List ℕ
signature_sector p = words (get_sector_size p / 4 - 1) 0 ++ le32_bytes 0xaa550000

abbrev pub empty_sector : Param → List ℕ
empty_sector p = words (get_sector_size p / 4) 0

module _ {D : Type 0} ⦃io : Stream D⦄ where
  abbrev pub exfat_write : List ℕ → W D (Unit {0})
  exfat_write buffer = attempt (io.write buffer)

  -- A loop that writes a sector and adds it to the checksum.
  unfoldable pub write_sectors : ℕ → List ℕ → ℕ → W D ℕ
  write_sectors zero sector checksum = pure checksum
  write_sectors (suc left) sector checksum = do
    exfat_write sector
    write_sectors left sector (exfat_vbr_add_checksum sector checksum)

  unfoldable pub vbr_write : Param → W D (Unit {0})
  vbr_write p = do
    exfat_write (init_sb p)
    checksum ← write_sectors 8 (signature_sector p) (exfat_vbr_start_checksum (init_sb p))
    sum ← write_sectors 2 (empty_sector p) checksum
    exfat_write (words (get_sector_size p / 4) sum)

  -- The next cluster; 0, for which the callers stop, only if the number wraps.
  unfoldable pub fat_write_entry : ℕ → ℕ → W D ℕ
  fat_write_entry cluster value = do
    exfat_write (le32_bytes value)
    cond (u32 (cluster + 1) == 0) stop (pure (u32 (cluster + 1)))

  -- The loop with `left` entries before the last one.
  unfoldable pub fat_write_links : ℕ → ℕ → W D ℕ
  fat_write_links zero cluster = pure cluster
  fat_write_links (suc left) cluster = do
    next ← fat_write_entry cluster (u32 (cluster + 1))
    fat_write_links left next

  -- `end - 1` is computed in 32 bits.
  unfoldable pub fat_write_entries : Param → ℕ → ℕ → W D ℕ
  fat_write_entries p cluster length = do
    let end = u32 (cluster + div_round_up length (get_cluster_size p))
    last ← fat_write_links (sub32 end 1 - cluster) cluster
    fat_write_entry last cluster_end

  unfoldable pub fat_write : Param → W D (Unit {0})
  fat_write p = do
    media ← fat_write_entry 0 0xfffffff8
    first ← fat_write_entry media 0xffffffff
    after_cbm ← fat_write_entries p first (get_size p cbm)
    after_uct ← fat_write_entries p after_cbm (get_size p uct)
    end ← fat_write_entries p after_uct (get_size p rootdir)
    pure tt

-- The loop over the bits that are allocated, from `i` on.
unfoldable pub allocated_bits : ℕ → ℕ → List ℕ → List ℕ
allocated_bits zero i bitmap = bitmap
allocated_bits (suc left) i bitmap = allocated_bits left (i + 1) (bmap_set bitmap i)

unfoldable pub allocated_clusters : Param → ℕ
allocated_clusters p = u32 (
    div_round_up (get_size p cbm) (get_cluster_size p)
    + div_round_up (get_size p uct) (get_cluster_size p)
    + div_round_up (get_size p rootdir) (get_cluster_size p))

-- The bitmap's bytes, of which the first ones are written.
unfoldable pub initial_bitmap : Param → List ℕ
initial_bitmap p =
    let bitmap_size = round_up (allocated_clusters p) 8 in
    take (bitmap_size / 8) (
      chunk_bytes
        (allocated_bits (allocated_clusters p) 0 (replicate (bmap_size bitmap_size / 8) 0)))

-- The label's units are those of the array of 16.
unfoldable pub init_label_entry : List ℕ → Option (List ℕ)
init_label_entry label = elim (utf16_length label) [
  | none ↦ none
  | some n ↦
      some (
        if n == 0 then 0x03 ∷ replicate 31 0 else 0x83 ∷ u8 n ∷ unit_bytes (padded ename_max label))
]

unfoldable pub init_bitmap_entry : Param → List ℕ
init_bitmap_entry p =
    0x81 ∷ (replicate 19 0 ++ (le32_bytes first_data_cluster ++ le64_bytes (get_size p cbm)))

-- The loop over the table.
unfoldable pub table_checksum : ℕ → List ℕ → ℕ
table_checksum sum [] = sum
table_checksum sum (b ∷ table) = table_checksum (add_checksum_byte32 sum b) table

unfoldable pub init_upcase_entry : Param → List ℕ
init_upcase_entry p =
    0x82
    ∷ (replicate 3 0
        ++ (le32_bytes (table_checksum 0 p.upcase_table)
            ++ (replicate 12 0
                ++ (le32_bytes (cluster_of p (get_position p uct))
                    ++ le64_bytes (length p.upcase_table)))))

module _ {D : Type 0} ⦃io : Stream D⦄ where
  unfoldable pub cbm_write : Param → W D (Unit {0})
  cbm_write p = exfat_write (initial_bitmap p)

  unfoldable pub uct_write : Param → W D (Unit {0})
  uct_write p = exfat_write p.upcase_table

  -- `none` where the label has no terminator and C reads past it.
  abbrev pub write_some : Option (List ℕ) → W D (Unit {0})
  write_some none = stop
  write_some (some entry) = exfat_write entry

  unfoldable pub rootdir_write : Param → W D (Unit {0})
  rootdir_write p = do
    write_some (init_label_entry p.volume_label)
    exfat_write (init_bitmap_entry p)
    exfat_write (init_upcase_entry p)
