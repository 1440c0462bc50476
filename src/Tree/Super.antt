-- ===== src/Tree/Super.antt =====
-- `exfat_mount` of libexfat/mount.c up to the size of the heap: the checks of the super block, which is
-- in memory as its 512 bytes, and of the boot region; and the repair of the region's checksum in
-- libexfat/repair.c. Memory is asked for where the C function does.
mod Tests
pub mod Boot
pub mod Accepts
use mathlib.Core.Bool.{cond}
use nuclear_armageddon.Prelude.{
  ℕ, zero, suc, ◌+◌, ◌*◌, ◌/◌, Bool, true, false, not, ◌&&◌, ◌||◌, Option, none, some, List, [],
  ◌∷◌, ltb, ◌==◌, drop, take,
}
use nuclear_armageddon.Result.{Errno, eio, enomem}
use nuclear_armageddon.Checksum.{exfat_vbr_start_checksum, exfat_vbr_add_checksum}
use nuclear_armageddon.Exfat.{
  Device, SuperBlock, exfat_pread, exfat_pwrite, le32_value, sector_size, cluster_size,
}
use nuclear_armageddon.Entry.Codec.{byte, le32_at}
use nuclear_armageddon.Mkfs.Write.{oem_name, words}
use nuclear_armageddon.Tree.{
  T, ◌>>=◌, ◌>>◌, pure, fail, asks, change, malloc, on_device, ask_to_fix,
}
use nuclear_armageddon.Tree.Cache.{count_fixed}

-- The members of the super block that the rest of the library reads.
unfoldable pub sb_of : List ℕ → SuperBlock
sb_of boot = record {
  fat_sector_start = le32_at 0x50 boot;
  cluster_sector_start = le32_at 0x58 boot;
  cluster_count = le32_at 0x5c boot;
  sector_bits = byte 0x6c boot;
  spc_bits = byte 0x6d boot;
}

-- `memcmp(a, b, n) == 0`
abbrev pub same_bytes : List ℕ → List ℕ → Bool
same_bytes [] [] = true
same_bytes (x ∷ a) (y ∷ b) = (x == y) && same_bytes a b
same_bytes [] (y ∷ b) = false
same_bytes (x ∷ a) [] = false

module _ {D : Type 0} where
  abbrev pub expect : Bool → Errno → T D (Unit {0})
  expect holds e = cond holds (pure tt) (fail e)

  abbrev pub set_boot : (List ℕ → List ℕ) → T D (Unit {0})
  set_boot f =
      change (λ t. record t { mounting = record (t.mounting) { boot = f t.mounting.boot } })

module _ {D : Type 0} ⦃io : Device D⦄ where
  unfoldable pub fix_invalid_vbr_checksum : ℕ → T D Bool
  fix_invalid_vbr_checksum vbr_checksum = do
    size ← asks (λ t. sector_size t.ef.sb)
    written ← on_device (exfat_pwrite (words (size / 4) vbr_checksum) (11 * size))
    cond written (count_fixed >> pure true) (pure false)

  -- EXFAT_REPAIR(invalid_vbr_checksum)
  abbrev pub repair_vbr : ℕ → T D Bool
  repair_vbr vbr_checksum = do
    agreed ← ask_to_fix
    cond agreed (fix_invalid_vbr_checksum vbr_checksum) (pure false)

  -- The loop over the words of the last sector; the repair fills all of it.
  unfoldable pub check_words : ℕ → List ℕ → ℕ → T D Bool
  check_words zero sector vbr_checksum = pure true
  check_words (suc left) sector vbr_checksum =
      cond (le32_value sector == vbr_checksum) (check_words left (drop 4 sector) vbr_checksum) (do
        fixed ← repair_vbr vbr_checksum
        cond fixed (check_words left (words left vbr_checksum) vbr_checksum) (pure false))

  -- A sector of the boot region; the buffer is given to what comes next.
  abbrev pub with_sector : ℕ → (List ℕ → T D Bool) → T D Bool
  with_sector i f = do
    size ← asks (λ t. sector_size t.ef.sb)
    found ← on_device (exfat_pread size (i * size))
    elim found [ none ↦ pure false | some sector ↦ f sector ]

  -- The loop over the sectors from `i` on, and what is done with the checksum.
  unfoldable pub add_sectors : ℕ → ℕ → ℕ → (ℕ → T D Bool) → T D Bool
  add_sectors zero i vbr_checksum f = f vbr_checksum
  add_sectors (suc left) i vbr_checksum f =
      with_sector i
        (λ sector. add_sectors left (i + 1) (exfat_vbr_add_checksum sector vbr_checksum) f)

  abbrev pub check_sum : ℕ → T D Bool
  check_sum vbr_checksum = with_sector 11 (λ sector. do
    size ← asks (λ t. sector_size t.ef.sb)
    check_words (size / 4) sector vbr_checksum)

  unfoldable pub verify_vbr_checksum : T D Bool
  verify_vbr_checksum =
      with_sector 0 (λ sector. add_sectors 10 1 (exfat_vbr_start_checksum sector) check_sum)

  -- `exfat_mount` from the version of the file system to the comparison with the device's size.
  unfoldable pub check_rest : T D (Unit {0})
  check_rest = do
    boot ← asks (λ t. t.mounting.boot)
    expect (not (not (byte 0x69 boot == 1) || not (byte 0x68 boot == 0))) eio
    expect (byte 0x6e boot == 1) eio
    size ← asks (λ t. t.mounting.dev_size)
    clusters ← asks (λ t. t.ef.sb.cluster_count * cluster_size t.ef.sb)
    expect (not (ltb size clusters)) eio

  -- From the checksum on.
  unfoldable pub check_valid : T D (Unit {0})
  check_valid = do valid ← verify_vbr_checksum; expect valid eio; check_rest

  -- From the memory for a cluster on.
  unfoldable pub check_region : T D (Unit {0})
  check_region = do given ← malloc; expect given enomem; check_valid

  -- From the name on, with what was read of the super block.
  unfoldable pub check_boot : Option (List ℕ) → T D (Unit {0})
  check_boot none = fail eio
  check_boot (some boot) = do
    set_boot (λ b. boot)
    change (λ t. record t { ef = record (t.ef) { sb = sb_of boot } })
    expect (same_bytes (take 8 (drop 3 boot)) oem_name) eio
    expect (not (ltb (byte 0x6c boot) 9)) eio
    expect (not (ltb 25 (byte 0x6c boot + byte 0x6d boot))) eio
    check_region

  -- From the read of the super block on.
  unfoldable pub read_super_block : T D (Unit {0})
  read_super_block = do found ← on_device (exfat_pread 512 0); check_boot found
