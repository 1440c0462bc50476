-- ===== src/Tree/Super/Accepts.antt =====
-- `exfat_mount` on the super block of a new volume.
use nuclear_armageddon.Prelude.{
  ℕ, ◌+◌, ◌*◌, ◌/◌, ◌%◌, ◌^◌, ◌≤◌, ◌<◌, ◌≡◌, refl, sym, ap, ◌∙◌, subst, arith, true, not, some, ltb,
}
use nuclear_armageddon.Result.{eio, enomem, ok}
use nuclear_armageddon.Exfat.{
  Device, Stream, IsDisk, IsStream, read_bytes, exfat_pread, sector_size, cluster_size, le32_bytes,
}
use nuclear_armageddon.Mkfs.{on_512, Param, check_size}
use nuclear_armageddon.Mkfs.Write.{init_sb, cluster_count}
use nuclear_armageddon.Mkfs.Create.{mkfs}
use nuclear_armageddon.Mkfs.Region.{Holds, Region, length-init_sb}
use nuclear_armageddon.Mkfs.Room.{total, cluster_sector_start-cluster_count}
use nuclear_armageddon.Mkfs.Formatted.{mkfs-Formatted}
use nuclear_armageddon.Tree.{Tree, ◌>>◌, on_device}
use nuclear_armageddon.Tree.Steps.{value_then}
use nuclear_armageddon.Tree.Super.{
  sb_of, expect, verify_vbr_checksum, read_super_block, check_boot, check_region, check_valid,
  check_rest,
}
use nuclear_armageddon.Tree.Super.Boot.{with_dev, Reads, verify_vbr_checksum-Goes}

spc_fits : (n : ℕ) → n ≤ 16 → not (ltb 25 (9 + n % 256)) ≡ true
spc_fits n h = ground (arith, h)

size_fits : (size clusters : ℕ) → clusters ≤ size → not (ltb size clusters) ≡ true
size_fits size clusters h = ground (arith, h)

bytes_value :
    (v : ℕ)
    → v < 2 ^ 32
    → v % 256 + v / 256 % 256 * 256 + (v / 65536 % 256 + v / 16777216 % 256 * 256) * 65536 ≡ v
bytes_value v h = omega (arith, h)

cluster_count-bound : (p : Param) → cluster_count p < 2 ^ 32
unfolding cluster_count
cluster_count-bound p = omega arith

narrow : (n : ℕ) → n ≤ 16 → n % 256 ≡ n
narrow n h = omega (arith, h)

sector_bytes : (p : Param) → sector_size (sb_of (init_sb (on_512 p))) ≡ 512
unfolding sb_of init_sb le32_bytes
sector_bytes p = refl

-- The heap of the super block, as it is read.
clusters_fit :
    (p : Param) (size : ℕ)
    → p.spc_bits ≤ 16
    → total p ≤ 0xfffffff6
    → check_size (on_512 p) p.volume_size ≡ true
    → p.volume_size ≤ size
    → (sb_of (init_sb (on_512 p))).cluster_count * cluster_size (sb_of (init_sb (on_512 p))) ≤ size
unfolding sb_of init_sb le32_bytes
clusters_fit p size h few fits le =
    let heap = (cluster_sector_start-cluster_count p h few fits).2 in
    omega (
      arith,
      le,
      heap,
      ap (λ n. n * (512 * 2 ^ (p.spc_bits % 256)))
          (bytes_value (cluster_count (on_512 p)) (cluster_count-bound (on_512 p))),
      ap (λ k. cluster_count (on_512 p) * (512 * 2 ^ k)) (narrow p.spc_bits h),
    )

module _ {D : Type 0} ⦃io : Device D⦄ (view : D → ℕ → ℕ) (disk : IsDisk io view)
    (reads : Reads io) where
  -- The super block is read as it stands on the device.
  read_boot :
      (p : Param) (t : Tree D)
      → Region (view t.ef.dev) 0 p
      → on_device (exfat_pread 512 0) t
        ≡ some (ok (some (init_sb (on_512 p))), with_dev t (io.pread 512 0 t.ef.dev).1)
  unfolding Reads Holds
  read_boot p t r =
      let found = reads 512 0 t.ef.dev in
      ap (λ o. some (ok o, with_dev t (io.pread 512 0 t.ef.dev).1))
        (found.1
          ∙ ap some (
              disk.read 512 0 t.ef.dev found.0 found.1
              ∙ ap (λ n. read_bytes (view t.ef.dev) n 0) (sym (length-init_sb p))
              ∙ r.boot))

  -- The tree with the super block, and when the checksum is to be verified.
  abbrev with_boot : Param → Tree D → Tree D
  with_boot p t = record t {
    ef = record (t.ef) { dev = (io.pread 512 0 t.ef.dev).1; sb = sb_of (init_sb (on_512 p)) };
    mounting = record (t.mounting) { boot = init_sb (on_512 p) };
  }

  abbrev loaded_boot : Param → Tree D → Tree D
  loaded_boot p t = record (with_boot p t) { fresh = t.fresh + 1 }

  read_super_block-accepts :
      (p : Param) (t : Tree D)
      → p.spc_bits ≤ 16
      → total p ≤ 0xfffffff6
      → check_size (on_512 p) p.volume_size ≡ true
      → p.volume_size ≤ t.mounting.dev_size
      → t.gives t.fresh ≡ true
      → Region (view t.ef.dev) 0 p
      → (dev : D) × (view dev ≡ view t.ef.dev)
        × (read_super_block t ≡ some (ok tt, with_dev (loaded_boot p t) dev))
  unfolding read_super_block check_boot check_region check_valid check_rest init_sb le32_bytes sb_of
  read_super_block-accepts p t h few fits le given r =
      let g =
        verify_vbr_checksum-Goes view disk reads p (loaded_boot p t) (sector_bytes p)
          (subst (λ v. Region v 0 p) (sym (disk.kept 512 0 t.ef.dev)) r) in
      (
        g.dev,
        g.same ∙ disk.kept 512 0 t.ef.dev,
        value_then (on_device (exfat_pread 512 0)) check_boot t
              (with_dev t (io.pread 512 0 t.ef.dev).1) (some (init_sb (on_512 p))) (read_boot p t r)
            ∙ ap (λ b. (expect b eio >> check_region) (with_boot p t)) (spc_fits p.spc_bits h)
            ∙ ap (λ b. (expect b enomem >> check_valid) (loaded_boot p t)) given
            ∙ value_then verify_vbr_checksum (λ valid. expect valid eio >> check_rest)
                (loaded_boot p t) (with_dev (loaded_boot p t) g.dev) true g.goes
            ∙ ap (λ b. expect b eio (with_dev (loaded_boot p t) g.dev))
                (size_fits t.mounting.dev_size _
                  (clusters_fit p t.mounting.dev_size h few fits le)),
      )

-- On a disk whose calls keep their promises and whose reads do not fail: when `mkfs` succeeds for a
-- volume in sectors of 512 bytes, with clusters of at most 65536 sectors and at most 0xfffffff6 of
-- them, and the device then is as large as the volume and memory is given, all checks of
-- `exfat_mount` up to the root directory pass - the name, the sizes, the checksum of the whole boot
-- region, the version, the number of tables and the size of the heap -, the super block in memory
-- has the bytes that mkfs wrote, and no byte of the device changes.
pub mkfs-read_super_block :
    {D : Type 0} ⦃io : Device D⦄ ⦃stream : Stream D⦄ (view : D → ℕ → ℕ) (place : D → ℕ)
    → IsDisk io view
    → IsStream stream view place
    → Reads io
    → (p : Param) (d : D) (t : Tree D) → mkfs (on_512 p) p.volume_size d ≡ (some tt, t.ef.dev)
    → p.spc_bits ≤ 16
    → total p ≤ 0xfffffff6
    → p.volume_size ≤ t.mounting.dev_size
    → t.gives t.fresh ≡ true
    → (u : Tree D) × (read_super_block t ≡ some (ok tt, u))
      × (u.mounting.boot ≡ init_sb (on_512 p))
      × (view u.ef.dev ≡ view t.ef.dev)
mkfs-read_super_block view place disk is reads p d t run h few le given =
    let f = mkfs-Formatted view place is p p.volume_size d t.ef.dev run in
    let a = read_super_block-accepts view disk reads p t h few f.fits le given f.region in
    (with_dev (loaded_boot view disk reads p t) a.0, a.2, refl, a.1)
