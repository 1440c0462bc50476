-- ===== src/Mkfs/Create.antt =====
-- `mkfs` of mkfs/mkexfat.c: the check of the size, erasing, and the objects one by one.
use nuclear_armageddon.Prelude.{ℕ, zero, suc, ◌+◌, ◌-◌, ◌*◌, min, List, [], ◌∷◌, replicate}
use nuclear_armageddon.Exfat.{Stream}
use nuclear_armageddon.Bitmap.{div_round_up}
use nuclear_armageddon.Mkfs.{
  W, ◌>>◌, pure, require, attempt, Param, FsObject, vbr, fat, cbm, uct, rootdir, round_up, objects,
  get_alignment, get_size, check_size,
}
use nuclear_armageddon.Mkfs.Write.{
  exfat_write, vbr_write, fat_write, cbm_write, uct_write, rootdir_write,
}

abbrev pub erase_block_size : ℕ
erase_block_size = 1024 * 1024

module _ {D : Type 0} ⦃io : Stream D⦄ where
  abbrev pub exfat_seek : ℕ → W D (Unit {0})
  exfat_seek offset = attempt (io.seek offset)

  -- The loop with `left` blocks to go, of which `size` bytes are to be erased.
  unfoldable pub erase_blocks : ℕ → ℕ → ℕ → W D (Unit {0})
  erase_blocks zero block_size size = pure tt
  erase_blocks (suc left) block_size size = do
    exfat_write (replicate (min size block_size) 0)
    erase_blocks left block_size (size - block_size)

  unfoldable pub erase_object : ℕ → ℕ → ℕ → W D (Unit {0})
  erase_object block_size start size = do
    exfat_seek start
    erase_blocks (div_round_up size block_size) block_size size

  -- The loop over the objects from a position on.
  unfoldable pub erase_from : Param → List FsObject → ℕ → W D (Unit {0})
  erase_from p [] position = pure tt
  erase_from p (o ∷ rest) position = do
    let here = round_up position (get_alignment p o)
    erase_object erase_block_size here (get_size p o)
    erase_from p rest (here + get_size p o)

  -- Memory for the block is taken to be there.
  unfoldable pub erase : Param → W D (Unit {0})
  erase p = erase_from p objects 0

  unfoldable pub write_object : Param → FsObject → W D (Unit {0})
  write_object p vbr = vbr_write p
  write_object p fat = fat_write p
  write_object p cbm = cbm_write p
  write_object p uct = uct_write p
  write_object p rootdir = rootdir_write p

  unfoldable pub create_from : Param → List FsObject → ℕ → W D (Unit {0})
  create_from p [] position = pure tt
  create_from p (o ∷ rest) position = do
    let here = round_up position (get_alignment p o)
    exfat_seek here
    write_object p o
    create_from p rest (here + get_size p o)

  unfoldable pub create : Param → W D (Unit {0})
  create p = create_from p objects 0

  unfoldable pub mkfs : Param → ℕ → W D (Unit {0})
  mkfs p volume_size = do require (check_size p volume_size); erase p; create p; attempt io.sync
