-- ===== src/Tree/Super/Tests.antt =====
-- A small volume that is formatted in memory and then read.
use nuclear_armageddon.Prelude.{
  ℕ, ◌+◌, ◌≡◌, refl, ap, Option, some, none, true, false, List, [], ◌∷◌, length, arith,
}
use nuclear_armageddon.Prelude.Int.{pos}
use nuclear_armageddon.Repair.{repair_no}
use nuclear_armageddon.Result.{ok}
use nuclear_armageddon.Exfat.{Device, Stream, IsDisk, IsStream, read_bytes, write_bytes}
use nuclear_armageddon.Utf.{utf16_length}
use nuclear_armageddon.Mkfs.{
  on_512, check_size, end_from, get_alignment, get_size, vbr_size, fat_size, cbm_size, cbm_position,
  position_from, early_size,
}
use nuclear_armageddon.Mkfs.Write.{
  init_sb, vbr_write, write_sectors, fat_write, fat_write_entry, fat_write_links, fat_write_entries,
  cbm_write, uct_write, rootdir_write, init_label_entry,
}
use nuclear_armageddon.Mkfs.Create.{
  mkfs, erase, erase_from, erase_object, erase_blocks, create, create_from, write_object,
}
use nuclear_armageddon.Mkfs.Tests.{small_volume}
use nuclear_armageddon.Tree.{Tree, mode_rw}
use nuclear_armageddon.Tree.Super.{read_super_block}
use nuclear_armageddon.Tree.Super.Boot.{Reads}
use nuclear_armageddon.Tree.Super.Accepts.{mkfs-read_super_block}

-- The bytes, and the place of the next write.
abbrev Disk : Type 0
Disk = (ℕ → ℕ) × ℕ

instance memory : Device Disk
memory = record {
  pread = λ size offset d. (some (read_bytes d.0 size offset), d);
  pwrite = λ buffer offset d. (true, (write_bytes d.0 buffer offset, d.1));
}

instance tape : Stream Disk
tape = record {
  seek = λ offset d. (true, (d.0, offset));
  write = λ buffer d. (true, (write_bytes d.0 buffer d.1, d.1 + length buffer));
  sync = λ d. (true, d);
}

some_inj : (a b : List ℕ) → some a ≡ some b → b ≡ a
some_inj a b e = cc

memory-IsDisk : IsDisk memory (λ d. d.0)
unfolding memory
memory-IsDisk = record {
  read = λ size offset d bytes e. some_inj (read_bytes d.0 size offset) bytes e;
  kept = λ size offset d. refl;
  written = λ buffer offset d e. refl;
}

tape-IsStream : IsStream tape (λ d. d.0) (λ d. d.1)
unfolding tape
tape-IsStream = record {
  sought = λ offset d e. refl;
  seek_kept = λ offset d. refl;
  sync_kept = λ d. refl;
  stored = λ buffer d e. refl;
  moved = λ buffer d e. refl;
}

memory-Reads : Reads memory
unfolding memory Reads
memory-Reads = λ size offset d. (read_bytes d.0 size offset, refl)

-- A disk of zeros.
abbrev blank : Disk
blank = ((λ o. 0), 0)

abbrev formatted : Option (Unit {0}) × Disk
formatted = mkfs (on_512 small_volume) small_volume.volume_size blank

mkfs_succeeds : formatted.0 ≡ some tt
unfolding memory tape mkfs erase erase_from erase_object erase_blocks create create_from
    write_object vbr_write write_sectors fat_write fat_write_entry fat_write_links fat_write_entries
    cbm_write utf16_length uct_write rootdir_write init_label_entry check_size end_from
    get_alignment get_size vbr_size fat_size cbm_size cbm_position position_from early_size
mkfs_succeeds = refl

abbrev tree : Tree Disk
tree = record {
  ef = record {
    dev = formatted.1;
    sb = record {
      fat_sector_start = 0;
      cluster_sector_start = 0;
      cluster_count = 0;
      sector_bits = 0;
      spc_bits = 0;
    };
    cmap = record { start_cluster = 0; size = 0; chunk = []; chunk_size = 0; dirty = false };
    ro = false;
    noatime = false;
  };
  upcase = none;
  root = 0;
  label = 0 ∷ [];
  repair = repair_no;
  heap = λ p. none;
  fresh = 2;
  gives = λ n. true;
  now = pos 7;
  zone = pos 0;
  input = [];
  errors_fixed = 0;
  mounting = record {
    boot = [];
    mode = mode_rw;
    dev_size = 131072;
    dmask = pos 0;
    fmask = pos 0;
    uid = pos 0;
    gid = pos 0;
  };
}

mkfs-read_super_block_example :
    (u : Tree Disk) × (read_super_block tree ≡ some (ok tt, u))
    × (u.mounting.boot ≡ init_sb (on_512 small_volume))
    × (u.ef.dev.0 ≡ formatted.1.0)
mkfs-read_super_block_example =
    mkfs-read_super_block (λ d. d.0) (λ d. d.1) memory-IsDisk tape-IsStream memory-Reads
      small_volume blank tree (ap (λ o. (o, formatted.1)) mkfs_succeeds) (omega arith) (omega arith)
      (omega arith) refl
