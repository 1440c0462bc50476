-- ===== src/Dir/Tests.antt =====
-- A directory of one cluster on a disk that fails each write, with one child.
use nuclear_armageddon.Prelude.{
  ℕ, zero, suc, inl, ◌≡◌, ◌<◌, ◌^◌, refl, get_or, true, false, some, [], ◌∷◌, arith,
}
use nuclear_armageddon.Prelude.Int.{pos}
use nuclear_armageddon.Exfat.{SuperBlock, Device, Cmap, read_bytes}
use nuclear_armageddon.Cluster.{State}
use nuclear_armageddon.Cluster.Allocate.{IsCmap}
use nuclear_armageddon.Cluster.Keeps.{Kept}
use nuclear_armageddon.Result.{ok}
use nuclear_armageddon.Dir.{Child, shrink_directory}
use nuclear_armageddon.Dir.Shrunk.{shrink_directory_later}
use nuclear_armageddon.Dir.Slot.{find_slot}
use nuclear_armageddon.Dir.Keeps.{find_slot-Kept}

instance failing : Device (ℕ → ℕ)
failing = record {
  pread = λ size offset d. (some (read_bytes d size offset), d);
  pwrite = λ buffer offset d. (false, d);
}

abbrev sb : SuperBlock
sb = record {
  fat_sector_start = 128;
  cluster_sector_start = 256;
  cluster_count = 6;
  sector_bits = 9;
  spc_bits = 0;
}

abbrev cmap : Cmap
cmap = record { start_cluster = 2; size = 6; chunk = 0x0d ∷ []; chunk_size = 6; dirty = false }

abbrev directory : State (ℕ → ℕ)
directory = record {
  ef = record { dev = λ o. 0; sb = sb; cmap = cmap; ro = false; noatime = false };
  node = record {
    has_parent = true;
    references = 1;
    fptr_index = 0;
    fptr_cluster = 4;
    start_cluster = 4;
    is_contiguous = true;
    is_dirty = false;
    size = 512;
    mtime = pos 0;
    atime = pos 0;
    attrib = 0x10;
  };
}

chunk_words : (i : ℕ) → get_or cmap.chunk i 0 < 2 ^ 64
chunk_words zero = omega arith
chunk_words (suc i) = omega arith

cmap-IsCmap : IsCmap cmap
cmap-IsCmap = record {
  whole = refl;
  small = omega arith;
  bits = record { room = omega arith; words = chunk_words };
}

-- The directory holds 16 entries, and 20 do not fit.
find_slot-Kept_example : Kept sb (
    find_slot (pos 7) true true (record { entry_offset = 32; continuations = 2 } ∷ []) 20 directory)
find_slot-Kept_example =
    find_slot-Kept (pos 7) true true (record { entry_offset = 32; continuations = 2 } ∷ []) 20
      directory cmap-IsCmap

-- A directory of two clusters.
abbrev roomy : State (ℕ → ℕ)
roomy = record directory { node = record (directory.node) { size = 1024 } }

abbrev child : Child
child = record { entry_offset = 32; name = 97 ∷ 0 ∷ [] }

shrink_directory_later_example : shrink_directory (pos 7) (child ∷ []) 0 roomy ≡ (ok tt, roomy)
shrink_directory_later_example =
    shrink_directory_later (pos 7) (child ∷ []) 0 roomy child refl (inl refl) (omega arith)
