-- ===== src/Cluster/Tests.antt =====
-- A small volume on a disk in memory.
use nuclear_armageddon.Prelude.{
  ℕ, zero, suc, inr, ◌^◌, get_or, ◌+◌, ◌<◌, ◌≡◌, ◌≢◌, ◌⊎◌, ◌==◌, if◌then◌else◌, refl, true, false,
  some, none, List, [], ◌∷◌, arith,
}
use nuclear_armageddon.Prelude.Int.{pos}
use nuclear_armageddon.Result.{ok}
use nuclear_armageddon.Bitmap.{bmap_get, bmap_set, bmap_clr, first_data_cluster}
use nuclear_armageddon.Exfat.{
  SuperBlock, Device, Cmap, Exfat, Node, read_bytes, write_bytes, IsDisk, cluster_bad,
}
use nuclear_armageddon.Cluster.{
  State, allocate_cluster, free_cluster, exfat_next_cluster, set_next_cluster,
  exfat_count_free_clusters, fat_offset,
}
use nuclear_armageddon.Cluster.Allocate.{
  IsCmap, Allocated, Counted, with_chunk, allocate_cluster-Allocated, allocate_cluster-IsCmap,
  free_cluster_lem,
}
use nuclear_armageddon.Cluster.Links.{entry_at, set_next_cluster_lem, exfat_next_cluster-entry_at}
use nuclear_armageddon.Cluster.Truncate.{exfat_truncate}
use nuclear_armageddon.Cluster.Keeps.{Kept}
use nuclear_armageddon.Cluster.Keeps.Size.{Erasable}
use nuclear_armageddon.Cluster.Keeps.Sized.{SizedBy}
use nuclear_armageddon.Cluster.Keeps.Sized.Truncate.{exfat_truncate_lem}
use nuclear_armageddon.Cluster.Grow.{grow_file}
use nuclear_armageddon.Cluster.Grow.Backwards.{IsLast, before, grow_file_takes_previous}

-- Calls on a disk that never fail.
instance memory : Device (ℕ → ℕ)
memory = record {
  pread = λ size offset d. (some (read_bytes d size offset), d);
  pwrite = λ buffer offset d. (true, write_bytes d buffer offset);
}

some_inj : (a b : List ℕ) → some a ≡ some b → b ≡ a
some_inj a b e = cc

memory-IsDisk : IsDisk memory (λ d. d)
unfolding memory
memory-IsDisk = record {
  read = λ size offset d bytes e. some_inj (read_bytes d size offset) bytes e;
  kept = λ size offset d. refl;
  written = λ buffer offset d e. refl;
}

-- Sectors of 512 bytes, clusters of one sector.
abbrev sb : SuperBlock
sb = record {
  fat_sector_start = 128;
  cluster_sector_start = 256;
  cluster_count = 6;
  sector_bits = 9;
  spc_bits = 0;
}

-- Of six clusters that with bit 1 is free.
abbrev cmap : Cmap
cmap = record { start_cluster = 2; size = 6; chunk = 0x3d ∷ []; chunk_size = 6; dirty = false }

abbrev volume : Exfat (ℕ → ℕ)
volume = record { dev = λ o. 0; sb = sb; cmap = cmap; ro = false; noatime = false }

abbrev file : Node
file = record {
  has_parent = true;
  references = 1;
  fptr_index = 0;
  fptr_cluster = 4;
  start_cluster = 4;
  is_contiguous = true;
  is_dirty = false;
  size = 512;
  mtime = pos 0;
  atime = pos 0;
  attrib = 0x20;
}

abbrev mounted : State (ℕ → ℕ)
mounted = record { ef = volume; node = file }

chunk_words : (i : ℕ) → get_or cmap.chunk i 0 < 2 ^ 64
chunk_words zero = omega arith
chunk_words (suc i) = omega arith

cmap-IsCmap : IsCmap cmap
cmap-IsCmap = record {
  whole = refl;
  small = omega arith;
  bits = record { room = omega arith; words = chunk_words };
}

others_busy : (j : ℕ) → j < 6 → j ≢ 1 → bmap_get cmap.chunk j ≡ true
unfolding bmap_get
others_busy zero h ne = refl
others_busy (suc zero) h ne = absurd (ne refl)
others_busy (suc (suc zero)) h ne = refl
others_busy (suc (suc (suc zero))) h ne = refl
others_busy (suc (suc (suc (suc zero)))) h ne = refl
others_busy (suc (suc (suc (suc (suc zero))))) h ne = refl
others_busy (suc (suc (suc (suc (suc (suc j)))))) h ne = absurd (omega (arith, h))

cmap-IsLast : IsLast cmap 1
unfolding bmap_get
cmap-IsLast = record { clear = refl; others = others_busy }

allocate_cluster-Allocated_example : Allocated mounted (allocate_cluster 5 mounted)
allocate_cluster-Allocated_example = allocate_cluster-Allocated 5 mounted cmap-IsCmap

allocate_cluster-IsCmap_example :
    IsCmap (allocate_cluster 5 mounted).1.ef.cmap × Counted mounted (allocate_cluster 5 mounted)
allocate_cluster-IsCmap_example = allocate_cluster-IsCmap 5 mounted cmap-IsCmap

free_cluster_lem_example :
    (free_cluster (3 + first_data_cluster) mounted
      ≡ (ok tt, with_chunk mounted (bmap_clr cmap.chunk 3)))
    × IsCmap (free_cluster (3 + first_data_cluster) mounted).1.ef.cmap
    × (exfat_count_free_clusters (free_cluster (3 + first_data_cluster) mounted).1.ef
        ≡ exfat_count_free_clusters volume + 1)
free_cluster_lem_example =
    free_cluster_lem 3 mounted cmap-IsCmap (omega arith) (unfold bmap_get in refl)

grow_file_takes_previous_example :
    (grow_file 1 1 (before volume file 1)
      ≡ (ok tt, with_chunk (before volume file 1) (bmap_set cmap.chunk 1)))
    × (exfat_next_cluster (1 + 3) (grow_file 1 1 (before volume file 1)).1
        ≡ (ok (1 + 4), (grow_file 1 1 (before volume file 1)).1))
    × (bmap_get cmap.chunk (1 + 2) ≡ true)
grow_file_takes_previous_example =
    grow_file_takes_previous volume file 1 cmap-IsCmap refl (omega arith) cmap-IsLast

abbrev fragmented : State (ℕ → ℕ)
fragmented = record { ef = volume; node = record file { is_contiguous = false } }

written : (set_next_cluster ⦃io = memory⦄ false 4 7 fragmented).0 ≡ ok true
unfolding set_next_cluster memory
written = refl

set_next_cluster_lem_example :
    entry_at sb (set_next_cluster ⦃io = memory⦄ false 4 7 fragmented).1.ef.dev 5
    ≡ (if 5 == 4 then 7 else entry_at sb volume.dev 5)
set_next_cluster_lem_example =
    set_next_cluster_lem memory (λ d. d) memory-IsDisk fragmented 4 7 5 (omega arith) written

exfat_next_cluster-entry_at_example :
    ((((bytes : List ℕ) × ((memory.pread 4 (fat_offset sb 4) volume.dev).0 ≡ some bytes))
        × ((exfat_next_cluster ⦃io = memory⦄ 4 fragmented).0 ≡ ok (entry_at sb volume.dev 4)))
      ⊎ (((memory.pread 4 (fat_offset sb 4) volume.dev).0 ≡ none)
          × ((exfat_next_cluster ⦃io = memory⦄ 4 fragmented).0 ≡ ok cluster_bad)))
    × ((exfat_next_cluster ⦃io = memory⦄ 4 fragmented).1.ef.dev ≡ volume.dev)
exfat_next_cluster-entry_at_example =
    exfat_next_cluster-entry_at memory (λ d. d) memory-IsDisk fragmented 4 (omega arith) refl

-- The file has one cluster, and only one of the two that it would need is free.
exfat_truncate_lem_example :
    SizedBy mounted.node.size 1300 (exfat_truncate (pos 7) 1300 true mounted)
    × Kept sb (exfat_truncate (pos 7) 1300 true mounted)
exfat_truncate_lem_example =
    exfat_truncate_lem (pos 7) 1300 true mounted (unfold Erasable in inr (omega arith)) cmap-IsCmap
