-- ===== src/Fsck/Tests.antt =====
-- A file of two clusters on a volume of six.
use nuclear_armageddon.Prelude.{ℕ, ◌≡◌, ◌↔◌, refl, none, some, true, false, [], ◌∷◌, u32, arith}
use nuclear_armageddon.Prelude.Int.{pos}
use nuclear_armageddon.Result.{ok}
use nuclear_armageddon.Bitmap.{div_round_up}
use nuclear_armageddon.Exfat.{Device, cluster_size}
use nuclear_armageddon.Cluster.{State}
use nuclear_armageddon.Fsck.Node.{nodeck}
use nuclear_armageddon.Fsck.Clusters.{AllInUse, nodeck-AllInUse}

-- A contiguous file needs no read.
instance broken : Device (Unit {0})
broken = record { pread = λ size offset d. (none, d); pwrite = λ buffer offset d. (false, d) }

-- The cluster with bit 1 is free.
abbrev state : State (Unit {0})
state = record {
  ef = record {
    dev = tt;
    sb = record {
      fat_sector_start = 128;
      cluster_sector_start = 256;
      cluster_count = 6;
      sector_bits = 9;
      spc_bits = 0;
    };
    cmap = record { start_cluster = 2; size = 6; chunk = 0x3d ∷ []; chunk_size = 6; dirty = false };
    ro = false;
    noatime = false;
  };
  node = record {
    has_parent = true;
    references = 1;
    fptr_index = 0;
    fptr_cluster = 4;
    start_cluster = 4;
    is_contiguous = true;
    is_dirty = false;
    size = 1000;
    mtime = pos 0;
    atime = pos 0;
    attrib = 0x20;
  };
}

nodeck-AllInUse_example :
    (rc : ℕ) × (nodeck (some (97 ∷ [])) state ≡ (ok rc, state))
    × ((rc ≡ 0)
        ↔ AllInUse state state.node.start_cluster
            (u32 (div_round_up state.node.size (cluster_size state.ef.sb))))
nodeck-AllInUse_example = nodeck-AllInUse (97 ∷ []) state refl (omega arith) (omega arith)
