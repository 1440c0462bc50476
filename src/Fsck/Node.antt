-- ===== src/Fsck/Node.antt =====
-- `nodeck` of fsck/main.c.
use mathlib.Core.Bool.{cond}
use nuclear_armageddon.Prelude.{ℕ, zero, suc, ◌-◌, Option, none, some, List, u32}
use nuclear_armageddon.Bitmap.{bmap_get, div_round_up, first_data_cluster}
use nuclear_armageddon.Exfat.{Device, cluster_size, cluster_invalid}
use nuclear_armageddon.Cluster.{M, ◌>>=◌, ◌>>◌, pure, exfat_bug, gets, exfat_next_cluster}

module _ {D : Type 0} ⦃io : Device D⦄ where
  -- `exfat_get_name`, for a message.
  abbrev pub named : Option (List ℕ) → M D (Unit {0})
  named none = exfat_bug
  named (some name) = pure tt

  -- The check of the bitmap, and what is done with the next cluster and the result so far.
  abbrev pub check_bit : Option (List ℕ) → (ℕ → ℕ → M D ℕ) → ℕ → ℕ → M D ℕ
  check_bit name rest c rc = do
    allocated ← gets (λ s. bmap_get s.ef.cmap.chunk (c - first_data_cluster))
    cond allocated (exfat_next_cluster c >>= λ next. rest next rc)
        (do named name; next ← exfat_next_cluster c; rest next 1)

  -- The loop with `clusters` to go, from a cluster on; the name is what `exfat_get_name` gives.
  unfoldable pub nodeck_loop : Option (List ℕ) → ℕ → ℕ → ℕ → M D ℕ
  nodeck_loop name zero c rc = pure rc
  nodeck_loop name (suc clusters) c rc = do
    invalid ← gets (λ s. cluster_invalid s.ef.sb c)
    cond invalid (named name >> pure 1) (check_bit name (nodeck_loop name clusters) c rc)

  unfoldable pub nodeck : Option (List ℕ) → M D ℕ
  nodeck name = do
    clusters ← gets (λ s. u32 (div_round_up s.node.size (cluster_size s.ef.sb)))
    c ← gets (λ s. s.node.start_cluster)
    nodeck_loop name clusters c 0
