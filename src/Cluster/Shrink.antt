-- ===== src/Cluster/Shrink.antt =====
-- `shrink_file` of libexfat/cluster.c.
use mathlib.Core.Bool.{cond}
use nuclear_armageddon.Prelude.{ℕ, zero, suc, ◌-◌, Bool, true, ltb, ◌==◌, if◌then◌else◌}
use nuclear_armageddon.Result.{eio}
use nuclear_armageddon.Bitmap.{cluster_end}
use nuclear_armageddon.Exfat.{Device, cluster_free, cluster_invalid}
use nuclear_armageddon.Cluster.{
  M, ◌>>=◌, ◌>>◌, pure, fail, exfat_bug, gets, set_node, exfat_next_cluster, exfat_advance_cluster,
  set_next_cluster, free_cluster,
}

-- A step whose result tells whether it succeeded, with -EIO if it did not.
abbrev pub or_eio : {D : Type 0} → M D Bool → M D (Unit {0})
or_eio m = do done ← m; cond done (pure tt) (fail eio)

-- `if (CLUSTER_INVALID(...)) return -EIO`
abbrev pub check_cluster : {D : Type 0} → ℕ → M D (Unit {0})
check_cluster cluster = do
  invalid ← gets (λ s. cluster_invalid s.ef.sb cluster)
  cond invalid (fail eio) (pure tt)

module _ {D : Type 0} ⦃io : Device D⦄ where
  abbrev pub free_round : (ℕ → M D (Unit {0})) → ℕ → M D (Unit {0})
  free_round rest previous = do
    check_cluster previous
    next ← exfat_next_cluster previous
    contiguous ← gets (λ s. s.node.is_contiguous)
    or_eio (set_next_cluster contiguous previous cluster_free)
    free_cluster previous
    rest next

  -- The loop that frees `difference` clusters from `previous` on.
  unfoldable pub free_chain : ℕ → ℕ → M D (Unit {0})
  free_chain zero previous = pure tt
  free_chain (suc difference) previous = free_round (free_chain difference) previous

  -- The first cluster to free, once the chain before it is cut off.
  unfoldable pub crop_file : ℕ → ℕ → M D ℕ
  crop_file current difference =
      if ltb difference current
      then (do
        last ← exfat_advance_cluster (current - difference - 1)
        check_cluster last
        previous ← exfat_next_cluster last
        contiguous ← gets (λ s. s.node.is_contiguous)
        or_eio (set_next_cluster contiguous last cluster_end)
        pure previous)
      else (do
        previous ← gets (λ s. s.node.start_cluster)
        set_node (λ n. record n { start_cluster = cluster_free; is_dirty = true })
        pure previous)

  unfoldable pub shrink_file : ℕ → ℕ → M D (Unit {0})
  shrink_file current difference = do
    cond (difference == 0) exfat_bug (pure tt)
    start ← gets (λ s. s.node.start_cluster)
    cond (start == cluster_free) exfat_bug (pure tt)
    cond (ltb current difference) exfat_bug (pure tt)
    previous ← crop_file current difference
    set_node (λ n. record n { fptr_index = 0; fptr_cluster = n.start_cluster })
    free_chain difference previous
