-- ===== src/Cluster/Grow.antt =====
-- `grow_file` of libexfat/cluster.c.
pub mod Backwards
pub mod Steady
pub mod Leads
pub mod Counts
pub mod Truncated
use mathlib.Core.Bool.{cond}
use nuclear_armageddon.Prelude.{
  ℕ, zero, suc, ◌+◌, ◌-◌, Bool, true, false, not, ◌&&◌, ◌==◌, if◌then◌else◌, u32, sub32,
}
use nuclear_armageddon.Result.{Result, ok, err, bug, out_of_fuel, eio, enospc}
use nuclear_armageddon.Bitmap.{cluster_end}
use nuclear_armageddon.Exfat.{Device, Node, cluster_free, cluster_invalid}
use nuclear_armageddon.Cluster.{
  State, M, ◌>>=◌, ◌>>◌, pure, fail, exfat_bug, gets, set_node, exfat_advance_cluster,
  set_next_cluster, allocate_cluster, make_noncontiguous,
}
use nuclear_armageddon.Cluster.Shrink.{or_eio, check_cluster, shrink_file}

-- A call whose return code is not looked at.
abbrev pub ignore : {D : Type 0} → M D (Unit {0}) → M D (Unit {0})
ignore m s =
    let (r, s') = m s in
    elim r [ bug ↦ (bug, s') | out_of_fuel ↦ (out_of_fuel, s') | _ ↦ (ok tt, s') ]

module _ {D : Type 0} ⦃io : Device D⦄ where
  -- What is done when no cluster is left: those of this call are given back.
  unfoldable pub give_up : ℕ → ℕ → M D (Unit {0})
  give_up current allocated = do
    cond (allocated == 0) (pure tt) (ignore (shrink_file (u32 (current + allocated)) allocated))
    fail enospc

  -- The node leaves the contiguous form, unless the test says that it may keep it.
  unfoldable pub leave_contiguous : ℕ → ℕ → M D (Unit {0})
  leave_contiguous previous next = do
    contiguous ← gets (λ s. s.node.is_contiguous)
    cond (not (next == sub32 previous 1) && contiguous)
        (do
          start ← gets (λ s. s.node.start_cluster)
          or_eio (make_noncontiguous start previous)
          set_node (λ n. record n { is_contiguous = false; is_dirty = true }))
        (pure tt)

  -- One cluster more, linked behind `previous`.
  unfoldable pub append_cluster : ℕ → ℕ → ℕ → M D ℕ
  append_cluster current allocated previous = do
    next ← allocate_cluster (u32 (previous + 1))
    invalid ← gets (λ s. cluster_invalid s.ef.sb next)
    cond invalid (give_up current allocated) (pure tt)
    leave_contiguous previous next
    contiguous ← gets (λ s. s.node.is_contiguous)
    or_eio (set_next_cluster contiguous previous next)
    pure next

  -- The loop with `left` rounds to go; it returns the last cluster.
  unfoldable pub grow_loop : ℕ → ℕ → ℕ → ℕ → M D ℕ
  grow_loop zero current allocated previous = pure previous
  grow_loop (suc left) current allocated previous =
      append_cluster current allocated previous >>= λ next.
      grow_loop left current (u32 (allocated + 1)) next

  -- The last cluster of the file, or the first one of an empty file; and how many are allocated.
  unfoldable pub first_previous : ℕ → M D (ℕ × ℕ)
  first_previous current = do
    start ← gets (λ s. s.node.start_cluster)
    cond (not (start == cluster_free))
        (do
          previous ← exfat_advance_cluster (sub32 current 1)
          check_cluster previous
          pure (previous, 0))
        (do
          index ← gets (λ s. s.node.fptr_index)
          cond (not (index == 0)) exfat_bug (pure tt)
          previous ← allocate_cluster 0
          invalid ← gets (λ s. cluster_invalid s.ef.sb previous)
          cond invalid (fail enospc) (pure tt)
          set_node (λ n. record n {
            fptr_cluster = previous;
            start_cluster = previous;
            is_contiguous = true;
          })
          pure (previous, 1))

  unfoldable pub grow_file : ℕ → ℕ → M D (Unit {0})
  grow_file current difference = do
    cond (difference == 0) exfat_bug (pure tt)
    (previous, allocated) ← first_previous current
    last ← grow_loop (difference - allocated) current allocated previous
    contiguous ← gets (λ s. s.node.is_contiguous)
    or_eio (set_next_cluster contiguous last cluster_end)
