-- ===== src/Cluster/Grow/Backwards.antt =====
-- A contiguous file whose next cluster is the one before it: `grow_file` of libexfat/cluster.c
-- compares with `previous - 1` where the next cluster of a contiguous file is `previous + 1`.
use native.Mathlib.Decide.{ℕ_discrete}
use nuclear_armageddon.Prelude.{
  ℕ, ◌+◌, ◌≤◌, ◌<◌, ◌≡◌, ◌≢◌, refl, subst, true, false, ltb, ◌==◌, u32, sub32, arith,
}
use nuclear_armageddon.Result.{ok}
use nuclear_armageddon.Bitmap.{bmap_get, bmap_set, first_data_cluster}
use nuclear_armageddon.Exfat.{Device, Cmap, Exfat, Node, cluster_invalid, cluster_free}
use nuclear_armageddon.Cluster.{
  State, exfat_next_cluster, advance_loop, exfat_advance_cluster, set_next_cluster,
  allocate_cluster,
}
use nuclear_armageddon.Cluster.Allocate.{
  IsCmap, Allocated, one, full, allocate_cluster-Allocated, with_chunk,
}
use nuclear_armageddon.Cluster.Grow.{
  first_previous, grow_loop, append_cluster, leave_contiguous, grow_file,
}

-- The node of a contiguous file of one cluster.
abbrev pub lone : Node → ℕ → Node
lone n cluster = record n {
  fptr_index = 0;
  fptr_cluster = cluster;
  start_cluster = cluster;
  is_contiguous = true;
}

-- One bit of the bitmap is clear.
pub record IsLast (cmap : Cmap) (q : ℕ) : Type 0 where
  pub clear : bmap_get cmap.chunk q ≡ false
  pub others : (j : ℕ) → j < cmap.size → j ≢ q → bmap_get cmap.chunk j ≡ true

abbrev pub before : {D : Type 0} → Exfat D → Node → ℕ → State D
before ef n q = record { ef = ef; node = lone n (q + 3) }

abbrev pub grown : {D : Type 0} → Exfat D → Node → ℕ → State D
grown ef n q = with_chunk (before ef n q) (bmap_set ef.cmap.chunk q)

module _ {D : Type 0} ⦃io : Device D⦄ (ef : Exfat D) (n : Node) (q : ℕ) (is : IsCmap ef.cmap)
    (counted : ef.sb.cluster_count ≡ ef.cmap.size) (inside : q + 2 < ef.cmap.size)
    (last : IsLast ef.cmap q) where
  pick :
      (hint : ℕ)
      → allocate_cluster hint (before ef n q) ≡ (ok (q + first_data_cluster), (grown ef n q))
  pick hint = of (allocate_cluster-Allocated hint (before ef n q) is)
    where
      of :
          Allocated (before ef n q) (allocate_cluster hint (before ef n q))
          → allocate_cluster hint (before ef n q) ≡ (ok (q + first_data_cluster), (grown ef n q))
      of (one c h clear e) = elim (ℕ_discrete c q) [
        | yes same ↦
            subst
              (λ k. allocate_cluster hint (before ef n q) ≡ (
                ok (k + first_data_cluster),
                with_chunk (before ef n q) (bmap_set ef.cmap.chunk k),
              ))
              same e
        | no ne ↦ cc (last.others c h ne)
      ]
      of (full h e) = cc (last.clear, h q (omega (arith, inside)))

  valid : (c : ℕ) → 2 ≤ c → c ≤ q + 3 → cluster_invalid ef.sb c ≡ false
  valid c l h = ground (arith, is.small)

  before_it : (q + first_data_cluster == sub32 (q + 3) 1) ≡ true
  before_it = ground (arith, is.small)

  -- The round of the loop.
  appended :
      append_cluster 1 0 (q + 3) (before ef n q) ≡ (ok (q + first_data_cluster), (grown ef n q))
  unfolding append_cluster leave_contiguous set_next_cluster
  appended =
      rw
        (
          pick (u32 (q + 3 + 1)),
          valid (q + first_data_cluster) (omega arith) (omega arith),
          before_it,
        )
        refl

  start_is : (q + 3 == cluster_free) ≡ false
  start_is = ground arith

  first : first_previous 1 (before ef n q) ≡ (ok (q + 3, 0), (before ef n q))
  unfolding first_previous exfat_advance_cluster advance_loop
  first = rw (start_is, valid (q + 3) (omega arith) (omega arith)) refl

  grown_lem : grow_file 1 1 (before ef n q) ≡ (ok tt, (grown ef n q))
  unfolding grow_file grow_loop set_next_cluster
  grown_lem = rw (first, appended) refl

  -- A contiguous file of the one cluster `q + 3`, when the only free cluster is `q + 2` before it:
  -- `grow_file` by one cluster succeeds, takes that cluster, and leaves the file contiguous from
  -- `q + 3` on, so that the cluster which `exfat_next_cluster` finds second is `q + 4`, which was
  -- in use before.
  pub grow_file_takes_previous :
      (grow_file 1 1 (before ef n q)
        ≡ (ok tt, with_chunk (before ef n q) (bmap_set ef.cmap.chunk q)))
      × (exfat_next_cluster (q + 3) (grow_file 1 1 (before ef n q)).1
          ≡ (ok (q + 4), (grow_file 1 1 (before ef n q)).1))
      × (bmap_get ef.cmap.chunk (q + 2) ≡ true)
  grow_file_takes_previous = (
    grown_lem,
    rw grown_lem (unfold exfat_next_cluster in rw (small, wide) refl),
    last.others (q + 2) inside (omega arith),
  )
    where
      small : ltb (q + 3) first_data_cluster ≡ false
      small = ground arith

      wide : u32 (q + 3 + 1) ≡ q + 4
      wide = omega (arith, is.small)
