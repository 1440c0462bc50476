-- ===== src/Cluster/Links.antt =====
-- The entries of the file allocation table: `set_next_cluster` and `exfat_next_cluster` of
-- libexfat/cluster.c over a disk.
use native.Mathlib.Decide.{ℕ_discrete}
use nuclear_armageddon.Prelude.{
  subst, ℕ, ◌+◌, ◌^◌, ◌≤◌, ◌<◌, ◌≡◌, ◌≢◌, refl, sym, ap, ◌∙◌, ◌⊎◌, inl, inr, Bool, true, false,
  length, ltb, List, none, some, ◌==◌, if◌then◌else◌, arith, Option-cases,
}
use nuclear_armageddon.Result.{Result, ok}
use nuclear_armageddon.Bitmap.{first_data_cluster}
use nuclear_armageddon.Exfat.{
  SuperBlock, Device, IsDisk, read_bytes, write_bytes, cluster_bad, le32_bytes, le32_value,
}
use nuclear_armageddon.Exfat.Bytes.{
  write_bytes_outside, read_bytes-eq, length-le32_bytes, read_bytes-le32_bytes,
}
use nuclear_armageddon.Cluster.{State, fat_offset, exfat_next_cluster, set_next_cluster}

-- What the table holds for a cluster.
pub entry_at : SuperBlock → (ℕ → ℕ) → ℕ → ℕ
entry_at sb bytes cluster = le32_value (read_bytes bytes 4 (fat_offset sb cluster))

ok_inj : (a b : Bool) → ok a ≡ ok b → a ≡ b
ok_inj a b e = cc

-- Entries have four bytes each.
apart :
    (sb : SuperBlock) (current next other o : ℕ)
    → other ≢ current
    → fat_offset sb other ≤ o
    → o < fat_offset sb other + 4
    → (o < fat_offset sb current) ⊎ (fat_offset sb current + length (le32_bytes next) ≤ o)
unfolding fat_offset
apart sb current next other o ne l u = omega (arith, l, u, ne, length-le32_bytes next)

entry_at_written :
    (sb : SuperBlock) (bytes : ℕ → ℕ) (current next other : ℕ)
    → next < 2 ^ 32
    → entry_at sb (write_bytes bytes (le32_bytes next) (fat_offset sb current)) other
      ≡ (if other == current then next else entry_at sb bytes other)
unfolding entry_at
entry_at_written sb bytes current next other h = elim (ℕ_discrete other current) [
  | yes same ↦
      subst
        (λ c.
          le32_value (
            read_bytes (write_bytes bytes (le32_bytes next) (fat_offset sb current)) 4
              (fat_offset sb c))
          ≡ (if c == current then next else entry_at sb bytes c))
        (sym same) (read_bytes-le32_bytes bytes next (fat_offset sb current) h ∙ ground arith)
  | no ne ↦
      ap le32_value (
        read_bytes-eq _ bytes 4 (fat_offset sb other) (λ o l u.
          write_bytes_outside (le32_bytes next) bytes (fat_offset sb current) o
            (apart sb current next other o ne l u)))
      ∙ ground (arith, ne)
]

-- The states before and after a write of the entry of `current`, on the disk.
module _ {D : Type 0} (io : Device D) (view : D → ℕ → ℕ) (disk : IsDisk io view) (s : State D)
    (current next : ℕ) where
  abbrev linked : Result Bool × State D
  linked = set_next_cluster ⦃io = io⦄ false current next s

  view-linked :
      linked.0 ≡ ok true
      → view linked.1.ef.dev
        ≡ write_bytes (view s.ef.dev) (le32_bytes next) (fat_offset s.ef.sb current)
  unfolding set_next_cluster
  view-linked done =
      disk.written (le32_bytes next) (fat_offset s.ef.sb current) s.ef.dev (ok_inj _ _ done)

  -- A written entry is what the table then holds for that cluster, and the entries of all other
  -- clusters are as before.
  pub set_next_cluster_lem :
      (other : ℕ)
      → next < 2 ^ 32
      → linked.0 ≡ ok true
      → entry_at s.ef.sb (view linked.1.ef.dev) other
        ≡ (if other == current then next else entry_at s.ef.sb (view s.ef.dev) other)
  set_next_cluster_lem other h done =
      rw (view-linked done)
        (unfold set_next_cluster in entry_at_written s.ef.sb (view s.ef.dev) current next other h)

-- On a node that is not contiguous, `exfat_next_cluster` reads the place of the cluster's entry:
-- where that read gives bytes it returns what the table on the disk holds for the cluster, and where
-- it fails EXFAT_CLUSTER_BAD; the disk is as before.
pub exfat_next_cluster-entry_at :
    {D : Type 0} (io : Device D) (view : D → ℕ → ℕ)
    → IsDisk io view
    → (s : State D) (cluster : ℕ) → first_data_cluster ≤ cluster
    → s.node.is_contiguous ≡ false
    → ((((bytes : List ℕ) × ((io.pread 4 (fat_offset s.ef.sb cluster) s.ef.dev).0 ≡ some bytes))
          × ((exfat_next_cluster ⦃io = io⦄ cluster s).0
              ≡ ok (entry_at s.ef.sb (view s.ef.dev) cluster)))
        ⊎ (((io.pread 4 (fat_offset s.ef.sb cluster) s.ef.dev).0 ≡ none)
            × ((exfat_next_cluster ⦃io = io⦄ cluster s).0 ≡ ok cluster_bad)))
      × (view (exfat_next_cluster ⦃io = io⦄ cluster s).1.ef.dev ≡ view s.ef.dev)
unfolding exfat_next_cluster
exfat_next_cluster-entry_at io view disk s cluster h chain =
    rw (above, chain)
      (elim (Option-cases (io.pread 4 (fat_offset s.ef.sb cluster) s.ef.dev).0) [
        | inl failed ↦
            rw failed (inr (refl, refl), disk.kept 4 (fat_offset s.ef.sb cluster) s.ef.dev)
        | inr (bytes, got) ↦ rw got (
          inl (
            (bytes, refl),
            unfold entry_at in
                rw (disk.read 4 (fat_offset s.ef.sb cluster) s.ef.dev bytes got) refl,
          ),
          disk.kept 4 (fat_offset s.ef.sb cluster) s.ef.dev,
        )
      ])
  where
    above : ltb cluster first_data_cluster ≡ false
    above = ground (arith, h)
