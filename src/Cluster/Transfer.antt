-- ===== src/Cluster/Transfer.antt =====
-- `exfat_generic_pread` and `exfat_generic_pwrite` of libexfat/io.c.
use mathlib.Core.Bool.{cond}
use nuclear_armageddon.Prelude.{
  ℕ, zero, suc, ◌+◌, ◌-◌, ◌/◌, ◌%◌, min, bit_and, Bool, true, false, not, ◌&&◌, Option, none, some,
  List, [], ◌++◌, ltb, leb, ◌==◌, take, drop, length, u32, u64,
}
use nuclear_armageddon.Prelude.Int.{ℤ}
use nuclear_armageddon.Result.{out_of_fuel, eio}
use nuclear_armageddon.Exfat.{Device, Node, cluster_size, exfat_pread, exfat_pwrite}
use nuclear_armageddon.Cluster.{
  M, ◌>>=◌, ◌>>◌, pure, fail, gets, set_node, on_dev, exfat_next_cluster, exfat_advance_cluster,
}
use nuclear_armageddon.Cluster.Shrink.{or_eio, check_cluster}
use nuclear_armageddon.Cluster.Truncate.{offset_of, exfat_truncate}

abbrev pub is_dir : Node → Bool
is_dir n = not (bit_and n.attrib 0x10 == 0)

abbrev pub got : {D : Type 0} → Option (List ℕ) → M D (List ℕ)
got none = fail eio
got (some bytes) = pure bytes

module _ {D : Type 0} ⦃io : Device D⦄ where
  -- The test and body of the read's loop, and what comes after a round.
  abbrev pub read_round : (ℕ → ℕ → List ℕ → M D (List ℕ)) → ℕ → ℕ → ℕ → List ℕ → M D (List ℕ)
  read_round rest cluster loffset remainder out = cond (remainder == 0) (pure out) (do
    check_cluster cluster
    size ← gets (λ s. cluster_size s.ef.sb)
    let lsize = min (size - loffset) remainder
    offset ← offset_of cluster
    read ← on_dev (exfat_pread lsize (offset + loffset))
    bytes ← got read
    next ← exfat_next_cluster cluster
    rest next (remainder - lsize) (out ++ bytes))

  -- `out` is what stands from `buffer` to `bufp`. A round reads at least one byte, so that the
  -- remainder bounds the rounds.
  unfoldable pub read_loop : ℕ → ℕ → ℕ → ℕ → List ℕ → M D (List ℕ)
  read_loop zero cluster loffset remainder out =
      cond (remainder == 0) (pure out) (λ s. (out_of_fuel, s))
  read_loop (suc fuel) cluster loffset remainder out =
      read_round (λ c left bytes. read_loop fuel c 0 left bytes) cluster loffset remainder out

  -- The rest of a read, once the size of a cluster is known.
  abbrev pub read_at : ℤ → ℕ → ℕ → ℕ → ℕ → M D (List ℕ)
  read_at now size offset node_size cs = do
    cluster ← exfat_advance_cluster (u32 (offset / cs))
    check_cluster cluster
    let remainder = min size (node_size - offset)
    bytes ← read_loop remainder cluster (offset % cs) remainder []
    update ← gets (λ s. not (is_dir s.node) && not s.ef.ro && not s.ef.noatime)
    cond update (set_node (λ n. record n { atime = now; is_dirty = true })) (pure tt)
    pure bytes

  abbrev pub read_cluster : ℤ → ℕ → ℕ → ℕ → M D (List ℕ)
  read_cluster now size offset node_size =
      gets (λ s. cluster_size s.ef.sb) >>= read_at now size offset node_size

  -- The bytes read; the result of the C function is their number. `now` is the system's time.
  unfoldable pub exfat_generic_pread : ℤ → ℕ → ℕ → M D (List ℕ)
  exfat_generic_pread now size offset = do
    node_size ← gets (λ s. s.node.size)
    cond (leb node_size offset) (pure [])
        (cond (size == 0) (pure []) (read_cluster now size offset node_size))

  abbrev pub write_round : (ℕ → List ℕ → M D (Unit {0})) → ℕ → ℕ → List ℕ → M D (Unit {0})
  write_round rest cluster loffset buffer = cond (length buffer == 0) (pure tt) (do
    check_cluster cluster
    size ← gets (λ s. cluster_size s.ef.sb)
    let lsize = min (size - loffset) (length buffer)
    offset ← offset_of cluster
    or_eio (on_dev (exfat_pwrite (take lsize buffer) (offset + loffset)))
    next ← exfat_next_cluster cluster
    rest next (drop lsize buffer))

  -- The loop of the write, with the bytes that are left.
  unfoldable pub write_loop : ℕ → ℕ → ℕ → List ℕ → M D (Unit {0})
  write_loop zero cluster loffset buffer =
      cond (length buffer == 0) (pure tt) (λ s. (out_of_fuel, s))
  write_loop (suc fuel) cluster loffset buffer =
      write_round (λ c bytes. write_loop fuel c 0 bytes) cluster loffset buffer

  -- The rest of a write, once the size of a cluster is known.
  abbrev pub write_at : ℤ → List ℕ → ℕ → ℕ → M D ℕ
  write_at now buffer offset cs = do
    cluster ← exfat_advance_cluster (u32 (offset / cs))
    check_cluster cluster
    write_loop (length buffer) cluster (offset % cs) buffer
    update ← gets (λ s. not (is_dir s.node))
    cond update (set_node (λ n. record n { mtime = now; is_dirty = true })) (pure tt)
    pure (length buffer)

  abbrev pub write_cluster : ℤ → List ℕ → ℕ → M D ℕ
  write_cluster now buffer offset = gets (λ s. cluster_size s.ef.sb) >>= write_at now buffer offset

  -- The result is the number of bytes written.
  unfoldable pub exfat_generic_pwrite : ℤ → List ℕ → ℕ → M D ℕ
  exfat_generic_pwrite now buffer offset = do
    gap ← gets (λ s. ltb s.node.size offset)
    cond gap (exfat_truncate now offset true) (pure tt)
    longer ← gets (λ s. ltb s.node.size (u64 (offset + length buffer)))
    cond longer (exfat_truncate now (u64 (offset + length buffer)) false) (pure tt)
    cond (length buffer == 0) (pure 0) (write_cluster now buffer offset)
