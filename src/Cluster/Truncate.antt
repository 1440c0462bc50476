-- ===== src/Cluster/Truncate.antt =====
-- Erasing, `exfat_truncate` and `exfat_flush` of libexfat/cluster.c.
use mathlib.Core.Bool.{cond}
use nuclear_armageddon.Prelude.{
  ℕ, zero, suc, ◌+◌, ◌-◌, ◌*◌, ◌/◌, ◌%◌, min, bit_or, Bool, true, false, ◌&&◌, none, some, List, [],
  ◌∷◌, ◌++◌, ltb, leb, ◌==◌, replicate, take, u32, u64, ◌^◌,
}
use nuclear_armageddon.Prelude.Int.{ℤ}
use nuclear_armageddon.Result.{ok, bug, out_of_fuel}
use nuclear_armageddon.Bitmap.{word_bits, div_round_up}
use nuclear_armageddon.Exfat.{Device, cluster_size, cluster_invalid, exfat_pwrite}
use nuclear_armageddon.Cluster.{
  M, ◌>>=◌, ◌>>◌, pure, exfat_bug, gets, set_node, set_cmap, on_dev, exfat_c2o, bytes2clusters,
  exfat_next_cluster, exfat_advance_cluster,
}
use nuclear_armageddon.Cluster.Shrink.{or_eio, check_cluster, shrink_file}
use nuclear_armageddon.Cluster.Grow.{grow_file}

-- The offset of a cluster, or the call of `exfat_bug`.
abbrev pub offset_of : {D : Type 0} → ℕ → M D ℕ
offset_of cluster s = elim (exfat_c2o s.ef.sb cluster) [
  | none ↦ (bug, s)
  | some offset ↦ (ok offset, s)
]

abbrev pub word_bytes : ℕ → ℕ → List ℕ
word_bytes zero w = []
word_bytes (suc n) w = w % 256 ∷ word_bytes n (w / 256)

abbrev pub chunk_bytes : List ℕ → List ℕ
chunk_bytes [] = []
chunk_bytes (w ∷ chunk) = word_bytes 8 w ++ chunk_bytes chunk

abbrev pub bmap_size : ℕ → ℕ
bmap_size count = div_round_up count word_bits * word_bits / 8

module _ {D : Type 0} ⦃io : Device D⦄ where
  -- `zero_cluster` holds zeros.
  unfoldable pub erase_raw : ℕ → ℕ → M D Bool
  erase_raw size offset = on_dev (exfat_pwrite (replicate size 0) offset)

  -- The loop over whole clusters, with a boundary in 64 bits that may wrap around.
  -- The loop's test and body, and what comes after a round.
  abbrev pub erase_round : (ℕ → ℕ → M D (Unit {0})) → ℕ → ℕ → ℕ → M D (Unit {0})
  erase_round rest cluster cluster_boundary end =
      cond (ltb cluster_boundary end)
        (do
          next ← exfat_next_cluster cluster
          invalid ← gets (λ s. cluster_invalid s.ef.sb next)
          cond invalid exfat_bug (pure tt)
          size ← gets (λ s. cluster_size s.ef.sb)
          offset ← offset_of next
          or_eio (erase_raw size offset)
          rest next (u64 (cluster_boundary + size)))
        (pure tt)

  unfoldable pub erase_loop : ℕ → ℕ → ℕ → ℕ → M D (Unit {0})
  erase_loop zero cluster cluster_boundary end = λ s. (out_of_fuel, s)
  erase_loop (suc fuel) cluster cluster_boundary end =
      erase_round (λ c boundary. erase_loop fuel c boundary end) cluster cluster_boundary end

  unfoldable pub erase_range : ℕ → ℕ → M D (Unit {0})
  erase_range begin end = cond (leb end begin) (pure tt) (do
    size ← gets (λ s. cluster_size s.ef.sb)
    let cluster_boundary = u64 (bit_or begin (size - 1) + 1)
    cluster ← exfat_advance_cluster (u32 (begin / size))
    check_cluster cluster
    offset ← offset_of cluster
    or_eio (erase_raw (u64 (2 ^ 64 + min cluster_boundary end - begin)) (offset + begin % size))
    erase_loop (suc end) cluster cluster_boundary end)

  -- `now` is the system's time, which `exfat_update_mtime` asks for.
  unfoldable pub exfat_truncate : ℤ → ℕ → Bool → M D (Unit {0})
  exfat_truncate now size erase = do
    old ← gets (λ s. s.node.size)
    c1 ← gets (λ s. bytes2clusters s.ef.sb s.node.size)
    c2 ← gets (λ s. bytes2clusters s.ef.sb size)
    lost ← gets (λ s. (s.node.references == 0) && s.node.has_parent)
    cond lost exfat_bug (pure tt)
    cond (old == size) (pure tt) (do
      cond (ltb c1 c2) (grow_file c1 (c2 - c1))
          (cond (ltb c2 c1) (shrink_file c1 (c1 - c2)) (pure tt))
      cond erase (erase_range old size) (pure tt)
      set_node (λ n. record n { mtime = now; size = size; is_dirty = true }))

  pub exfat_flush : M D (Unit {0})
  exfat_flush = do
    dirty ← gets (λ s. s.ef.cmap.dirty)
    cond dirty
        (do
          cmap ← gets (λ s. s.ef.cmap)
          offset ← offset_of cmap.start_cluster
          or_eio (
              on_dev
                (exfat_pwrite (take (bmap_size cmap.chunk_size) (chunk_bytes cmap.chunk)) offset))
          set_cmap (λ c. record c { dirty = false }))
        (pure tt)
