-- ===== src/Mkfs/Room.antt =====
-- Where mkfs puts the clusters heap and how much it counts in it, on sectors of 512 bytes.
use native.Mathlib.Nat.{
  pow-le-pow_right, one-le-pow, mul-div_cancel, mul-pos, le_trans, mul_assoc, mul_comm,
}
use nuclear_armageddon.Prelude.{
  ℕ, ◌+◌, ◌-◌, ◌*◌, ◌/◌, ◌^◌, ◌≤◌, ◌<◌, ◌≡◌, refl, sym, ap, ◌∙◌, arith, true, some, List, [], ◌∷◌,
  u32, sub32,
}
use nuclear_armageddon.Bitmap.{div_round_up}
use nuclear_armageddon.Mkfs.{
  on_512, Param, get_cluster_size, round_up, cbm, objects, FsObject, vbr, fat, uct, rootdir,
  or_zero, fat_size, get_position, position_from, get_alignment, get_size, end_from, check_size,
  vbr_size,
}
use nuclear_armageddon.Mkfs.Write.{
  fat_sectors, fat_sector_start, fat_sector_count, cluster_sector_start, cluster_count, round_up32,
}
use nuclear_armageddon.Mkfs.Layout.{
  heap_position, heap_sector, before-le, heap_fits, two_before, heap_above, heap_below, le-round_up,
  clusters, fat_bytes, sectors, before_heap, heap_below, heap_above,
}

in_bytes : (b c : ℕ) → b * c * 512 ≡ b * (512 * c)
in_bytes b c = mul_assoc b c 512 ∙ ap (λ n. b * n) (mul_comm c 512)

-- The numbers of the super block do not wrap.
module _ (c volume : ℕ) (pos : 0 < c) (small : c ≤ 65536)
    (few : clusters c volume ≤ 0xfffffff6) where
  sectors_fit : u32 (div_round_up (u32 (clusters c volume) * 4) 512) ≡ sectors c volume
  sectors_fit = omega (arith, few)

  bounded : sectors c volume ≤ 33554432
  bounded = omega (arith, few)

  sum_fits : u32 (u32 (128 + sectors c volume) + c - 1) ≡ 128 + sectors c volume + c - 1
  sum_fits = omega (arith, small, bounded)

  end_fits : round_up32 (128 + sectors c volume) c ≡ before_heap c volume * c
  end_fits =
      ap (λ n. u32 (n / c * c)) sum_fits ∙ omega (arith, small, bounded, heap_below c volume pos)

-- The same for the number of clusters.
module _ (c volume : ℕ) (pos : 0 < c) (small : c ≤ 65536)
    (few : clusters c volume ≤ 0xfffffff6) where
  below : before_heap c volume * c ≤ 33620096
  below = omega (arith, small, bounded c volume pos small few, heap_below c volume pos)

  count_fits : sub32 (before_heap c volume * c) 128 ≡ before_heap c volume * c - 128
  count_fits = omega (arith, below, heap_above c volume pos)

-- Sectors in a cluster.
abbrev pub spc : Param → ℕ
spc p = 2 ^ p.spc_bits

-- Clusters in the volume, and those before the heap.
abbrev pub total : Param → ℕ
total p = clusters (spc p) p.volume_size

abbrev before : Param → ℕ
before p = before_heap (spc p) p.volume_size

cluster_bytes : (p : Param) → get_cluster_size (on_512 p) ≡ 512 * spc p
cluster_bytes p = refl

cbm_at :
    (p : Param)
    → get_position (on_512 p) cbm
      ≡ some (round_up (65536 + fat_bytes (spc p) p.volume_size) (512 * spc p))
unfolding get_position position_from get_alignment get_size vbr_size fat_size
cbm_at p = refl

cluster_pos : (p : Param) → 0 < spc p
cluster_pos p = one-le-pow p.spc_bits 2 (omega arith)

cluster_small : (p : Param) → p.spc_bits ≤ 16 → spc p ≤ 65536
cluster_small p h = pow-le-pow_right {n = 2} (omega arith) h

pub alignment_pos : (p : Param) (o : FsObject) → 0 < get_alignment (on_512 p) o
unfolding get_alignment
alignment_pos p vbr = omega arith
alignment_pos p fat = omega arith
alignment_pos p cbm = mul-pos {m = 512} (omega arith) (cluster_pos p)
alignment_pos p uct = mul-pos {m = 512} (omega arith) (cluster_pos p)
alignment_pos p rootdir = mul-pos {m = 512} (omega arith) (cluster_pos p)

le-end_from :
    (p : Param) (os : List FsObject) (position : ℕ) → position ≤ end_from (on_512 p) os position
unfolding end_from
le-end_from p [] position = omega arith
le-end_from p (o ∷ rest) position = omega (
  arith,
  le-round_up position (get_alignment (on_512 p) o) (alignment_pos p o),
  le-end_from p rest (round_up position (get_alignment (on_512 p) o) + get_size (on_512 p) o),
)

heap_in_end : (p : Param) → before p * (512 * spc p) ≤ end_from (on_512 p) objects 0
unfolding end_from get_alignment get_size vbr_size fat_size
heap_in_end p = omega (
  arith,
  ap (λ n. n * (512 * spc p)) (heap_position (spc p) p.volume_size (cluster_pos p)),
  le-end_from p (uct ∷ rootdir ∷ [])
      (round_up (65536 + fat_size (on_512 p)) (512 * spc p) + get_size (on_512 p) cbm),
)

check_size-le :
    (p : Param)
    → check_size (on_512 p) p.volume_size ≡ true
    → end_from (on_512 p) objects 0 ≤ p.volume_size
unfolding check_size
check_size-le p e = ground arith

before_fits : (p : Param) → check_size (on_512 p) p.volume_size ≡ true → before p ≤ total p
before_fits p e =
    before-le (spc p) p.volume_size (cluster_pos p) (le_trans (heap_in_end p) (check_size-le p e))

module _ (p : Param) (h : p.spc_bits ≤ 16) (few : total p ≤ 0xfffffff6) where
  fat_sector_count_lem : fat_sector_count (on_512 p) ≡ before p * spc p - 128
  unfolding fat_sectors fat_sector_start fat_sector_count get_alignment
  fat_sector_count_lem =
      ap (λ d. sub32 (round_up32 (128 + fat_sectors (on_512 p)) d) 128) (omega arith)
      ∙ ap (λ n. sub32 (round_up32 (128 + n) (spc p)) 128)
          (sectors_fit (spc p) p.volume_size (cluster_pos p) (cluster_small p h) few)
      ∙ ap (λ n. sub32 n 128)
          (end_fits (spc p) p.volume_size (cluster_pos p) (cluster_small p h) few)
      ∙ count_fits (spc p) p.volume_size (cluster_pos p) (cluster_small p h) few

  cbm_starts : get_position (on_512 p) cbm ≡ some (before p * (512 * spc p))
  cbm_starts =
      cbm_at p
      ∙ ap (λ n. some (n * (512 * spc p))) (heap_position (spc p) p.volume_size (cluster_pos p))

  cluster_sector_start_lem : cluster_sector_start (on_512 p) ≡ before p * spc p
  unfolding cluster_sector_start
  cluster_sector_start_lem =
      ap (λ o. u32 (or_zero o / 512)) cbm_starts
      ∙ ap u32 (heap_sector (spc p) p.volume_size (cluster_pos p))
      ∙ omega (arith, below (spc p) p.volume_size (cluster_pos p) (cluster_small p h) few)

  heap_starts : before p * spc p ≡ fat_sector_start (on_512 p) + fat_sector_count (on_512 p)
  unfolding fat_sector_start get_alignment
  heap_starts =
      omega (arith, fat_sector_count_lem, heap_above (spc p) p.volume_size (cluster_pos p))

  cluster_count_lem : before p ≤ total p → cluster_count (on_512 p) ≡ total p - before p
  unfolding cluster_count
  cluster_count_lem le =
      ap (λ n. sub32 (u32 (total p)) (u32 n / spc p)) (sym heap_starts)
      ∙ ap (λ n. sub32 (u32 (total p)) (n / spc p))
          (omega (arith, below (spc p) p.volume_size (cluster_pos p) (cluster_small p h) few))
      ∙ ap (λ n. sub32 (u32 (total p)) n) (mul-div_cancel (before p) (cluster_pos p))
      ∙ omega (arith, le, few)

-- On sectors of 512 bytes, with clusters of at most 65536 sectors and at most 0xfffffff6 of them, and
-- when `check_size` accepts the volume: the position that `mkfs` gives the bitmap is the sector of
-- the super block's `cluster_sector_start`, which is the sector just behind the FAT, and the
-- `cluster_count` clusters from there on end within the volume.
pub cluster_sector_start-cluster_count :
    (p : Param)
    → p.spc_bits ≤ 16
    → total p ≤ 0xfffffff6
    → check_size (on_512 p) p.volume_size ≡ true
    → (get_position (on_512 p) cbm ≡ some (cluster_sector_start (on_512 p) * 512))
      × (cluster_sector_start (on_512 p)
          ≡ fat_sector_start (on_512 p) + fat_sector_count (on_512 p))
      × (cluster_sector_start (on_512 p) * 512
            + cluster_count (on_512 p) * get_cluster_size (on_512 p)
          ≤ p.volume_size)
cluster_sector_start-cluster_count p h few e = (
  cbm_starts p h few
      ∙ ap some (
          sym (ap (λ n. n * 512) (cluster_sector_start_lem p h few) ∙ in_bytes (before p) (spc p))),
  cluster_sector_start_lem p h few ∙ heap_starts p h few,
  omega (
    arith,
    ap (λ n. n * 512) (cluster_sector_start_lem p h few) ∙ in_bytes (before p) (spc p),
    ap (λ n. n * (512 * spc p)) (cluster_count_lem p h few (before_fits p e)),
    heap_fits (spc p) p.volume_size (cluster_pos p) (before_fits p e),
  ),
)

wide : (p : Param) → p.spc_bits ≤ 7 → p.spc_bits ≤ 16
wide p h = omega (arith, h)

-- With clusters of at most 128 sectors besides, the FAT has room for an entry of each cluster and
-- the two entries before them.
pub fat_sector_count-cluster_count :
    (p : Param)
    → p.spc_bits ≤ 7
    → 0 < total p
    → total p ≤ 0xfffffff6
    → check_size (on_512 p) p.volume_size ≡ true
    → (cluster_count (on_512 p) + 2) * 4 ≤ fat_sector_count (on_512 p) * 512
fat_sector_count-cluster_count p h some_cluster few e = omega (
  arith,
  few,
  cluster_count_lem p (wide p h) few (before_fits p e),
  fat_sector_count_lem p (wide p h) few,
  heap_above (spc p) p.volume_size (cluster_pos p),
  two_before (spc p) p.volume_size (cluster_pos p) (pow-le-pow_right {n = 2} (omega arith) h)
      some_cluster,
)
