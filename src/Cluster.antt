-- ===== src/Cluster.antt =====
-- libexfat/cluster.c: clusters and their chains. A function reads and changes the file system and
-- the node that it is given; both are the state that is passed on, on errors too.
mod Tests
pub mod Shrink
pub mod Grow
pub mod Truncate
pub mod Allocate
pub mod Links
pub mod Keeps
pub mod Transfer
pub mod Used
use mathlib.Core.Bool.{cond}
use nuclear_armageddon.Prelude.{
  ℕ, zero, suc, ◌+◌, ◌-◌, ◌*◌, ◌/◌, ◌%◌, ◌^◌, Bool, true, false, not, ◌&&◌, ◌||◌, Option, none,
  some, List, [], ◌∷◌, ltb, leb, ◌==◌, if◌then◌else◌, u32, u64, sub32, ◌<<<◌, ◌>>>◌,
}
use nuclear_armageddon.Result.{Result, Errno, ok, err, bug, out_of_fuel}
use nuclear_armageddon.Bitmap.{
  div_round_up, bmap_clr, count_free, find_bit_and_set, first_data_cluster, cluster_end,
}
use nuclear_armageddon.Exfat.{
  SuperBlock, Device, Cmap, Exfat, Node, cluster_bad, cluster_size, cluster_invalid, exfat_pread,
  exfat_pwrite, le32_bytes, le32_value,
}

pub record State (D : Type 0) : Type 0 where
  pub ef : Exfat D
  pub node : Node

abbrev pub M : Type 0 → Type 0 → Type 0
M D A = State D → Result A × State D

abbrev pub after : {D A B : Type 0} → Result A → State D → (A → M D B) → Result B × State D
after (ok a) s f = f a s
after (err e) s f = (err e, s)
after bug s f = (bug, s)
after out_of_fuel s f = (out_of_fuel, s)

infixl 5 ◌>>=◌ ◌>>◌
abbrev pub ◌>>=◌ : {D A B : Type 0} → M D A → (A → M D B) → M D B
◌>>=◌ m f s = let (r, s') = m s in after r s' f

abbrev pub ◌>>◌ : {D B : Type 0} → M D (Unit {0}) → M D B → M D B
m >> k = m >>= λ _. k

abbrev pub pure : {D A : Type 0} → A → M D A
pure a s = (ok a, s)

abbrev pub fail : {D A : Type 0} → Errno → M D A
fail e s = (err e, s)

-- `exfat_bug`, which does not return.
abbrev pub exfat_bug : {D A : Type 0} → M D A
exfat_bug s = (bug, s)

abbrev pub gets : {D A : Type 0} → (State D → A) → M D A
gets f s = (ok (f s), s)

abbrev pub set_node : {D : Type 0} → (Node → Node) → M D (Unit {0})
set_node f s = (ok tt, record s { node = f s.node })

abbrev pub set_cmap : {D : Type 0} → (Cmap → Cmap) → M D (Unit {0})
set_cmap f s = (ok tt, record s { ef = record (s.ef) { cmap = f s.ef.cmap } })

-- A call of the device.
abbrev pub on_dev : {D A : Type 0} → (D → A × D) → M D A
on_dev f s = let (a, dev) = f s.ef.dev in (ok a, record s { ef = record (s.ef) { dev = dev } })

pub s2o : SuperBlock → ℕ → ℕ
s2o sb sector = sector <<< sb.sector_bits

pub c2s : SuperBlock → ℕ → Option ℕ
c2s sb cluster =
    if ltb cluster first_data_cluster
    then none
    else some (sb.cluster_sector_start + ((cluster - first_data_cluster) <<< sb.spc_bits))

-- `none` is the call of `exfat_bug`.
pub exfat_c2o : SuperBlock → ℕ → Option ℕ
exfat_c2o sb cluster = elim (c2s sb cluster) [ none ↦ none | some sector ↦ some (s2o sb sector) ]

pub s2c : SuperBlock → ℕ → ℕ
s2c sb sector = u32 (((sector - sb.cluster_sector_start) >>> sb.spc_bits) + first_data_cluster)

pub bytes2clusters : SuperBlock → ℕ → ℕ
bytes2clusters sb bytes = u32 (u64 (bytes + cluster_size sb - 1) / cluster_size sb)

-- The place of a cluster's entry in the file allocation table.
pub fat_offset : SuperBlock → ℕ → ℕ
fat_offset sb cluster = s2o sb sb.fat_sector_start + cluster * 4

-- The bit that the search starts at.
abbrev pub start_bit : ℕ → ℕ → ℕ
start_bit chunk_size hint =
    let bit = sub32 hint first_data_cluster in if leb chunk_size bit then 0 else bit

pub allocate_cluster : {D : Type 0} → ℕ → M D ℕ
allocate_cluster hint s =
    let cmap = s.ef.cmap in
    let start = start_bit cmap.chunk_size hint in
    let (above, chunk) = find_bit_and_set cmap.chunk start cmap.chunk_size in
    let (cluster, chunk') =
      (if above == cluster_end then find_bit_and_set chunk 0 start else (above, chunk)) in
    if cluster == cluster_end
    then (ok cluster_end, s)
    else (do set_cmap (λ c. record c { chunk = chunk'; dirty = true }); pure cluster) s

pub free_cluster : {D : Type 0} → ℕ → M D (Unit {0})
free_cluster cluster s =
    if leb s.ef.cmap.size (sub32 cluster first_data_cluster)
    then (bug, s)
    else set_cmap
        (λ c. record c {
          chunk = bmap_clr c.chunk (sub32 cluster first_data_cluster);
          dirty = true;
        })
        s

module _ {D : Type 0} ⦃io : Device D⦄ where
  abbrev next_read : Option (List ℕ) → M D ℕ
  next_read none = pure cluster_bad
  next_read (some next) = pure (le32_value next)

  unfoldable pub exfat_next_cluster : ℕ → M D ℕ
  exfat_next_cluster cluster s =
      if ltb cluster first_data_cluster
      then (bug, s)
      else if s.node.is_contiguous
      then (ok (u32 (cluster + 1)), s)
      else (on_dev (exfat_pread 4 (fat_offset s.ef.sb cluster)) >>= next_read) s

  -- A round of `exfat_advance_cluster`, and what comes after it.
  abbrev pub advance_round : M D (Unit {0}) → M D (Unit {0})
  advance_round rest = do
    current ← gets (λ s. s.node.fptr_cluster)
    next ← exfat_next_cluster current
    set_node (λ n. record n { fptr_cluster = next })
    invalid ← gets (λ s. cluster_invalid s.ef.sb next)
    cond invalid (pure tt) rest

  -- The loop with `left` rounds to go.
  pub advance_loop : ℕ → M D (Unit {0})
  advance_loop zero = pure tt
  advance_loop (suc left) = advance_round (advance_loop left)

  pub exfat_advance_cluster : ℕ → M D ℕ
  exfat_advance_cluster count = do
    set_node (λ n.
        (if ltb count n.fptr_index
          then record n { fptr_index = 0; fptr_cluster = n.start_cluster }
          else n))
    index ← gets (λ s. s.node.fptr_index)
    advance_loop (count - index)
    set_node (λ n. record n { fptr_index = count })
    gets (λ s. s.node.fptr_cluster)

  -- The result tells whether the entry is written, or need not be.
  pub set_next_cluster : Bool → ℕ → ℕ → M D Bool
  set_next_cluster contiguous current next s =
      if contiguous
      then (ok true, s)
      else on_dev (exfat_pwrite (le32_bytes next) (fat_offset s.ef.sb current)) s

  abbrev pub make_noncontiguous_round : (ℕ → M D Bool) → ℕ → M D Bool
  make_noncontiguous_round rest c = do
    done ← set_next_cluster false c (u32 (c + 1))
    cond done (rest (u32 (c + 1))) (pure false)

  -- The loop from cluster `c` with `left` rounds to go.
  pub make_noncontiguous_loop : ℕ → ℕ → M D Bool
  make_noncontiguous_loop zero c = pure true
  make_noncontiguous_loop (suc left) c = make_noncontiguous_round (make_noncontiguous_loop left) c

  pub make_noncontiguous : ℕ → ℕ → M D Bool
  make_noncontiguous first last = make_noncontiguous_loop (last - first) first

pub exfat_count_free_clusters : {D : Type 0} → Exfat D → ℕ
exfat_count_free_clusters ef = count_free ef.cmap.chunk ef.cmap.size 0
