-- ===== src/Exfat.antt =====
-- The structures of libexfat/exfat.h and libexfat/exfatfs.h that the library keeps in memory, and
-- the device below them.
pub mod Bytes
use nuclear_armageddon.Prelude.{
  ℕ, zero, suc, ◌+◌, ◌-◌, ◌*◌, ◌/◌, ◌%◌, ◌^◌, ◌≡◌, Bool, true, ◌||◌, Option, some, List, [], ◌∷◌,
  ltb, leb, ◌==◌, if◌then◌else◌, sub32, ◌<<<◌, length,
}
use nuclear_armageddon.Prelude.Int.{ℤ}
use nuclear_armageddon.Bitmap.{first_data_cluster}

-- What the library reads of `struct exfat_super_block`, as CPU values.
pub record SuperBlock : Type 0 where
  pub fat_sector_start : ℕ
  pub cluster_sector_start : ℕ
  pub cluster_count : ℕ
  pub sector_bits : ℕ
  pub spc_bits : ℕ

-- The device below: the system's `pread` and `pwrite`, on whatever state `D` the device has.
-- `pread size offset` gives the bytes, or nothing where its result is negative; `pwrite buffer
-- offset` tells whether its result was not.
pub record Device (D : Type 0) : Type 0 where
  pub pread : ℕ → ℕ → D → Option (List ℕ) × D
  pub pwrite : List ℕ → ℕ → D → Bool × D

-- The member `cmap`: the bitmap of clusters in use. `size` and `chunk_size` count bits.
pub record Cmap : Type 0 where
  pub start_cluster : ℕ
  pub size : ℕ
  pub chunk : List ℕ
  pub chunk_size : ℕ
  pub dirty : Bool

-- `ro` tells whether the member is not zero.
pub record Exfat (D : Type 0) : Type 0 where
  pub dev : D
  pub sb : SuperBlock
  pub cmap : Cmap
  pub ro : Bool
  pub noatime : Bool

-- `struct exfat_node` without its name and its links, but for whether there is a parent.
pub record Node : Type 0 where
  pub has_parent : Bool
  pub references : ℕ
  pub fptr_index : ℕ
  pub fptr_cluster : ℕ
  pub start_cluster : ℕ
  pub is_contiguous : Bool
  pub is_dirty : Bool
  pub size : ℕ
  pub mtime : ℤ
  pub atime : ℤ
  pub attrib : ℕ

abbrev pub cluster_free : ℕ
cluster_free = 0

abbrev pub cluster_bad : ℕ
cluster_bad = 0xfffffff7

abbrev pub sector_size : SuperBlock → ℕ
sector_size sb = 1 <<< sb.sector_bits

abbrev pub cluster_size : SuperBlock → ℕ
cluster_size sb = sector_size sb <<< sb.spc_bits

abbrev pub cluster_invalid : SuperBlock → ℕ → Bool
cluster_invalid sb c = ltb c first_data_cluster || leb sb.cluster_count (sub32 c first_data_cluster)

pub read_bytes : (ℕ → ℕ) → ℕ → ℕ → List ℕ
read_bytes bytes zero offset = []
read_bytes bytes (suc size) offset = bytes offset ∷ read_bytes bytes size (offset + 1)

pub write_bytes : (ℕ → ℕ) → List ℕ → ℕ → ℕ → ℕ
write_bytes bytes [] offset = bytes
write_bytes bytes (b ∷ buffer) offset =
    write_bytes (λ o. if o == offset then b else bytes o) buffer (offset + 1)

-- The system's `lseek` to a place from the start, `write` at the place that was reached, and
-- `fsync`, on whatever state the device has; the results tell whether they succeed.
pub record Stream (D : Type 0) : Type 0 where
  pub seek : ℕ → D → Bool × D
  pub write : List ℕ → D → Bool × D
  pub sync : D → Bool × D

-- What a disk promises of these calls, where `view` tells its bytes by offset. A read that does not
-- fail gives the bytes there, and no read changes them; a write that does not fail stores its own.
pub record IsDisk {D : Type 0} (io : Device D) (view : D → ℕ → ℕ) : Type 0 where
  pub read :
      (size offset : ℕ) (d : D) (bytes : List ℕ)
      → (io.pread size offset d).0 ≡ some bytes
      → bytes ≡ read_bytes (view d) size offset
  pub kept : (size offset : ℕ) (d : D) → view (io.pread size offset d).1 ≡ view d
  pub written :
      (buffer : List ℕ) (offset : ℕ) (d : D)
      → (io.pwrite buffer offset d).0 ≡ true
      → view (io.pwrite buffer offset d).1 ≡ write_bytes (view d) buffer offset

module _ {D : Type 0} ⦃io : Device D⦄ where
  abbrev pub exfat_pread : ℕ → ℕ → D → Option (List ℕ) × D
  exfat_pread size offset dev = io.pread size offset dev

  abbrev pub exfat_pwrite : List ℕ → ℕ → D → Bool × D
  exfat_pwrite buffer offset dev = io.pwrite buffer offset dev

-- What the system promises of a stream over the same bytes, where `place` is the one of the next
-- write. A call of `lseek` or `fsync` changes no byte.
pub record IsStream {D : Type 0} (io : Stream D) (view : D → ℕ → ℕ) (place : D → ℕ) : Type 0 where
  pub sought :
      (offset : ℕ) (d : D) → (io.seek offset d).0 ≡ true → place (io.seek offset d).1 ≡ offset
  pub seek_kept : (offset : ℕ) (d : D) → view (io.seek offset d).1 ≡ view d
  pub sync_kept : (d : D) → view (io.sync d).1 ≡ view d
  pub stored :
      (buffer : List ℕ) (d : D)
      → (io.write buffer d).0 ≡ true
      → view (io.write buffer d).1 ≡ write_bytes (view d) buffer (place d)
  pub moved :
      (buffer : List ℕ) (d : D)
      → (io.write buffer d).0 ≡ true
      → place (io.write buffer d).1 ≡ place d + length buffer

-- A 32-bit number in little-endian order.
unfoldable pub le32_bytes : ℕ → List ℕ
le32_bytes v = v % 256 ∷ v / 256 % 256 ∷ v / 65536 % 256 ∷ v / 16777216 % 256 ∷ []

unfoldable pub le32_value : List ℕ → ℕ
le32_value (a ∷ b ∷ c ∷ d ∷ rest) = a + b * 256 + c * 65536 + d * 16777216
le32_value short = 0
