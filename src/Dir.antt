-- ===== src/Dir.antt =====
-- Entries of a directory as a whole, in libexfat/node.c: they are read and written 32 bytes each,
-- and the directory is cut off behind the last one in use. The node of the state is the directory.
mod Tests
pub mod Slot
pub mod Keeps
pub mod Shrunk
use mathlib.Core.Bool.{cond}
use nuclear_armageddon.Prelude.{
  ℕ, ◌+◌, ◌*◌, ◌/◌, ◌%◌, bit_and, true, Option, none, some, List, [], ◌∷◌, ltb, ◌==◌, if◌then◌else◌,
  length, take,
}
use nuclear_armageddon.Prelude.Int.{ℤ}
use nuclear_armageddon.Result.{ok, err, bug, out_of_fuel, eio, enoent}
use nuclear_armageddon.Bitmap.{div_round_up}
use nuclear_armageddon.Exfat.{Device, cluster_size}
use nuclear_armageddon.Utf.{utf16_to_utf8, utf16_length}
use nuclear_armageddon.Cluster.{M, ◌>>=◌, ◌>>◌, pure, fail, exfat_bug, gets}
use nuclear_armageddon.Cluster.Truncate.{exfat_truncate}
use nuclear_armageddon.Cluster.Transfer.{exfat_generic_pread, exfat_generic_pwrite}

abbrev pub entry_size : ℕ
entry_size = 32

-- A negative result of the call becomes -EIO.
abbrev pub as_eio : {D A : Type 0} → M D A → M D A
as_eio m s =
    let (r, s') = m s in
    elim r [
      | ok a ↦ (ok a, s')
      | err e ↦ (err eio, s')
      | bug ↦ (bug, s')
      | out_of_fuel ↦ (out_of_fuel, s')
    ]

abbrev pub check_dir : {D : Type 0} → M D (Unit {0})
check_dir = do file ← gets (λ s. bit_and s.node.attrib 0x10 == 0); cond file exfat_bug (pure tt)

-- The valid bit of the type of each entry is cleared; `i` counts the bytes of an entry.
pub clear_valid : ℕ → List ℕ → List ℕ
clear_valid i [] = []
clear_valid i (b ∷ bytes) =
    (if i % entry_size == 0 then bit_and b 0x7f else b) ∷ clear_valid (i + 1) bytes

-- A child of a directory: the offset of its entries, and its name with the terminator.
pub record Child : Type 0 where
  pub entry_offset : ℕ
  pub name : List ℕ

-- The loop over the children with the last one so far; `none` when one comes after the deleted one.
pub last_child : ℕ → Child → List Child → Option Child
last_child deleted_offset last [] = some last
last_child deleted_offset last (child ∷ children) =
    let rest =
      last_child deleted_offset (if ltb last.entry_offset child.entry_offset then child else last)
        children in
    if ltb deleted_offset child.entry_offset then none else rest

abbrev pub name_units : List ℕ → ℕ
name_units name = elim (utf16_length name) [ none ↦ 0 | some n ↦ n ]

-- How many entries there are up to the last one of this child.
pub entries_up_to : Child → ℕ
entries_up_to last = last.entry_offset / entry_size + 2 + div_round_up (name_units last.name) 15

abbrev pub entries_in_use : Option Child → ℕ
entries_in_use none = 0
entries_in_use (some last) = entries_up_to last

-- The new size for that number of entries and a size of clusters.
pub directory_size : ℕ → ℕ → ℕ
directory_size cluster entries =
    let size = div_round_up (entries * entry_size) cluster * cluster in
    if size == 0 then cluster else size

-- `exfat_get_name`; `none` is the call of `exfat_bug`.
pub exfat_get_name : List ℕ → Option (List ℕ)
exfat_get_name name = elim (utf16_to_utf8 (take 255 name) (255 * 3 + 1)) [
  | ok buffer ↦ some buffer
  | _ ↦ none
]

module _ {D : Type 0} ⦃io : Device D⦄ where
  unfoldable pub read_entries : ℤ → ℕ → ℕ → M D (List ℕ)
  read_entries now n offset = do
    check_dir
    bytes ← as_eio (exfat_generic_pread now (n * entry_size) offset)
    cond (length bytes == n * entry_size) (pure bytes)
        (cond (length bytes == 0) (fail enoent) (fail eio))

  unfoldable pub write_entries : ℤ → List ℕ → ℕ → M D (Unit {0})
  write_entries now entries offset = do
    check_dir
    size ← as_eio (exfat_generic_pwrite now entries offset)
    cond (size == length entries) (pure tt) (fail eio)

  unfoldable pub erase_entries : ℤ → ℕ → ℕ → M D (Unit {0})
  erase_entries now n offset = do
    entries ← read_entries now n offset
    write_entries now (clear_valid 0 entries) offset

  abbrev pub resize : ℤ → Option Child → M D (Unit {0})
  resize now last = do
    cluster ← gets (λ s. cluster_size s.ef.sb)
    size ← gets (λ s. s.node.size)
    let entries = entries_in_use last
    cond (directory_size cluster entries == size) (pure tt)
        (exfat_truncate now (directory_size cluster entries) true)

  -- Nothing is done when an entry comes after the deleted one.
  abbrev pub resize_last : ℤ → Option Child → M D (Unit {0})
  resize_last now none = pure tt
  resize_last now (some last) = resize now (some last)

  -- `children` is the list of nodes below the directory, which is cached.
  unfoldable pub shrink_directory : ℤ → List Child → ℕ → M D (Unit {0})
  shrink_directory now [] deleted_offset = check_dir >> resize now none
  shrink_directory now (child ∷ children) deleted_offset =
      check_dir >> resize_last now (last_child deleted_offset child (child ∷ children))
