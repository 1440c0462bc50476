-- ===== src/Entry/Codec.antt =====
-- Entries of 32 bytes as they stand in a directory: the structures of libexfat/exfatfs.h, numbers
-- in little-endian order.
use nuclear_armageddon.Prelude.{
  ℕ, zero, suc, ◌+◌, ◌*◌, ◌/◌, ◌%◌, ◌^◌, Bool, Option, map, List, [], ◌∷◌, ◌++◌, take, drop, length,
  get_or, replicate, u8,
}
use nuclear_armageddon.Prelude.Int.{ℤ}
use nuclear_armageddon.Bitmap.{div_round_up}
use nuclear_armageddon.Exfat.{SuperBlock, le32_bytes}
use nuclear_armageddon.Time.{Stamp}
use nuclear_armageddon.Checksum.{exfat_calc_checksum}
use nuclear_armageddon.Entry.{
  FileNode, parse_file_entries, Meta1, Meta2, entry_file, entry_file_info, entry_file_name,
  ename_max,
}

abbrev pub byte : ℕ → List ℕ → ℕ
byte i bytes = get_or bytes i 0

abbrev pub le16_at : ℕ → List ℕ → ℕ
le16_at i bytes = byte i bytes + byte (i + 1) bytes * 256

abbrev pub le32_at : ℕ → List ℕ → ℕ
le32_at i bytes = le16_at i bytes + le16_at (i + 2) bytes * 65536

abbrev pub le64_at : ℕ → List ℕ → ℕ
le64_at i bytes = le32_at i bytes + le32_at (i + 4) bytes * 2 ^ 32

abbrev pub le16_bytes : ℕ → List ℕ
le16_bytes v = v % 256 ∷ v / 256 % 256 ∷ []

abbrev pub le64_bytes : ℕ → List ℕ
le64_bytes v = le32_bytes (v % 2 ^ 32) ++ le32_bytes (v / 2 ^ 32)

-- The bytes from place `i` on are replaced.
abbrev pub overwrite : ℕ → List ℕ → List ℕ → List ℕ
overwrite i new bytes = take i bytes ++ (new ++ drop (i + length new) bytes)

-- The first `n` entries.
pub split_entries : ℕ → List ℕ → List (List ℕ)
split_entries zero bytes = []
split_entries (suc n) bytes = take 32 bytes ∷ split_entries n (drop 32 bytes)

unfoldable pub meta1_at : List ℕ → Meta1
meta1_at bytes = record {
  continuations = byte 1 bytes;
  checksum = le16_at 2 bytes;
  attrib = le16_at 4 bytes;
  modified = record { date = le16_at 14 bytes; time = le16_at 12 bytes; centisec = byte 21 bytes };
  accessed = record { date = le16_at 18 bytes; time = le16_at 16 bytes; centisec = byte 22 bytes };
}

unfoldable pub meta2_at : List ℕ → Meta2
meta2_at bytes = record {
  flags = byte 1 bytes;
  name_length = byte 3 bytes;
  valid_size = le64_at 8 bytes;
  start_cluster = le32_at 20 bytes;
  size = le64_at 24 bytes;
}

-- The units from byte `i` on.
pub units_at : ℕ → ℕ → List ℕ → List ℕ
units_at zero i bytes = []
units_at (suc n) i bytes = le16_at i bytes ∷ units_at n (i + 2) bytes

-- The member `name` of a name or label entry.
abbrev pub name_at : List ℕ → List ℕ
name_at bytes = units_at ename_max 2 bytes

pub unit_bytes : List ℕ → List ℕ
unit_bytes [] = []
unit_bytes (u ∷ units) = u % 256 ∷ u / 256 % 256 ∷ unit_bytes units

abbrev pub padded : ℕ → List ℕ → List ℕ
padded n units = take n (units ++ replicate n 0)

unfoldable pub name_entry : List ℕ → List ℕ
name_entry units = entry_file_name ∷ 0 ∷ unit_bytes (padded ename_max units)

-- The loop over the name entries with the units that are left.
unfoldable pub entries_for_name : ℕ → List ℕ → List (List ℕ)
entries_for_name zero units = []
entries_for_name (suc n) units = name_entry units ∷ entries_for_name n (drop ename_max units)

-- The first entry of a new file, without its checksum; all three times are `created`.
unfoldable pub new_meta1 : ℕ → ℕ → Stamp → List ℕ
new_meta1 name_entries attrib created =
    entry_file
    ∷ u8 (1 + name_entries)
    ∷ 0
    ∷ 0
    ∷ attrib % 256
    ∷ attrib / 256 % 256
    ∷ 0
    ∷ 0
    ∷ created.time % 256
    ∷ created.time / 256 % 256
    ∷ created.date % 256
    ∷ created.date / 256 % 256
    ∷ created.time % 256
    ∷ created.time / 256 % 256
    ∷ created.date % 256
    ∷ created.date / 256 % 256
    ∷ created.time % 256
    ∷ created.time / 256 % 256
    ∷ created.date % 256
    ∷ created.date / 256 % 256
    ∷ u8 created.centisec
    ∷ u8 created.centisec
    ∷ replicate 10 0

abbrev pub flag_always1 : ℕ
flag_always1 = 1

unfoldable pub new_meta2 : ℕ → ℕ → List ℕ
new_meta2 name_length name_hash =
    entry_file_info
    ∷ flag_always1
    ∷ 0
    ∷ u8 name_length
    ∷ name_hash % 256
    ∷ name_hash / 256 % 256
    ∷ replicate 26 0

-- The first entry with the checksum of all.
unfoldable pub sealed : List ℕ → List (List ℕ) → List ℕ
sealed meta1 entries = overwrite 2 (le16_bytes (exfat_calc_checksum meta1 entries)) meta1

pub joined : List (List ℕ) → List ℕ
joined [] = []
joined (entry ∷ entries) = entry ++ joined entries

-- The entries that `commit_entry` writes for a name of this length and hash.
unfoldable pub new_entries : List ℕ → ℕ → ℕ → ℕ → Stamp → List (List ℕ)
new_entries name name_length name_hash attrib created =
    let name_entries = div_round_up name_length ename_max in
    let entries = new_meta2 name_length name_hash ∷ entries_for_name name_entries name in
    sealed (new_meta1 name_entries attrib created) entries ∷ entries

-- `parse_file_entries` on the entries as they stand, the first two with the meta information.
abbrev pub parse_entries : ℤ → SuperBlock → FileNode → List (List ℕ) → Bool → Option FileNode
parse_entries exfat_timezone sb node entries repaired =
    parse_file_entries exfat_timezone sb node (map (byte 0) entries)
      (meta1_at (get_or entries 0 [])) (meta2_at (get_or entries 1 []))
      (map name_at (drop 2 entries)) (exfat_calc_checksum (get_or entries 0 []) (drop 1 entries))
      repaired
