-- ===== src/Entry/Tests.antt =====
-- Sequences of entries.
use nuclear_armageddon.Prelude.{ℕ, ◌≡◌, refl, true, false, some, List, [], ◌∷◌, All, arith}
use nuclear_armageddon.Prelude.Int.{pos}
use nuclear_armageddon.Exfat.{SuperBlock}
use nuclear_armageddon.Time.{Stamp}
use nuclear_armageddon.Entry.Codec.{new_entries, parse_entries}
use nuclear_armageddon.Entry.Accept.{IsNewFile, parse_file_entries-new_entries}
use nuclear_armageddon.Entry.{
  FileNode, check_from, check_entries, decompress_from, decompress_upcase,
}
use nuclear_armageddon.Entry.Order.{IsTail, file_types, check_entries-file_types}

abbrev two_names : List ℕ
two_names = 0x85 ∷ 0xc0 ∷ 0xc1 ∷ 0xc1 ∷ 0xe1 ∷ []

accepted : check_entries two_names ≡ true
unfolding check_entries check_from
accepted = refl

nameless : check_entries (0x85 ∷ 0xc0 ∷ 0xe1 ∷ []) ≡ false
unfolding check_entries check_from
nameless = refl

-- A run of three characters, then one letter.
decompress_upcase-run : decompress_upcase (0xffff ∷ 3 ∷ 0x41 ∷ []) 3 ≡ 0x41
unfolding decompress_upcase decompress_from
decompress_upcase-run = refl

check_entries-file_types_example :
    (names : ℕ) × (tails : List ℕ) × (two_names ≡ file_types names tails) × All IsTail tails
check_entries-file_types_example = check_entries-file_types two_names accepted

abbrev sb : SuperBlock
sb = record {
  fat_sector_start = 128;
  cluster_sector_start = 256;
  cluster_count = 6;
  sector_bits = 9;
  spc_bits = 0;
}

abbrev created : Stamp
created = record { date = 0x5921; time = 0x6c40; centisec = 100 }

abbrev empty : FileNode
empty = record {
  attrib = 0;
  continuations = 0;
  mtime = pos 0;
  atime = pos 0;
  size = 0;
  start_cluster = 0;
  fptr_cluster = 0;
  is_contiguous = false;
  name = [];
}

parse_file_entries-new_entries_example :
    (f : FileNode) × (parse_entries
        (pos 0)
        sb
        empty
        (new_entries (97 ∷ 98 ∷ 0 ∷ []) 2 77 0x20 created)
        false
      ≡ some f)
    × IsNewFile (pos 0) 2 0x20 created f
parse_file_entries-new_entries_example =
    parse_file_entries-new_entries (97 ∷ 98 ∷ 0 ∷ []) 2 77 0x20 created (pos 0) sb empty false
      (omega arith) (omega arith) (omega arith) (omega arith) (omega arith) (omega arith)
