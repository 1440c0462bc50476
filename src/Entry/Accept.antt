-- ===== src/Entry/Accept.antt =====
-- What `parse_file_entries` of libexfat/node.c makes of the entries that `commit_entry` writes.
use nuclear_armageddon.Prelude.{
  ℕ, ◌+◌, ◌-◌, ◌*◌, ◌/◌, ◌%◌, ◌^◌, ◌≤◌, ◌<◌, ◌≡◌, refl, ap, ◌∙◌, bit_and, Bool, true, false, not,
  some, List, ◌∷◌, map, ◌==◌, take, u8, arith,
}
use nuclear_armageddon.Prelude.Int.{ℤ}
use nuclear_armageddon.Bitmap.{div_round_up}
use nuclear_armageddon.Exfat.{SuperBlock}
use nuclear_armageddon.Time.{Stamp, exfat_exfat2unix}
use nuclear_armageddon.Checksum.{exfat_calc_checksum}
use nuclear_armageddon.Checksum.Detect.{exfat_calc_checksum-lt}
use nuclear_armageddon.Entry.{
  Meta1, Meta2, FileNode, entry_file, entry_file_info, ename_max, init_node_meta1, init_node_meta2,
  flag_contiguous, init_node_name, check_node, parse_file_entries,
}
use nuclear_armageddon.Entry.Codec.{
  byte, meta1_at, meta2_at, name_at, entries_for_name, new_meta1, new_meta2, sealed, new_entries,
  parse_entries,
}
use nuclear_armageddon.Entry.Checks.{types_checked, accepted, sealed_lem, empty_checked}

word_again : (v : ℕ) → v < 2 ^ 16 → v % 256 + v / 256 % 256 * 256 ≡ v
word_again v h = omega (arith, h)

byte_again : (v : ℕ) → v < 256 → u8 v ≡ v
byte_again v h = omega (arith, h)

module _ (name : List ℕ) (n hash attrib : ℕ) (created : Stamp) where
  abbrev k : ℕ
  k = div_round_up n ename_max

  abbrev others : List (List ℕ)
  others = new_meta2 n hash ∷ entries_for_name k name

  abbrev first : List ℕ
  first = sealed (new_meta1 k attrib created) others

  abbrev m1 : Meta1
  m1 = meta1_at first

  abbrev m2 : Meta2
  m2 = meta2_at (new_meta2 n hash)

  stored_checksum : exfat_calc_checksum first others ≡ m1.checksum
  unfolding sealed new_meta1 meta1_at
  stored_checksum =
      sealed_lem k attrib created others
      ∙ omega (arith, exfat_calc_checksum-lt (new_meta1 k attrib created) others)

  few : n ≤ 255 → k ≤ 17
  few h = omega (arith, h)

  continuations_lem : n ≤ 255 → m1.continuations ≡ 1 + k
  unfolding sealed new_meta1 meta1_at
  continuations_lem h = omega (arith, few h)

  attrib_lem : attrib < 2 ^ 16 → m1.attrib ≡ attrib
  unfolding sealed new_meta1 meta1_at
  attrib_lem h = omega (arith, h)

  length_lem : n ≤ 255 → m2.name_length ≡ n
  unfolding new_meta2 meta2_at
  length_lem h = omega (arith, h)

  stamp_lem :
      created.time < 2 ^ 16 → created.date < 2 ^ 16 → created.centisec < 256 → m1.modified ≡ created
  unfolding sealed new_meta1 meta1_at
  stamp_lem t d c =
      rw (word_again created.time t, word_again created.date d, byte_again created.centisec c) refl

  file_lem : byte 0 first ≡ entry_file
  unfolding sealed new_meta1
  file_lem = refl

  file_info_lem : byte 0 (new_meta2 n hash) ≡ entry_file_info
  unfolding new_meta2
  file_info_lem = refl

  flags_lem : (bit_and m2.flags 0xfc == 0) ≡ true
  unfolding new_meta2 meta2_at
  flags_lem = refl

  some_names : 0 < n → 0 < k
  some_names h = omega (arith, h)

  module _ (zone : ℤ) (sb : SuperBlock) (node : FileNode) (repaired : Bool) where
    abbrev kept_names : List (List ℕ)
    kept_names =
        take (2 + div_round_up m2.name_length ename_max - 2) (map name_at (entries_for_name k name))

    abbrev parsed : FileNode
    parsed = init_node_name (init_node_meta2 (init_node_meta1 zone node m1) m2) kept_names

    checked : check_node sb parsed (exfat_calc_checksum first others) m1 m2 repaired ≡ true
    unfolding init_node_name init_node_meta1 init_node_meta2 new_meta2 meta2_at
    checked =
        empty_checked sb parsed (exfat_calc_checksum first others) m1 m2 repaired stored_checksum
          refl refl refl refl

    parses :
        0 < n
        → n ≤ 255
        → parse_file_entries zone sb node
            (map (byte 0) (first ∷ others))
            m1
            m2
            (map name_at (entries_for_name k name))
            (exfat_calc_checksum first others)
            repaired
          ≡ some parsed
    parses pos h =
        accepted zone sb node (map (byte 0) (first ∷ others)) m1 m2
          (map name_at (entries_for_name k name)) (exfat_calc_checksum first others) repaired
          (types_checked k name first (new_meta2 n hash) (some_names pos) file_lem file_info_lem)
          (ground (arith, continuations_lem h, some_names pos)) flags_lem
          (rw (length_lem h, continuations_lem h) (ground arith)) checked

module _ (n hash : ℕ) where
  empty_size : (meta2_at (new_meta2 n hash)).size ≡ 0
  unfolding new_meta2 meta2_at
  empty_size = refl

  empty_start : (meta2_at (new_meta2 n hash)).start_cluster ≡ 0
  unfolding new_meta2 meta2_at
  empty_start = refl

  empty_contiguous : not (bit_and (meta2_at (new_meta2 n hash)).flags flag_contiguous == 0) ≡ false
  unfolding new_meta2 meta2_at
  empty_contiguous = refl

-- What a new file's node holds, all but its name.
pub record IsNewFile (zone : ℤ) (n attrib : ℕ) (created : Stamp) (f : FileNode) : Type 0 where
  pub attrib_is : f.attrib ≡ attrib
  pub continuations_is : f.continuations ≡ 1 + div_round_up n ename_max
  pub mtime_is : f.mtime ≡ exfat_exfat2unix zone created
  pub size_is : f.size ≡ 0
  pub start_is : f.start_cluster ≡ 0
  pub contiguous_is : f.is_contiguous ≡ false

-- The entries that `commit_entry` makes for a name of 1 to 255 units, attributes of 16 bits and a
-- time stamp in range are accepted by `parse_file_entries`, whatever the volume and the answer to a
-- repair are: their types come in the right order, there are enough of them, and their checksum is
-- the one that is stored. The node gets the attributes, the number of entries and the time that
-- they were made with, and is an empty file without clusters.
pub parse_file_entries-new_entries :
    (name : List ℕ) (n hash attrib : ℕ) (created : Stamp) (zone : ℤ) (sb : SuperBlock)
    (node : FileNode) (repaired : Bool)
    → 0 < n
    → n ≤ 255
    → attrib < 2 ^ 16
    → created.time < 2 ^ 16
    → created.date < 2 ^ 16
    → created.centisec < 256
    → (f : FileNode) × (parse_entries zone sb node (new_entries name n hash attrib created) repaired
        ≡ some f)
      × IsNewFile zone n attrib created f
unfolding new_entries init_node_name init_node_meta1 init_node_meta2
parse_file_entries-new_entries name n hash attrib created zone sb node repaired pos h a t d c = (
  parsed name n hash attrib created zone sb node repaired,
  parses name n hash attrib created zone sb node repaired pos h,
  record {
    attrib_is = attrib_lem name n hash attrib created a;
    continuations_is = continuations_lem name n hash attrib created h;
    mtime_is = ap (exfat_exfat2unix zone) (stamp_lem name n hash attrib created t d c);
    size_is = empty_size n hash;
    start_is = empty_start n hash;
    contiguous_is = empty_contiguous n hash;
  },
)
