-- ===== src/Entry/Checks.antt =====
-- How entries pass the checks of `parse_file_entries` in libexfat/node.c.
use nuclear_armageddon.Prelude.{
  ℕ, zero, suc, ◌+◌, ◌-◌, ◌*◌, ◌%◌, ◌<◌, ◌≡◌, refl, ap, ◌∙◌, bit_and, Bool, true, false, not, ◌&&◌,
  some, List, ◌∷◌, map, ltb, ◌==◌, take, drop, set, arith,
}
use nuclear_armageddon.Prelude.Int.{ℤ}
use nuclear_armageddon.Bitmap.{div_round_up}
use nuclear_armageddon.Exfat.{SuperBlock, cluster_size}
use nuclear_armageddon.Time.{Stamp}
use nuclear_armageddon.Checksum.{exfat_calc_checksum}
use nuclear_armageddon.Checksum.Detect.{exfat_calc_checksum-lt, exfat_calc_checksum-store_checksum}
use nuclear_armageddon.Entry.{
  Meta1, Meta2, FileNode, check_from, check_entries, entry_file, entry_file_info, entry_file_name,
  ename_max, init_node_meta1, init_node_meta2, attrib_dir, init_node_name, check_node,
  parse_file_entries,
}
use nuclear_armageddon.Entry.Codec.{byte, name_entry, entries_for_name, new_meta1, sealed}

names_checked :
    (n : ℕ) (units : List ℕ)
    → check_from (some entry_file_name) (map (byte 0) (entries_for_name n units)) ≡ true
unfolding check_from entries_for_name name_entry
names_checked zero units = refl
names_checked (suc n) units = names_checked n (drop ename_max units)

pub types_checked :
    (n : ℕ) (units meta1 meta2 : List ℕ)
    → 0 < n
    → byte 0 meta1 ≡ entry_file
    → byte 0 meta2 ≡ entry_file_info
    → check_entries (map (byte 0) (meta1 ∷ meta2 ∷ entries_for_name n units)) ≡ true
unfolding check_entries check_from entries_for_name name_entry
types_checked zero units meta1 meta2 h e f = absurd (omega (arith, h))
types_checked (suc n) units meta1 meta2 h e f = rw (e, f) (names_checked n (drop ename_max units))

-- Each test lets the entries pass.
pub accepted :
    (zone : ℤ) (sb : SuperBlock) (node : FileNode) (types : List ℕ) (m1 : Meta1) (m2 : Meta2)
    (names : List (List ℕ)) (sum : ℕ) (repaired : Bool)
    → check_entries types ≡ true
    → ltb m1.continuations 2 ≡ false
    → (bit_and m2.flags 0xfc == 0) ≡ true
    → ltb m1.continuations (2 + div_round_up m2.name_length ename_max - 1) ≡ false
    → check_node sb
        (init_node_name
          (init_node_meta2 (init_node_meta1 zone node m1) m2)
          (take (2 + div_round_up m2.name_length ename_max - 2) names))
        sum
        m1
        m2
        repaired
      ≡ true
    → parse_file_entries zone sb node types m1 m2 names sum repaired
      ≡ some (
          init_node_name
            (init_node_meta2 (init_node_meta1 zone node m1) m2)
            (take (2 + div_round_up m2.name_length ename_max - 2) names))
unfolding parse_file_entries
accepted zone sb node types m1 m2 names sum repaired a b c d e = rw (a, b, c, d, e) refl

-- Storing the checksum does not change it.
pub sealed_lem :
    (k attrib : ℕ) (created : Stamp) (others : List (List ℕ))
    → exfat_calc_checksum (sealed (new_meta1 k attrib created) others) others
      ≡ exfat_calc_checksum (new_meta1 k attrib created) others
unfolding sealed new_meta1
sealed_lem k attrib created others =
    let meta1 = new_meta1 k attrib created in
    let c = exfat_calc_checksum meta1 others in
    ap (λ h. exfat_calc_checksum (set (set meta1 2 (c % 256)) 3 h) others)
      (omega (arith, exfat_calc_checksum-lt meta1 others))
    ∙ exfat_calc_checksum-store_checksum meta1 others c

and_false : (b : Bool) → (b && false) ≡ false
and_false true = refl
and_false false = refl

same_number : (n : ℕ) → (n == n) ≡ true
same_number n = ground arith

none_below : (n : ℕ) → ltb n 0 ≡ false
none_below n = ground arith

zero_mod : (c : ℕ) → (0 % c == 0) ≡ true
zero_mod c = ground arith

-- An empty file without clusters passes, when its checksum is right.
pub empty_checked :
    (sb : SuperBlock) (node : FileNode) (sum : ℕ) (m1 : Meta1) (m2 : Meta2) (repaired : Bool)
    → sum ≡ m1.checksum
    → m2.valid_size ≡ 0
    → node.size ≡ 0
    → node.start_cluster ≡ 0
    → node.is_contiguous ≡ false
    → check_node sb node sum m1 m2 repaired ≡ true
unfolding check_node
empty_checked sb node sum m1 m2 repaired e v z s c =
    rw
      (
        e,
        v,
        z,
        s,
        c,
        zero_mod (cluster_size sb),
        same_number m1.checksum,
        none_below (sb.cluster_count * cluster_size sb),
        and_false (not (bit_and node.attrib attrib_dir == 0)),
      )
      refl
