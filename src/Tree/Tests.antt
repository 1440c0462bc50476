-- ===== src/Tree/Tests.antt =====
-- A directory with two children, a node to link to it, and a file that has been unlinked.
use nuclear_armageddon.Prelude.{
  ℕ, zero, suc, ◌<◌, ◌^◌, get_or, ◌≡◌, refl, true, false, none, some, [], ◌∷◌, ◌==◌, if◌then◌else◌,
  arith,
}
use nuclear_armageddon.Prelude.Int.{pos, ◌-ℤ◌}
use nuclear_armageddon.Result.{ok}
use nuclear_armageddon.Exfat.{Device}
use nuclear_armageddon.Utf.{utf8_to_utf16, to_utf16_loop, utf8_to_wchar, wchar_to_utf16, terminate}
use nuclear_armageddon.Lookup.{compare_char, compare_name}
use nuclear_armageddon.Repair.{repair_no}
use nuclear_armageddon.Tree.{
  mode_rw, Inode, Tree, empty_node, empty_core, tree_attach, tree_detach, exfat_cleanup_node,
}
use nuclear_armageddon.Tree.Siblings.{HasChildren, Relinks}
use nuclear_armageddon.Tree.Attach.{tree_attach_lem}
use nuclear_armageddon.Tree.Detach.{tree_detach_lem}
use nuclear_armageddon.Tree.Walk.{lookup_name}
use nuclear_armageddon.Tree.Find.{Answers, Looked}
use nuclear_armageddon.Cluster.Allocate.{IsCmap}
use nuclear_armageddon.Tree.Cleanup.{Frees, exfat_cleanup_node-Frees}
use nuclear_armageddon.Tree.Named.{lookup_name_lem}

-- A device that fails each call.
instance broken : Device (Unit {0})
broken = record { pread = λ size offset d. (none, d); pwrite = λ buffer offset d. (false, d) }

abbrev directory : Inode
directory = record empty_node {
  core = record empty_core { references = 1; size = 512; attrib = 0x10 };
  child = some 1;
  is_cached = true;
}

abbrev first_child : Inode
first_child = record empty_node {
  core = record empty_core { attrib = 0x20 };
  parent = some 0;
  next = some 2;
  name = 97 ∷ 0 ∷ [];
}

abbrev second_child : Inode
second_child = record empty_node {
  core = record empty_core { attrib = 0x20 };
  parent = some 0;
  prev = some 1;
  name = 98 ∷ 0 ∷ [];
}

abbrev pub tree : Tree (Unit {0})
tree = record {
  ef = record {
    dev = tt;
    sb = record {
      fat_sector_start = 128;
      cluster_sector_start = 256;
      cluster_count = 6;
      sector_bits = 9;
      spc_bits = 0;
    };
    cmap = record { start_cluster = 2; size = 6; chunk = 0x0d ∷ []; chunk_size = 6; dirty = false };
    ro = false;
    noatime = false;
  };
  upcase = some (λ c. if c == 97 then 65 else if c == 98 then 66 else c);
  root = 0;
  label = 0 ∷ [];
  repair = repair_no;
  heap = λ p.
      if p == 0
      then some directory
      else if p == 1
      then some first_child
      else if p == 2
      then some second_child
      else if p == 3
      then some empty_node
      else none;
  fresh = 4;
  gives = λ n. true;
  now = pos 7;
  zone = pos 0;
  input = [];
  errors_fixed = 0;
  mounting = record {
    boot = [];
    mode = mode_rw;
    dev_size = 1048576;
    dmask = pos 0;
    fmask = pos 0;
    uid = pos 0;
    gid = pos 0;
  };
}

abbrev two_children : HasChildren tree.heap 0 (1 ∷ 2 ∷ [])
two_children = record {
  node = directory;
  here = refl;
  chain = (refl, (first_child, refl, refl, refl, (refl, (second_child, refl, refl, refl, refl))));
  others = ((λ e. omega (arith, e)), ((λ e. omega (arith, e)), tt));
  distinct = (((λ e. omega (arith, e)), tt), (tt, tt));
}

tree_attach_lem_example : Relinks tree 0 (3 ∷ 1 ∷ 2 ∷ []) (tree_attach 0 3 tree)
tree_attach_lem_example =
    tree_attach_lem tree 0 3 (1 ∷ 2 ∷ []) empty_node two_children refl refl refl
      (λ e. omega (arith, e)) ((λ e. omega (arith, e)), ((λ e. omega (arith, e)), tt))

tree_detach_lem_example : Relinks tree 0 (1 ∷ []) (tree_detach 2 tree)
tree_detach_lem_example = tree_detach_lem tree 0 2 (1 ∷ []) [] two_children

abbrev table : ℕ → ℕ
table = λ c. if c == 97 then 65 else if c == 98 then 66 else c

-- The name is "B".
encoded : utf8_to_utf16 (66 ∷ []) 256 ≡ ok (66 ∷ 0 ∷ [])
unfolding utf8_to_utf16 to_utf16_loop utf8_to_wchar wchar_to_utf16 terminate
encoded = refl

first_differs : Answers table (66 ∷ 0 ∷ []) tree.heap 1 false
unfolding compare_name compare_char ◌-ℤ◌
first_differs = (first_child, pos 1, refl, refl, refl)

second_same : Answers table (66 ∷ 0 ∷ []) tree.heap 2 true
unfolding compare_name compare_char ◌-ℤ◌
second_same = (second_child, pos 0, refl, refl, refl)

lookup_name_lem_example :
    Looked table (66 ∷ 0 ∷ []) tree (1 ∷ 2 ∷ []) (lookup_name 0 (66 ∷ []) tree)
lookup_name_lem_example =
    lookup_name_lem tree 0 (1 ∷ 2 ∷ []) (66 ∷ []) (66 ∷ 0 ∷ []) table two_children refl refl encoded
      (omega arith) ((false, first_differs), ((true, second_same), tt))

abbrev removed_file : Inode
removed_file = record empty_node {
  core = record empty_core {
    start_cluster = 4;
    fptr_cluster = 4;
    is_contiguous = true;
    size = 512;
  };
  is_unlinked = true;
}

abbrev after_unlink : Tree (Unit {0})
after_unlink = record tree { heap = λ p. if p == 5 then some removed_file else none }

chunk_words : (i : ℕ) → get_or after_unlink.ef.cmap.chunk i 0 < 2 ^ 64
chunk_words zero = omega arith
chunk_words (suc i) = omega arith

cmap-IsCmap : IsCmap after_unlink.ef.cmap
cmap-IsCmap = record {
  whole = refl;
  small = omega arith;
  bits = record { room = omega arith; words = chunk_words };
}

exfat_cleanup_node-Frees_example : Frees 5 (exfat_cleanup_node 5 after_unlink)
exfat_cleanup_node-Frees_example =
    exfat_cleanup_node-Frees 5 after_unlink removed_file refl refl refl cmap-IsCmap
