-- ===== src/Entry.antt =====
-- The entries of a file in its directory: the checks and the decoding of libexfat/node.c, on the
-- structures of libexfat/exfatfs.h. Numbers of several bytes are given as CPU values.
mod Tests
pub mod Order
pub mod Codec
pub mod Checks
pub mod Accept
use nuclear_armageddon.Prelude.{
  ℕ, zero, suc, ◌+◌, ◌-◌, ◌*◌, ◌/◌, ◌%◌, bit_and, Bool, true, false, not, ◌&&◌, ◌||◌, Option, none,
  some, List, [], ◌∷◌, ◌++◌, map, ltb, leb, ◌==◌, if◌then◌else◌, take, drop, length, u16, set,
}
use nuclear_armageddon.Prelude.Int.{ℤ}
use nuclear_armageddon.Bitmap.{div_round_up}
use nuclear_armageddon.Exfat.{SuperBlock, cluster_free, cluster_size, cluster_invalid}
use nuclear_armageddon.Time.{Stamp, exfat_exfat2unix}

abbrev pub entry_file : ℕ
entry_file = 0x85

abbrev pub entry_file_info : ℕ
entry_file_info = 0xc0

abbrev pub entry_file_name : ℕ
entry_file_name = 0xc1

abbrev pub entry_file_tail : ℕ
entry_file_tail = 0xe0

-- Whether a type may come next; `none` is EXFAT_ENTRY_NONE, before the first entry and past the
-- last. Types of other entries have no case in the switch, and nothing may follow them.
abbrev pub is_type : ℕ → Option ℕ → Bool
is_type t none = false
is_type t (some current) = current == t

abbrev pub is_tail : Option ℕ → Bool
is_tail none = false
is_tail (some current) = leb entry_file_tail current

abbrev pub is_none : Option ℕ → Bool
is_none none = true
is_none (some current) = false

abbrev pub valid_after : Option ℕ → Option ℕ → Bool
valid_after none current = is_type entry_file current
valid_after (some previous) current =
    if previous == entry_file
    then is_type entry_file_info current
    else if previous == entry_file_info
    then is_type entry_file_name current
    else if previous == entry_file_name
    then is_type entry_file_name current || is_none current || is_tail current
    else if leb entry_file_tail previous && leb previous 0xff
    then is_tail current || is_none current
    else false

-- The loop after the type `previous`.
pub check_from : Option ℕ → List ℕ → Bool
check_from previous [] = valid_after previous none
check_from previous (t ∷ types) =
    let rest = check_from (some t) types in if valid_after previous (some t) then rest else false

-- The argument is the list of the types of the `n` entries.
pub check_entries : List ℕ → Bool
check_entries types = check_from none types

-- `struct exfat_entry_meta1` and `struct exfat_entry_meta2`, what the library reads of them.
pub record Meta1 : Type 0 where
  pub continuations : ℕ
  pub checksum : ℕ
  pub attrib : ℕ
  pub modified : Stamp
  pub accessed : Stamp

pub record Meta2 : Type 0 where
  pub flags : ℕ
  pub name_length : ℕ
  pub valid_size : ℕ
  pub start_cluster : ℕ
  pub size : ℕ

-- What these entries set of `struct exfat_node`.
pub record FileNode : Type 0 where
  pub attrib : ℕ
  pub continuations : ℕ
  pub mtime : ℤ
  pub atime : ℤ
  pub size : ℕ
  pub start_cluster : ℕ
  pub fptr_cluster : ℕ
  pub is_contiguous : Bool
  pub name : List ℕ

-- `adate` and `atime` come without centiseconds.
pub init_node_meta1 : ℤ → FileNode → Meta1 → FileNode
init_node_meta1 exfat_timezone node meta1 = record node {
  attrib = meta1.attrib;
  continuations = meta1.continuations;
  mtime = exfat_exfat2unix exfat_timezone meta1.modified;
  atime = exfat_exfat2unix exfat_timezone (record (meta1.accessed) { centisec = 0 });
}

abbrev pub flag_contiguous : ℕ
flag_contiguous = 2

pub init_node_meta2 : FileNode → Meta2 → FileNode
init_node_meta2 node meta2 = record node {
  size = meta2.size;
  start_cluster = meta2.start_cluster;
  fptr_cluster = meta2.start_cluster;
  is_contiguous = not (bit_and meta2.flags flag_contiguous == 0);
}

abbrev pub ename_max : ℕ
ename_max = 15

-- The names of the entries from place `i` on, each copied over the same number of units.
pub copy_names : List ℕ → ℕ → List (List ℕ) → List ℕ
copy_names name i [] = name
copy_names name i (part ∷ parts) =
    copy_names
      (take (i * ename_max) name ++ (take ename_max part ++ drop ((i + 1) * ename_max) name))
      (i + 1) parts

pub init_node_name : FileNode → List (List ℕ) → FileNode
init_node_name node parts = record node { name = copy_names node.name 0 parts }

abbrev pub attrib_dir : ℕ
attrib_dir = 0x10

-- `repaired` is the answer of EXFAT_REPAIR, asked only when the checksum differs.
pub check_node : SuperBlock → FileNode → ℕ → Meta1 → Meta2 → Bool → Bool
check_node sb node actual_checksum meta1 meta2 repaired =
    ((actual_checksum == meta1.checksum) || repaired)
    && not (ltb node.size meta2.valid_size)
    && not ((node.size == 0) && not (node.start_cluster == cluster_free))
    && not (ltb 0 node.size && cluster_invalid sb node.start_cluster)
    && not (ltb (sb.cluster_count * cluster_size sb) node.size)
    && not ((node.size == 0) && node.is_contiguous)
    && not (not (bit_and node.attrib attrib_dir == 0) && not (node.size % cluster_size sb == 0))

-- The entries of a file once read: the types of all, the two of meta information, the names, and
-- the checksum of all their bytes. `none` is -EIO.
pub parse_file_entries :
    ℤ → SuperBlock → FileNode → List ℕ → Meta1 → Meta2 → List (List ℕ) → ℕ → Bool → Option FileNode
parse_file_entries exfat_timezone sb node types meta1 meta2 names actual_checksum repaired =
    let mandatory_entries = 2 + div_round_up meta2.name_length ename_max in
    let parsed =
      init_node_name (init_node_meta2 (init_node_meta1 exfat_timezone node meta1) meta2)
        (take (mandatory_entries - 2) names) in
    if not (check_entries types)
    then none
    else if ltb meta1.continuations 2
    then none
    else if not (bit_and meta2.flags 0xfc == 0)
    then none
    else if ltb meta1.continuations (mandatory_entries - 1)
    then none
    else if not (check_node sb parsed actual_checksum meta1 meta2 repaired)
    then none
    else some parsed

abbrev pub upcase_chars : ℕ
upcase_chars = 0x10000

-- The loop over the compressed table at output index `oi`; the state is the table so far.
pub decompress_from : (ℕ → ℕ) → ℕ → List ℕ → ℕ → ℕ
decompress_from output oi [] = output
decompress_from output oi (ch ∷ []) =
    if ltb oi upcase_chars then (λ c. if c == oi then ch else output c) else output
decompress_from output oi (ch ∷ run ∷ source) =
    let skipped = decompress_from output (oi + run) source in
    let written = decompress_from (λ c. if c == oi then ch else output c) (oi + 1) (run ∷ source) in
    if not (ltb oi upcase_chars) then output else if ch == 0xffff then skipped else written

pub decompress_upcase : List ℕ → ℕ → ℕ
decompress_upcase source = decompress_from (λ c. c) 0 source
