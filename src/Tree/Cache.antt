-- ===== src/Tree/Cache.antt =====
-- The cache of a directory's nodes in libexfat/node.c: what is read of a directory, and how it is
-- given up again.
use mathlib.Core.Bool.{cond}
use nuclear_armageddon.Prelude.{
  ℕ, zero, suc, ◌+◌, ◌-◌, ◌*◌, ◌/◌, ◌%◌, bit_and, Bool, true, false, not, ◌&&◌, ◌||◌, Option, none,
  some, List, [], ◌∷◌, map, ltb, ◌==◌, drop, get_or, replicate,
}
use nuclear_armageddon.Prelude.Int.{pos}
use nuclear_armageddon.Result.{Errno, eio, enoent, enomem}
use nuclear_armageddon.Bitmap.{div_round_up}
use nuclear_armageddon.Exfat.{Device, cluster_invalid, exfat_pread}
use nuclear_armageddon.Utf.{utf16_to_utf8}
use nuclear_armageddon.Checksum.{exfat_calc_checksum}
use nuclear_armageddon.Entry.{
  Meta1, Meta2, FileNode, check_entries, decompress_upcase, ename_max, upcase_chars, entry_file,
}
use nuclear_armageddon.Entry.Codec.{
  byte, le32_at, le64_at, split_entries, meta1_at, meta2_at, parse_entries, name_at, units_at,
}
use nuclear_armageddon.Cluster.{on_dev}
use nuclear_armageddon.Cluster.Truncate.{offset_of, bmap_size}
use nuclear_armageddon.Cluster.Transfer.{exfat_generic_pwrite}
use nuclear_armageddon.Dir.{entry_size, read_entries, clear_valid}
use nuclear_armageddon.Tree.{
  Inode, T, ◌>>=◌, ◌>>◌, pure, fail, handle, undo, asks, change, call, out_of_rounds, fetch, modify,
  modify_core, on_node, malloc, allocate_node, free, ask_to_fix,
}

abbrev pub entry_bitmap : ℕ
entry_bitmap = 0x81

abbrev pub entry_upcase : ℕ
entry_upcase = 0x82

abbrev pub entry_label : ℕ
entry_label = 0x83

-- What a new node holds before its entries are parsed.
abbrev pub blank : FileNode
blank = record {
  attrib = 0;
  continuations = 0;
  mtime = pos 0;
  atime = pos 0;
  size = 0;
  start_cluster = 0;
  fptr_cluster = 0;
  is_contiguous = false;
  name = replicate 256 0;
}

-- The node with what its entries set.
abbrev pub filled : FileNode → Inode → Inode
filled f x = record x {
  continuations = f.continuations;
  name = f.name;
  core = record (x.core) {
    attrib = f.attrib;
    mtime = f.mtime;
    atime = f.atime;
    size = f.size;
    start_cluster = f.start_cluster;
    fptr_cluster = f.fptr_cluster;
    is_contiguous = f.is_contiguous;
  };
}

-- The entries get as far as the comparison of their checksum, and it is another one.
abbrev pub wrong_checksum : List ℕ → Meta1 → Meta2 → ℕ → Bool
wrong_checksum types meta1 meta2 actual_checksum =
    check_entries types
    && not (ltb meta1.continuations 2)
    && (bit_and meta2.flags 0xfc == 0)
    && not (ltb meta1.continuations (2 + div_round_up meta2.name_length ename_max - 1))
    && not (actual_checksum == meta1.checksum)

-- The words of 64 bits that the bytes are.
abbrev pub chunk_words : ℕ → List ℕ → List ℕ
chunk_words zero bytes = []
chunk_words (suc n) bytes = le64_at 0 bytes ∷ chunk_words n (drop 8 bytes)

module _ {D : Type 0} where
  abbrev pub count_fixed : T D (Unit {0})
  count_fixed = change (λ t. record t { errors_fixed = t.errors_fixed + 1 })

  -- EXFAT_REPAIR(invalid_node_checksum): the node is marked as dirty when the answer is yes.
  unfoldable pub repair_checksum : Bool → ℕ → T D Bool
  repair_checksum wrong p =
      cond wrong
        (do
          agreed ← ask_to_fix
          cond agreed (do modify_core p (λ n. record n { is_dirty = true }); count_fixed; pure true)
              (pure false))
        (pure false)

  -- `parse_file_entries` of node.c on the bytes of the entries.
  unfoldable pub parse_into : ℕ → List ℕ → ℕ → T D (Unit {0})
  parse_into p bytes n = do
    let entries = split_entries n bytes
    let types = map (byte 0) entries
    let meta1 = meta1_at (get_or entries 0 [])
    let meta2 = meta2_at (get_or entries 1 [])
    let actual_checksum = exfat_calc_checksum (get_or entries 0 []) (drop 1 entries)
    repaired ← repair_checksum (wrong_checksum types meta1 meta2 actual_checksum) p
    zone ← asks (λ t. t.zone)
    sb ← asks (λ t. t.ef.sb)
    let parsed = parse_entries zone sb blank entries repaired
    elim parsed [ none ↦ fail eio | some f ↦ modify p (filled f) ]

module _ {D : Type 0} ⦃io : Device D⦄ where
  -- The node and the offset behind its entries.
  unfoldable pub parse_file_entry : ℕ → ℕ → ℕ → T D (ℕ × ℕ)
  parse_file_entry parent offset n = do
    now ← asks (λ t. t.now)
    bytes ← on_node parent (read_entries now n offset)
    p ← allocate_node
    modify p (λ x. record x { entry_offset = offset })
    undo (parse_into p bytes n) (free p)
    pure (p, offset + n * entry_size)

  -- A read of the volume that no node takes part in.
  abbrev pub read_volume : ℕ → ℕ → ℕ → T D (List ℕ)
  read_volume dir size cluster = do
    offset ← on_node dir (offset_of cluster)
    found ← on_node dir (on_dev (exfat_pread size offset))
    elim found [ none ↦ fail eio | some bytes ↦ pure bytes ]

  unfoldable pub read_upcase : ℕ → List ℕ → T D (Unit {0})
  read_upcase dir entry = do
    known ← asks (λ t. t.upcase)
    elim known [
      | some table ↦ pure tt
      | none ↦ do
        let cluster = le32_at 20 entry
        let size = le64_at 24 entry
        invalid ← asks (λ t. cluster_invalid t.ef.sb cluster)
        cond invalid (fail eio) (pure tt)
        cond ((size == 0) || ltb (upcase_chars * 2) size || not (size % 2 == 0)) (fail eio)
            (pure tt)
        given ← malloc
        cond given (pure tt) (fail enomem)
        bytes ← read_volume dir size cluster
        given_table ← malloc
        cond given_table (pure tt) (fail enomem)
        change (λ t. record t { upcase = some (decompress_upcase (units_at (size / 2) 0 bytes)) })
    ]

  -- The members of `cmap` are set one by one, before the checks that follow them.
  unfoldable pub read_bitmap : ℕ → List ℕ → T D (Unit {0})
  read_bitmap dir entry = do
    let cluster = le32_at 20 entry
    change (λ t. record t {
      ef = record (t.ef) { cmap = record (t.ef.cmap) { start_cluster = cluster } };
    })
    invalid ← asks (λ t. cluster_invalid t.ef.sb cluster)
    cond invalid (fail eio) (pure tt)
    count ← asks (λ t. t.ef.sb.cluster_count)
    change (λ t. record t { ef = record (t.ef) { cmap = record (t.ef.cmap) { size = count } } })
    cond (ltb (le64_at 24 entry) (div_round_up count 8)) (fail eio) (pure tt)
    change
        (λ t. record t { ef = record (t.ef) { cmap = record (t.ef.cmap) { chunk_size = count } } })
    given ← malloc
    cond given (pure tt) (fail enomem)
    bytes ← read_volume dir (bmap_size count) cluster
    change (λ t. record t {
      ef = record (t.ef) {
        cmap = record (t.ef.cmap) { chunk = chunk_words (bmap_size count / 8) bytes };
      };
    })

  unfoldable pub read_label : List ℕ → T D (Unit {0})
  read_label entry = do
    cond (ltb ename_max (byte 1 entry)) (fail eio) (pure tt)
    handle (call (utf16_to_utf8 (name_at entry) (ename_max * 3 + 1))) (λ e. fail eio)
        (λ label. change (λ t. record t { label = label }))

  -- EXFAT_REPAIR(unknown_entry): the entry is written again without its valid bit.
  unfoldable pub fix_unknown_entry : ℕ → List ℕ → ℕ → T D (Unit {0})
  fix_unknown_entry dir entry offset = do
    agreed ← ask_to_fix
    cond agreed (pure tt) (fail eio)
    now ← asks (λ t. t.now)
    size ←
        handle (on_node dir (exfat_generic_pwrite now (clear_valid 0 entry) offset)) (λ e. fail eio)
          pure
    cond (size == entry_size) count_fixed (fail eio)

  -- An entry that is no file's.
  unfoldable pub other_entry : ℕ → List ℕ → ℕ → T D (Unit {0})
  other_entry dir entry offset = cond (byte 0 entry == entry_upcase) (read_upcase dir entry) (
      cond (byte 0 entry == entry_bitmap) (read_bitmap dir entry) (
        cond (byte 0 entry == entry_label) (read_label entry)
          (cond (bit_and (byte 0 entry) 0x80 == 0) (pure tt) (fix_unknown_entry dir entry offset))))

  abbrev pub readdir_round : (ℕ → T D (ℕ × ℕ)) → ℕ → ℕ → T D (ℕ × ℕ)
  readdir_round rest dir offset = do
    now ← asks (λ t. t.now)
    entry ← on_node dir (read_entries now 1 offset)
    cond (byte 0 entry == entry_file) (parse_file_entry dir offset (1 + byte 1 entry))
        (other_entry dir entry offset >> rest (offset + entry_size))

  -- The next file's node, and the offset behind it.
  unfoldable pub readdir : ℕ → ℕ → ℕ → T D (ℕ × ℕ)
  readdir zero dir offset = out_of_rounds
  readdir (suc fuel) dir offset = readdir_round (readdir fuel dir) dir offset

  -- The new node comes behind `current`.
  unfoldable pub append : ℕ → Option ℕ → ℕ → T D (Unit {0})
  append dir current p = do
    modify p (λ x. record x { parent = some dir })
    elim current [
      | none ↦ modify dir (λ d. record d { child = some p })
      | some c ↦ do
        modify c (λ x. record x { next = some p })
        modify p (λ x. record x { prev = some c })
    ]

  -- The loop that frees the children after an error.
  unfoldable pub free_children : ℕ → Option ℕ → T D (Unit {0})
  free_children fuel none = pure tt
  free_children zero (some p) = out_of_rounds
  free_children (suc fuel) (some p) = do x ← fetch p; free p; free_children fuel x.next

  unfoldable pub roll_back : ℕ → T D (Unit {0})
  roll_back dir = do
    d ← fetch dir
    fresh ← asks (λ t. t.fresh)
    free_children (suc fresh) d.child
    modify dir (λ x. record x { child = none })

  -- The end of the loop: -ENOENT means that no file is left.
  abbrev pub last_read : ℕ → Errno → T D (Unit {0})
  last_read dir enoent = modify dir (λ d. record d { is_cached = true })
  last_read dir e = roll_back dir >> fail e

  -- The loop over the files. A round reads on by one entry at least, and none is left at the end.
  unfoldable pub cache_loop : ℕ → ℕ → ℕ → Option ℕ → ℕ → T D (Unit {0})
  cache_loop rounds zero dir current offset = out_of_rounds
  cache_loop rounds (suc fuel) dir current offset =
      handle (readdir rounds dir offset) (last_read dir)
        (λ r. do append dir current r.0; cache_loop rounds fuel dir (some r.0) r.1)

  unfoldable pub exfat_cache_directory : ℕ → T D (Unit {0})
  exfat_cache_directory dir = do
    d ← fetch dir
    cond d.is_cached (pure tt)
        (cache_loop (d.core.size / entry_size + 2) (d.core.size / entry_size + 2) dir none 0)
