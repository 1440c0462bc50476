-- ===== src/Tree/Flush.antt =====
-- What of a node goes to the disk: `exfat_flush_node` and `erase_node` of libexfat/node.c, and
-- `exfat_flush_nodes` of libexfat/cluster.c.
use mathlib.Core.Bool.{cond}
use nuclear_armageddon.Prelude.{
  ℕ, zero, suc, ◌+◌, false, not, ◌&&◌, Option, none, some, List, [], ◌∷◌, ◌++◌, map, ◌==◌,
  if◌then◌else◌, drop, get_or, u8,
}
use nuclear_armageddon.Result.{eio}
use nuclear_armageddon.Exfat.{Device, Node, le32_bytes}
use nuclear_armageddon.Time.{Stamp, exfat_unix2exfat}
use nuclear_armageddon.Entry.{check_entries, flag_contiguous}
use nuclear_armageddon.Entry.Codec.{
  byte, le16_bytes, le64_bytes, overwrite, split_entries, sealed, joined, flag_always1,
}
use nuclear_armageddon.Cluster.Truncate.{exfat_flush}
use nuclear_armageddon.Dir.{read_entries, write_entries, erase_entries}
use nuclear_armageddon.Tree.{
  T, ◌>>=◌, ◌>>◌, pure, fail, undo, ending, exfat_bug, asks, deref, defined, out_of_rounds, fetch,
  modify_core, on_node, exfat_get_node, exfat_put_node,
}

-- The first entry with what the node holds.
pub update_meta1 : Node → Stamp → Stamp → List ℕ → List ℕ
update_meta1 n modified accessed meta1 =
    let with_attrib = overwrite 4 (le16_bytes n.attrib) meta1 in
    let with_mtime =
      overwrite 21 (u8 modified.centisec ∷ [])
        (overwrite 12 (le16_bytes modified.time ++ le16_bytes modified.date) with_attrib) in
    overwrite 16 (le16_bytes accessed.time ++ le16_bytes accessed.date) with_mtime

-- Empty files must not be marked as contiguous.
pub update_meta2 : Node → List ℕ → List ℕ
update_meta2 n meta2 =
    let flags =
      (if not (n.size == 0) && n.is_contiguous
        then flag_always1 + flag_contiguous
        else flag_always1) in
    overwrite 1 (flags ∷ []) (
      overwrite 20 (le32_bytes n.start_cluster)
        (overwrite 24 (le64_bytes n.size) (overwrite 8 (le64_bytes n.size) meta2)))

-- The entries of a file with what the node holds, and their new checksum.
pub update_entries : Node → Stamp → Stamp → List (List ℕ) → List (List ℕ)
update_entries n modified accessed entries =
    let meta1 = update_meta1 n modified accessed (get_or entries 0 []) in
    let others = update_meta2 n (get_or entries 1 []) ∷ drop 2 entries in
    sealed meta1 others ∷ others

module _ {D : Type 0} ⦃io : Device D⦄ where
  -- The part that writes, for a dirty node in a directory.
  unfoldable pub flush_to : ℕ → ℕ → T D (Unit {0})
  flush_to parent p = do
    now ← asks (λ t. t.now)
    zone ← asks (λ t. t.zone)
    x ← fetch p
    let n = 1 + x.continuations
    bytes ← on_node parent (read_entries now n x.entry_offset)
    let entries = split_entries n bytes
    cond (check_entries (map (byte 0) entries)) (pure tt) (fail eio)
    y ← fetch p
    modified ← defined (exfat_unix2exfat zone y.core.mtime)
    accessed ← defined (exfat_unix2exfat zone y.core.atime)
    on_node parent (
        write_entries now (joined (update_entries y.core modified accessed entries)) y.entry_offset)
    modify_core p (λ n. record n { is_dirty = false })
    on_node p exfat_flush

  unfoldable pub exfat_flush_node : ℕ → T D (Unit {0})
  exfat_flush_node p = do
    x ← fetch p
    ro ← asks (λ t. t.ef.ro)
    cond (not x.core.is_dirty) (pure tt)
        (cond ro exfat_bug (elim x.parent [ none ↦ pure tt | some parent ↦ flush_to parent p ]))

  -- The loop over siblings, with what flushes one.
  unfoldable pub flush_siblings : (ℕ → T D (Unit {0})) → ℕ → Option ℕ → T D (Unit {0})
  flush_siblings flush fuel none = pure tt
  flush_siblings flush zero (some p) = out_of_rounds
  flush_siblings flush (suc fuel) (some p) = do
    flush p
    x ← fetch p
    flush_siblings flush fuel x.next

  -- No node is deeper in the tree, and none has more children, than there are nodes.
  unfoldable pub flush_nodes : ℕ → ℕ → T D (Unit {0})
  flush_nodes zero p = out_of_rounds
  flush_nodes (suc fuel) p = do
    x ← fetch p
    fresh ← asks (λ t. t.fresh)
    flush_siblings (flush_nodes fuel) (suc fresh) x.child
    exfat_flush_node p

  unfoldable pub exfat_flush_nodes : T D (Unit {0})
  exfat_flush_nodes = do
    root ← asks (λ t. t.root)
    fresh ← asks (λ t. t.fresh)
    flush_nodes (suc fresh) root

  unfoldable pub erase_node : ℕ → T D (Unit {0})
  erase_node p = do
    now ← asks (λ t. t.now)
    x ← fetch p
    above ← deref x.parent
    parent ← exfat_get_node above
    undo (on_node parent (erase_entries now (1 + x.continuations) x.entry_offset))
        (exfat_put_node parent)
    ending (exfat_flush_node parent) (exfat_put_node parent)
