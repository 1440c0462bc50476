-- ===== src/Tree/Rename.antt =====
-- `rename_entry` and `exfat_rename` of libexfat/node.c.
use mathlib.Core.Bool.{cond}
use nuclear_armageddon.Prelude.{
  ℕ, zero, suc, ◌+◌, ◌==◌, Bool, true, false, not, Option, none, some, List, [], ◌∷◌, take, get_or,
  u8,
}
use nuclear_armageddon.Result.{einval, enotdir, eisdir}
use nuclear_armageddon.Bitmap.{div_round_up}
use nuclear_armageddon.Exfat.{Device}
use nuclear_armageddon.Cluster.Transfer.{is_dir}
use nuclear_armageddon.Dir.{read_entries, write_entries}
use nuclear_armageddon.Entry.{ename_max}
use nuclear_armageddon.Entry.Codec.{
  le16_bytes, overwrite, split_entries, entries_for_name, sealed, joined,
}
use nuclear_armageddon.Tree.{
  T, ◌>>=◌, ◌>>◌, pure, fail, handle, undo, ending, ignore, asks, deref, out_of_rounds, fetch,
  modify, on_node, exfat_put_node, exfat_cleanup_node, tree_attach, tree_detach,
}
use nuclear_armageddon.Tree.Walk.{exfat_lookup, exfat_split}
use nuclear_armageddon.Tree.Flush.{exfat_flush_node, erase_node}
use nuclear_armageddon.Tree.Delete.{exfat_unlink, exfat_rmdir}
use nuclear_armageddon.Tree.Create.{find_slot_in, name_length_of, name_hash_of}

-- The two entries of meta information with another name, the name, and their checksum.
pub renamed_entries : List ℕ → ℕ → ℕ → List (List ℕ) → List (List ℕ)
renamed_entries name name_length name_hash entries =
    let name_entries = div_round_up name_length ename_max in
    let meta1 = overwrite 1 (u8 (1 + name_entries) ∷ []) (get_or entries 0 []) in
    let meta2 =
      overwrite 3 (u8 name_length ∷ [])
        (overwrite 4 (le16_bytes name_hash) (get_or entries 1 [])) in
    let others = meta2 ∷ entries_for_name name_entries name in sealed meta1 others ∷ others

module _ {D : Type 0} where
  -- The walk from a directory to the root: whether the node is on it.
  unfoldable pub is_above : ℕ → ℕ → Option ℕ → T D Bool
  is_above fuel p none = pure false
  is_above zero p (some q) = out_of_rounds
  is_above (suc fuel) p (some q) =
      cond (p == q) (pure true) (do x ← fetch q; is_above fuel p x.parent)

  abbrev pub put_both : ℕ → ℕ → T D (Unit {0})
  put_both dir p = exfat_put_node dir >> exfat_put_node p

  abbrev pub put_existing : Option ℕ → T D (Unit {0})
  put_existing none = pure tt
  put_existing (some q) = exfat_put_node q

  -- The target must not be a subdirectory of the source.
  unfoldable pub check_target : ℕ → ℕ → Option ℕ → T D (Unit {0})
  check_target p dir existing = do
    x ← fetch p
    fresh ← asks (λ t. t.fresh)
    above ← cond (is_dir x.core) (is_above (suc fresh) p (some dir)) (pure false)
    cond above (put_existing existing >> put_both dir p >> fail einval) (pure tt)

module _ {D : Type 0} ⦃io : Device D⦄ where
  unfoldable pub rename_entry : ℕ → ℕ → List ℕ → ℕ → T D (Unit {0})
  rename_entry dir p name new_offset = do
    name_length ← name_length_of name
    x ← fetch p
    parent ← deref x.parent
    now ← asks (λ t. t.now)
    bytes ← on_node parent (read_entries now 2 x.entry_offset)
    hash ← name_hash_of (take name_length name)
    erase_node p
    let name_entries = div_round_up name_length ename_max
    modify p (λ y. record y { entry_offset = new_offset; continuations = u8 (1 + name_entries) })
    let entries = renamed_entries name name_length hash (split_entries 2 bytes)
    on_node dir (write_entries now (joined entries) new_offset)
    modify p (λ y. record y { name = name })
    tree_detach p
    tree_attach dir p

  -- The removal of the node that has the new name; it must be of the same kind.
  unfoldable pub remove_target : ℕ → ℕ → T D (Unit {0})
  remove_target p q = do
    x ← fetch p
    y ← fetch q
    cond (is_dir y.core) (cond (is_dir x.core) (exfat_rmdir q) (fail enotdir))
        (cond (not (is_dir x.core)) (exfat_unlink q) (fail eisdir))

  -- Nothing is removed when both names are those of one node.
  unfoldable pub replace_target : ℕ → ℕ → ℕ → T D (Unit {0})
  replace_target p dir q = cond (q == p) (exfat_put_node q) (
      handle (remove_target p q)
        (λ e. do exfat_put_node q; ignore (exfat_cleanup_node q); put_both dir p; fail e)
        (λ u. do exfat_put_node q; undo (exfat_cleanup_node q) (put_both dir p)))

  abbrev pub replace_existing : ℕ → ℕ → Option ℕ → T D (Unit {0})
  replace_existing p dir none = pure tt
  replace_existing p dir (some q) = replace_target p dir q

  unfoldable pub exfat_rename : List ℕ → List ℕ → T D (Unit {0})
  exfat_rename old_path new_path = do
    p ← exfat_lookup old_path
    (dir, existing, name) ← undo (exfat_split new_path) (exfat_put_node p)
    check_target p dir existing
    replace_existing p dir existing
    length ← name_length_of name
    offset ← undo (find_slot_in dir (2 + div_round_up length ename_max)) (put_both dir p)
    undo (rename_entry dir p name offset) (put_both dir p)
    ending (exfat_flush_node dir) (put_both dir p)
