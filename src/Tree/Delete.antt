-- ===== src/Tree/Delete.antt =====
-- `delete`, `exfat_unlink` and `exfat_rmdir` of libexfat/node.c.
use mathlib.Core.Bool.{cond}
use nuclear_armageddon.Prelude.{ℕ, zero, suc, true, Option, none, some, List, [], ◌∷◌, map}
use nuclear_armageddon.Result.{eisdir, enotdir, enotempty}
use nuclear_armageddon.Exfat.{Device}
use nuclear_armageddon.Cluster.Transfer.{is_dir}
use nuclear_armageddon.Dir.{Child, check_dir, shrink_directory}
use nuclear_armageddon.Tree.{
  Inode, T, ◌>>=◌, ◌>>◌, pure, fail, handle, undo, ending, ignore, exfat_bug, asks, deref,
  out_of_rounds, fetch, modify, is_some, on_node, exfat_get_node, exfat_put_node, tree_detach,
  exfat_update_mtime,
}
use nuclear_armageddon.Tree.Cache.{exfat_cache_directory}
use nuclear_armageddon.Tree.Flush.{exfat_flush_node, erase_node}

module _ {D : Type 0} where
  -- The list of siblings from a node on.
  unfoldable pub siblings : ℕ → Option ℕ → T D (List Inode)
  siblings fuel none = pure []
  siblings zero (some p) = out_of_rounds
  siblings (suc fuel) (some p) = do x ← fetch p; others ← siblings fuel x.next; pure (x ∷ others)

  unfoldable pub children : ℕ → T D (List Inode)
  children dir = do d ← fetch dir; fresh ← asks (λ t. t.fresh); siblings (suc fresh) d.child

abbrev pub as_child : Inode → Child
as_child x = record { entry_offset = x.entry_offset; name = x.name }

module _ {D : Type 0} ⦃io : Device D⦄ where
  -- `shrink_directory` of node.c, on the children that the directory has.
  unfoldable pub shrink_cached : ℕ → ℕ → T D (Unit {0})
  shrink_cached dir deleted_offset = do
    on_node dir check_dir
    d ← fetch dir
    cond d.is_cached (pure tt) exfat_bug
    now ← asks (λ t. t.now)
    xs ← children dir
    on_node dir (shrink_directory now (map as_child xs) deleted_offset)

  abbrev pub set_unlinked : ℕ → T D (Unit {0})
  set_unlinked p = modify p (λ x. record x { is_unlinked = true })

  unfoldable pub delete : ℕ → T D (Unit {0})
  delete p = do
    x ← fetch p
    above ← deref x.parent
    parent ← exfat_get_node above
    undo (erase_node p) (exfat_put_node parent)
    tree_detach p
    handle (shrink_cached parent x.entry_offset)
        (λ e. do set_unlinked p; ignore (exfat_flush_node parent); exfat_put_node parent; fail e)
        (λ u. do
          set_unlinked p
          exfat_update_mtime parent
          ending (exfat_flush_node parent) (exfat_put_node parent))

  unfoldable pub exfat_unlink : ℕ → T D (Unit {0})
  exfat_unlink p = do x ← fetch p; cond (is_dir x.core) (fail eisdir) (delete p)

  unfoldable pub exfat_rmdir : ℕ → T D (Unit {0})
  exfat_rmdir p = do
    x ← fetch p
    cond (is_dir x.core) (pure tt) (fail enotdir)
    exfat_cache_directory p
    y ← fetch p
    cond (is_some y.child) (fail enotempty) (delete p)
