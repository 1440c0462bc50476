-- ===== src/Fsck.antt =====
-- fsck/main.c: the walk over all directories. A path is a string of bytes without its terminator;
-- the two counters are the result.
mod Tests
pub mod Node
pub mod Clusters
use mathlib.Core.Bool.{cond}
use nuclear_armageddon.Prelude.{
  ℕ, zero, suc, ◌+◌, Bool, true, false, not, Option, none, some, List, [], ◌∷◌, ◌++◌, ◌==◌,
}
use nuclear_armageddon.Exfat.{Stream, Device}
use nuclear_armageddon.Dir.{exfat_get_name}
use nuclear_armageddon.Tree.{
  T, ◌>>=◌, ◌>>◌, pure, handle, ignore, asks, exfat_bug, out_of_rounds, fetch, on_node, malloc,
  exfat_put_node,
}
use nuclear_armageddon.Tree.Open.{System}
use nuclear_armageddon.Tree.Walk.{exfat_lookup, exfat_opendir, exfat_readdir, exfat_closedir}
use nuclear_armageddon.Tree.Flush.{exfat_flush_node}
use nuclear_armageddon.Tree.Options.{Caller}
use nuclear_armageddon.Tree.Mount.{exfat_mount, exfat_unmount}
use nuclear_armageddon.Fuse.{is_directory, name_of}
use nuclear_armageddon.Fsck.Node.{nodeck}

-- The counts of directories and of files.
abbrev pub Counts : Type 0
Counts = ℕ × ℕ

abbrev pub add_counts : Counts → Counts → Counts
add_counts (a, b) (c, d) = (a + c, b + d)

module _ {D : Type 0} ⦃io : Device D⦄ where
  unfoldable pub check_at : ℕ → T D ℕ
  check_at p = do x ← fetch p; on_node p (nodeck (exfat_get_name x.name))

  -- What is done with a child, given the walk over the directory at a path.
  unfoldable pub check_child : (List ℕ → T D Counts) → List ℕ → ℕ → T D Counts
  check_child walk path node = do
    name ← name_of node
    x ← fetch node
    counts ←
        cond (is_directory x)
          (do below ← walk (path ++ (0x2f ∷ name)); pure (add_counts (1, 0) below))
          (do rc ← check_at node; pure (0, 1))
    ignore (exfat_flush_node node)
    exfat_put_node node
    pure counts

  -- The loop over the children; it gets one round more than there are addresses of nodes.
  unfoldable pub check_children : (List ℕ → T D Counts) → List ℕ → ℕ → ℕ → Option ℕ → T D Counts
  check_children walk path zero parent current = out_of_rounds
  check_children walk path (suc rounds) parent current = do
    found ← exfat_readdir parent current
    elim found [
      | none ↦ pure (0, 0)
      | some node ↦ do
        first ← check_child walk path node
        rest ← check_children walk path rounds parent (some node)
        pure (add_counts first rest)
    ]

  -- What follows the check of the directory itself.
  unfoldable pub check_opened : (List ℕ → T D Counts) → List ℕ → ℕ → T D Counts
  check_opened walk path parent = do
    given ← malloc
    cond given
        (handle (exfat_opendir parent) (λ e. exfat_put_node parent >> pure (0, 0))
          (λ u. do
            fresh ← asks (λ t. t.fresh)
            counts ← check_children walk path (suc fresh) parent none
            exfat_closedir parent
            ignore (exfat_flush_node parent)
            exfat_put_node parent
            pure counts))
        (exfat_put_node parent >> pure (0, 0))

  -- Directories are nested at most `depth` deep below the path; a volume on which they form a cycle
  -- has no such bound.
  unfoldable pub dirck : ℕ → List ℕ → T D Counts
  dirck zero path = out_of_rounds
  dirck (suc depth) path = do
    parent ← handle (exfat_lookup path) (λ e. exfat_bug) pure
    x ← fetch parent
    cond (is_directory x) (pure tt) exfat_bug
    rc ← check_at parent
    cond (rc == 0) (check_opened (dirck depth) path parent) (exfat_put_node parent >> pure (0, 0))

  -- The counts stay 0 where the volume cannot be mounted.
  unfoldable pub fsck : ⦃sys : System D⦄ → ⦃stream : Stream D⦄ → ℕ → Caller → List ℕ → T D Counts
  fsck depth who options =
      handle (exfat_mount who options) (λ e. pure (0, 0))
        (λ u. do counts ← dirck depth []; exfat_unmount; pure counts)
