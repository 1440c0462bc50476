-- ===== src/Tree/Create.antt =====
-- New files and directories in libexfat/node.c: `find_slot` on the tree, `commit_entry`, `create`,
-- `exfat_mknod` and `exfat_mkdir`.
use mathlib.Core.Bool.{cond}
use nuclear_armageddon.Prelude.{
  ℕ, ◌+◌, ◌==◌, true, none, some, List, [], ◌∷◌, ◌++◌, map, take, drop, get_or,
}
use nuclear_armageddon.Result.{eexist}
use nuclear_armageddon.Bitmap.{div_round_up}
use nuclear_armageddon.Exfat.{Device, cluster_size}
use nuclear_armageddon.Utf.{utf16_length}
use nuclear_armageddon.Time.{exfat_unix2exfat}
use nuclear_armageddon.Checksum.{exfat_calc_name_hash}
use nuclear_armageddon.Entry.{ename_max, attrib_dir, init_node_meta1, init_node_meta2}
use nuclear_armageddon.Entry.Codec.{meta1_at, meta2_at, new_entries, joined}
use nuclear_armageddon.Cluster.Truncate.{exfat_truncate}
use nuclear_armageddon.Dir.{write_entries}
use nuclear_armageddon.Dir.Slot.{Place, find_slot}
use nuclear_armageddon.Tree.{
  Inode, T, ◌>>=◌, ◌>>◌, pure, fail, handle, undo, ending, ignore, exfat_bug, asks, defined, fetch,
  malloc, modify, on_node, allocate_node, exfat_put_node, tree_attach, exfat_update_mtime,
}
use nuclear_armageddon.Tree.Cache.{blank, filled}
use nuclear_armageddon.Tree.Walk.{exfat_lookup, exfat_split}
use nuclear_armageddon.Tree.Flush.{exfat_flush_node}
use nuclear_armageddon.Tree.Delete.{children, delete}

abbrev pub as_place : Inode → Place
as_place x = record { entry_offset = x.entry_offset; continuations = x.continuations }

abbrev pub attrib_arch : ℕ
attrib_arch = 0x20

module _ {D : Type 0} ⦃io : Device D⦄ where
  -- `find_slot` of node.c, on the children that the directory has.
  unfoldable pub find_slot_in : ℕ → ℕ → T D ℕ
  find_slot_in dir n = do
    d ← fetch dir
    cond d.is_cached (pure tt) exfat_bug
    xs ← children dir
    now ← asks (λ t. t.now)
    root ← asks (λ t. t.root)
    given ← malloc
    on_node dir (find_slot now given (dir == root) (map as_place xs) n)

  abbrev pub name_length_of : List ℕ → T D ℕ
  name_length_of name = defined (utf16_length name)

  -- A name that is not empty needs the table of upper case letters.
  unfoldable pub name_hash_of : List ℕ → T D ℕ
  name_hash_of [] = pure 0
  name_hash_of (unit ∷ units) = do
    upcase ← asks (λ t. t.upcase)
    table ← defined upcase
    pure (exfat_calc_name_hash table (unit ∷ units))

  unfoldable pub commit_entry : ℕ → List ℕ → ℕ → ℕ → T D (Unit {0})
  commit_entry dir name offset attrib = do
    name_length ← name_length_of name
    now ← asks (λ t. t.now)
    zone ← asks (λ t. t.zone)
    created ← defined (exfat_unix2exfat zone now)
    hash ← name_hash_of (take name_length name)
    let entries = new_entries name name_length hash attrib created
    on_node dir (write_entries now (joined entries) offset)
    p ← allocate_node
    let meta1 = meta1_at (get_or entries 0 [])
    let meta2 = meta2_at (get_or entries 1 [])
    let named = record blank { name = take name_length name ++ drop name_length blank.name }
    modify p (λ x. record x { entry_offset = offset })
    modify p (filled (init_node_meta2 (init_node_meta1 zone named meta1) meta2))
    tree_attach dir p

  -- What `create` does in the directory, once nothing has the name.
  unfoldable pub create_in : ℕ → List ℕ → ℕ → T D (Unit {0})
  create_in dir name attrib = do
    length ← name_length_of name
    offset ← undo (find_slot_in dir (2 + div_round_up length ename_max)) (exfat_put_node dir)
    undo (commit_entry dir name offset attrib) (exfat_put_node dir)
    exfat_update_mtime dir
    ending (exfat_flush_node dir) (exfat_put_node dir)

  unfoldable pub create : List ℕ → ℕ → T D (Unit {0})
  create path attrib = do
    (dir, existing, name) ← exfat_split path
    elim existing [
      | some p ↦ do exfat_put_node p; exfat_put_node dir; fail eexist
      | none ↦ create_in dir name attrib
    ]

  unfoldable pub exfat_mknod : List ℕ → T D (Unit {0})
  exfat_mknod path = create path attrib_arch

  -- What is made goes away again.
  abbrev pub drop_new : ℕ → T D (Unit {0})
  drop_new p = ignore (delete p) >> exfat_put_node p

  -- The first cluster of a new directory.
  unfoldable pub extend_new : ℕ → T D (Unit {0})
  extend_new p = do
    now ← asks (λ t. t.now)
    size ← asks (λ t. cluster_size t.ef.sb)
    undo (on_node p (exfat_truncate now size true)) (drop_new p)
    undo (exfat_flush_node p) (drop_new p)
    exfat_put_node p

  -- It succeeds when the new directory is not found again.
  unfoldable pub exfat_mkdir : List ℕ → T D (Unit {0})
  exfat_mkdir path = do create path attrib_dir; handle (exfat_lookup path) (λ e. pure tt) extend_new
