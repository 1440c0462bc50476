-- ===== src/Fuse.antt =====
-- The callbacks of fuse/main.c on a mounted volume, `exfat_stat` of libexfat/utils.c, and the strings
-- of options for FUSE. A file's handle is the address of its node; the result of a callback that
-- fills a structure is what it holds then.
pub mod Escape
use mathlib.Core.Bool.{cond}
use nuclear_armageddon.Prelude.{
  ℕ, zero, suc, ◌+◌, ◌-◌, ◌*◌, ◌/◌, ◌%◌, ◌^◌, Bool, true, false, not, ◌||◌, Option, none, some,
  List, [], ◌∷◌, ◌++◌, ◌==◌, if◌then◌else◌, bit_and, bit_or, ◌>>>◌,
}
use nuclear_armageddon.Prelude.Int.{ℤ, pos, negsuc}
use nuclear_armageddon.Bitmap.{div_round_up}
use nuclear_armageddon.Result.{enotdir, eperm}
use nuclear_armageddon.Exfat.{Stream, Device, cluster_size}
use nuclear_armageddon.Cluster.{exfat_count_free_clusters}
use nuclear_armageddon.Cluster.Truncate.{exfat_truncate, exfat_flush}
use nuclear_armageddon.Cluster.Transfer.{exfat_generic_pread, exfat_generic_pwrite}
use nuclear_armageddon.Entry.{attrib_dir}
use nuclear_armageddon.Entry.Codec.{le64_at}
use nuclear_armageddon.Dir.{exfat_get_name}
use nuclear_armageddon.Tree.{
  T, ◌>>=◌, ◌>>◌, pure, fail, handle, undo, ending, ignore, asks, exfat_bug, out_of_rounds, fetch,
  on_node, Inode, Tree, Mounting, exfat_put_node, exfat_utimes, exfat_cleanup_node,
}
use nuclear_armageddon.Tree.Open.{System, exfat_fsync}
use nuclear_armageddon.Tree.Walk.{
  exfat_lookup, exfat_opendir, exfat_readdir, exfat_closedir, name_max,
}
use nuclear_armageddon.Tree.Flush.{exfat_flush_node, exfat_flush_nodes}
use nuclear_armageddon.Tree.Create.{exfat_mknod, exfat_mkdir}
use nuclear_armageddon.Tree.Delete.{exfat_unlink, exfat_rmdir}
use nuclear_armageddon.Tree.Rename.{exfat_rename}
use nuclear_armageddon.Tree.Mount.{exfat_unmount}

-- The members of `struct stat` that are set.
pub record Stat : Type 0 where
  pub st_mode : ℕ
  pub st_nlink : ℕ
  pub st_uid : ℕ
  pub st_gid : ℕ
  pub st_size : ℕ
  pub st_blocks : ℕ
  pub st_mtime : ℤ
  pub st_atime : ℤ
  pub st_ctime : ℤ

-- Conversion of an `int` to 32 bits without a sign.
abbrev pub as_unsigned : ℤ → ℕ
as_unsigned (pos n) = n % 2 ^ 32
as_unsigned (negsuc n) = 2 ^ 32 - 1 - n % 2 ^ 32

-- `0777 & ~mask`
abbrev pub permissions : ℤ → ℕ
permissions mask = 0x1ff - bit_and (as_unsigned mask) 0x1ff

abbrev pub is_directory : Inode → Bool
is_directory x = not (bit_and x.core.attrib attrib_dir == 0)

unfoldable pub stat_of : {D : Type 0} → Tree D → Inode → Stat
stat_of t x = record {
  st_mode =
      if is_directory x
      then bit_or 0x4000 (permissions t.mounting.dmask)
      else bit_or 0x8000 (permissions t.mounting.fmask);
  st_nlink = 1;
  st_uid = as_unsigned t.mounting.uid;
  st_gid = as_unsigned t.mounting.gid;
  st_size = x.core.size;
  st_blocks = div_round_up x.core.size (cluster_size t.ef.sb) * cluster_size t.ef.sb / 512;
  st_mtime = x.core.mtime;
  st_atime = x.core.atime;
  st_ctime = x.core.mtime;
}

-- The members of `struct statvfs` that are set.
pub record StatVfs : Type 0 where
  pub f_bsize : ℕ
  pub f_frsize : ℕ
  pub f_blocks : ℕ
  pub f_bavail : ℕ
  pub f_bfree : ℕ
  pub f_namemax : ℕ
  pub f_files : ℕ
  pub f_favail : ℕ
  pub f_ffree : ℕ

unfoldable pub statfs_of : {D : Type 0} → Tree D → StatVfs
statfs_of t = record {
  f_bsize = cluster_size t.ef.sb;
  f_frsize = cluster_size t.ef.sb;
  f_blocks = le64_at 0x48 t.mounting.boot >>> t.ef.sb.spc_bits;
  f_bavail = exfat_count_free_clusters t.ef;
  f_bfree = exfat_count_free_clusters t.ef;
  f_namemax = name_max;
  f_files = t.ef.sb.cluster_count;
  f_favail = exfat_count_free_clusters t.ef >>> t.ef.sb.spc_bits;
  f_ffree = exfat_count_free_clusters t.ef;
}

-- What `filler` is called with: a name, and the attributes if there are any.
abbrev pub Filled : Type 0
Filled = List ℕ × Option Stat

module _ {D : Type 0} ⦃io : Device D⦄ where
  abbrev pub exfat_stat : ℕ → T D Stat
  exfat_stat p = do x ← fetch p; asks (λ t. stat_of t x)

  unfoldable pub fuse_exfat_getattr : List ℕ → T D Stat
  fuse_exfat_getattr path = do
    node ← exfat_lookup path
    stbuf ← exfat_stat node
    exfat_put_node node
    pure stbuf

  unfoldable pub fuse_exfat_truncate : List ℕ → ℕ → T D (Unit {0})
  fuse_exfat_truncate path size = do
    node ← exfat_lookup path
    now ← asks (λ t. t.now)
    handle (on_node node (exfat_truncate now size true))
        (λ e. do ignore (exfat_flush_node node); exfat_put_node node; fail e)
        (λ u. ending (exfat_flush_node node) (exfat_put_node node))

  abbrev pub name_of : ℕ → T D (List ℕ)
  name_of p = do
    x ← fetch p
    elim (exfat_get_name x.name) [ none ↦ exfat_bug | some name ↦ pure name ]

  -- The loop over the children; it gets one round more than there are addresses of nodes.
  unfoldable pub fill_loop : ℕ → ℕ → Option ℕ → T D (List Filled)
  fill_loop zero parent current = out_of_rounds
  fill_loop (suc fuel) parent current = do
    found ← exfat_readdir parent current
    elim found [
      | none ↦ pure []
      | some node ↦ do
        name ← name_of node
        stbuf ← exfat_stat node
        exfat_put_node node
        rest ← fill_loop fuel parent (some node)
        pure ((name, some stbuf) ∷ rest)
    ]

  unfoldable pub fuse_exfat_readdir : List ℕ → T D (List Filled)
  fuse_exfat_readdir path = do
    parent ← exfat_lookup path
    x ← fetch parent
    cond (is_directory x) (pure tt) (exfat_put_node parent >> fail enotdir)
    undo (exfat_opendir parent) (exfat_put_node parent)
    fresh ← asks (λ t. t.fresh)
    children ← fill_loop (suc fresh) parent none
    exfat_closedir parent
    exfat_put_node parent
    pure ((0x2e ∷ [], none) ∷ (0x2e ∷ 0x2e ∷ [], none) ∷ children)

  unfoldable pub fuse_exfat_open : List ℕ → T D ℕ
  fuse_exfat_open path = exfat_lookup path

  unfoldable pub fuse_exfat_create : List ℕ → T D ℕ
  fuse_exfat_create path = exfat_mknod path >> exfat_lookup path

  unfoldable pub fuse_exfat_release : ℕ → T D (Unit {0})
  fuse_exfat_release node = ignore (exfat_flush_node node) >> exfat_put_node node

  unfoldable pub fuse_exfat_flush : ℕ → T D (Unit {0})
  fuse_exfat_flush node = exfat_flush_node node

  unfoldable pub fuse_exfat_read : ℕ → ℕ → ℕ → T D (List ℕ)
  fuse_exfat_read node size offset = do
    now ← asks (λ t. t.now)
    on_node node (exfat_generic_pread now size offset)

  unfoldable pub fuse_exfat_write : ℕ → List ℕ → ℕ → T D ℕ
  fuse_exfat_write node buffer offset = do
    now ← asks (λ t. t.now)
    on_node node (exfat_generic_pwrite now buffer offset)

  unfoldable pub fuse_exfat_unlink : List ℕ → T D (Unit {0})
  fuse_exfat_unlink path = do
    node ← exfat_lookup path
    ending (exfat_unlink node) (exfat_put_node node)
    exfat_cleanup_node node

  unfoldable pub fuse_exfat_rmdir : List ℕ → T D (Unit {0})
  fuse_exfat_rmdir path = do
    node ← exfat_lookup path
    ending (exfat_rmdir node) (exfat_put_node node)
    exfat_cleanup_node node

  unfoldable pub fuse_exfat_mknod : List ℕ → T D (Unit {0})
  fuse_exfat_mknod path = exfat_mknod path

  unfoldable pub fuse_exfat_mkdir : List ℕ → T D (Unit {0})
  fuse_exfat_mkdir path = exfat_mkdir path

  unfoldable pub fuse_exfat_rename : List ℕ → List ℕ → T D (Unit {0})
  fuse_exfat_rename old_path new_path = exfat_rename old_path new_path

  unfoldable pub fuse_exfat_utimens : List ℕ → ℤ → ℤ → T D (Unit {0})
  fuse_exfat_utimens path accessed modified = do
    node ← exfat_lookup path
    exfat_utimes node accessed modified
    ending (exfat_flush_node node) (exfat_put_node node)

module _ {D : Type 0} where
  -- `mode & ~VALID_MODE_MASK`
  unfoldable pub fuse_exfat_chmod : ℕ → T D (Unit {0})
  fuse_exfat_chmod mode = cond (bit_and mode 0xffff3e00 == 0) (pure tt) (fail eperm)

  unfoldable pub fuse_exfat_chown : ℕ → ℕ → T D (Unit {0})
  fuse_exfat_chown uid gid = do
    owner ← asks (λ t. as_unsigned t.mounting.uid)
    group ← asks (λ t. as_unsigned t.mounting.gid)
    cond (not (uid == owner) || not (gid == group)) (fail eperm) (pure tt)

  abbrev pub fuse_exfat_statfs : T D StatVfs
  fuse_exfat_statfs = asks statfs_of

module _ {D : Type 0} ⦃io : Device D⦄ ⦃sys : System D⦄ ⦃stream : Stream D⦄ where
  unfoldable pub fuse_exfat_fsync : T D (Unit {0})
  fuse_exfat_fsync = do
    exfat_flush_nodes
    root ← asks (λ t. t.root)
    on_node root exfat_flush
    exfat_fsync

  unfoldable pub fuse_exfat_destroy : T D (Unit {0})
  fuse_exfat_destroy = exfat_unmount
