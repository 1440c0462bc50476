-- ===== src/Tree/Mount.antt =====
-- `exfat_mount` and `exfat_unmount` of libexfat/mount.c.
use mathlib.Core.Bool.{cond}
use nuclear_armageddon.Prelude.{
  ℕ, ◌+◌, ◌*◌, ◌/◌, Bool, true, false, not, Option, none, some, List, [], ◌∷◌, ◌==◌, if◌then◌else◌,
  bit_and, bit_or, u8, u16, u32, sub32,
}
use nuclear_armageddon.Result.{eio, enomem}
use nuclear_armageddon.Exfat.{Stream, Device, exfat_pwrite}
use nuclear_armageddon.Cluster.{exfat_count_free_clusters}
use nuclear_armageddon.Cluster.Truncate.{exfat_flush}
use nuclear_armageddon.Entry.Codec.{byte, le16_at, le32_at, le16_bytes, overwrite}
use nuclear_armageddon.Mount.{rootdir_size}
use nuclear_armageddon.Mkfs.Write.{words}
use nuclear_armageddon.Tree.{
  T, ◌>>=◌, ◌>>◌, pure, fail, handle, undo, ignore, asks, change, defined, is_some, malloc, free,
  on_device, on_node, allocate_node, modify_core, exfat_get_node, exfat_put_node, Tree, Mode,
  mode_ro, mode_rw, mode_any,
}
use nuclear_armageddon.Tree.Open.{System, exfat_open, exfat_close, exfat_fsync}
use nuclear_armageddon.Tree.Cache.{exfat_cache_directory}
use nuclear_armageddon.Tree.Reset.{exfat_reset_cache}
use nuclear_armageddon.Tree.Flush.{exfat_flush_nodes}
use nuclear_armageddon.Tree.Options.{Caller, parse_options, mode_of}
use nuclear_armageddon.Tree.Super.{expect, set_boot, read_super_block}

abbrev pub state_mounted : ℕ
state_mounted = 2

abbrev pub volume_state : List ℕ → ℕ
volume_state boot = le16_at 0x6a boot

abbrev pub with_state : ℕ → List ℕ → List ℕ
with_state state boot = overwrite 0x6a (le16_bytes (u16 state)) boot

-- `volume_state & ~EXFAT_STATE_MOUNTED`
abbrev pub cleared_bit : ℕ → ℕ
cleared_bit state = bit_and state 0xfffd

abbrev pub is_ro : Mode → Bool
is_ro mode_ro = true
is_ro mode_rw = false
is_ro mode_any = false

abbrev pub is_empty : List ℕ → Bool
is_empty [] = true
is_empty (w ∷ words) = false

-- The share of clusters that are in use; a division by 0 has no result.
unfoldable pub percentage : ℕ → ℕ → Option ℕ
percentage total free =
    if total == 0 then none else some (u8 (u32 (u32 (sub32 total free * 100) + total / 2) / total))

module _ {D : Type 0} ⦃io : Device D⦄ ⦃sys : System D⦄ ⦃stream : Stream D⦄ where
  unfoldable pub commit_super_block : T D (Unit {0})
  commit_super_block = do
    boot ← asks (λ t. t.mounting.boot)
    written ← on_device (exfat_pwrite boot 0)
    cond written exfat_fsync (fail eio)

  -- The warning for a volume that was not unmounted changes nothing.
  unfoldable pub prepare_super_block : T D (Unit {0})
  prepare_super_block = do
    ro ← asks (λ t. t.ef.ro)
    cond ro (pure tt) (do
      set_boot (λ boot. with_state (bit_or (volume_state boot) state_mounted) boot)
      commit_super_block)

  abbrev pub drop_root : Option ℕ → T D (Unit {0})
  drop_root none = pure tt
  drop_root (some p) = free p

  -- The root is not a pointer to a node before it is allocated.
  unfoldable pub exfat_free : Option ℕ → T D (Unit {0})
  exfat_free root = do
    ignore exfat_close
    drop_root root
    change (λ t. record t {
      upcase = none;
      ef = record (t.ef) { cmap = record (t.ef.cmap) { chunk = [] } };
      mounting = record (t.mounting) { boot = [] };
    })

  -- `memset(ef, 0, sizeof(struct exfat))`, and the timezone before it.
  abbrev pub cleared : Caller → Tree D → Tree D
  cleared who t = record t {
    ef = record {
      dev = t.ef.dev;
      sb = record {
        fat_sector_start = 0;
        cluster_sector_start = 0;
        cluster_count = 0;
        sector_bits = 0;
        spc_bits = 0;
      };
      cmap = record { start_cluster = 0; size = 0; chunk = []; chunk_size = 0; dirty = false };
      ro = false;
      noatime = false;
    };
    upcase = none;
    label = 0 ∷ [];
    zone = who.timezone;
  }

  unfoldable pub allocate_root : T D ℕ
  allocate_root = do
    start ← asks (λ t. le32_at 0x60 t.mounting.boot)
    p ← undo allocate_node (exfat_free none)
    change (λ t. record t { root = p })
    modify_core p (λ n. record n { attrib = 0x10; start_cluster = start; fptr_cluster = start })
    size ← on_node p (rootdir_size start)
    modify_core p (λ n. record n { size = size })
    cond (size == 0) (exfat_free (some p) >> fail eio) (exfat_get_node p)

  unfoldable pub check_root : ℕ → T D (Unit {0})
  check_root p = do
    exfat_cache_directory p
    upcase ← asks (λ t. t.upcase)
    expect (is_some upcase) eio
    words ← asks (λ t. t.ef.cmap.chunk)
    expect (not (is_empty words)) eio
    prepare_super_block

  -- The label `error`.
  abbrev pub mount_failed : ℕ → T D (Unit {0})
  mount_failed p = do exfat_put_node p; exfat_reset_cache; exfat_free (some p); fail eio

  unfoldable pub exfat_mount : Caller → List ℕ → T D (Unit {0})
  exfat_mount who options = do
    change (cleared who)
    parse_options who options
    exfat_open (mode_of options)
    change (λ t. record t { ef = record (t.ef) { ro = is_ro t.mounting.mode } })
    given ← malloc
    undo (expect given enomem >> read_super_block) (exfat_free none)
    p ← allocate_root
    handle (check_root p) (λ e. mount_failed p) pure

  unfoldable pub finalize_super_block : T D (Unit {0})
  finalize_super_block = do
    ro ← asks (λ t. t.ef.ro)
    cond ro (pure tt) (do
      set_boot (λ boot. with_state (cleared_bit (volume_state boot)) boot)
      percent ← asks (λ t. byte 0x70 t.mounting.boot)
      cond (percent == 0xff) (pure tt) (do
        free ← asks (λ t. exfat_count_free_clusters t.ef)
        total ← asks (λ t. t.ef.sb.cluster_count)
        share ← defined (percentage total free)
        set_boot (overwrite 0x70 (share ∷ [])))
      ignore commit_super_block)

  unfoldable pub exfat_unmount : T D (Unit {0})
  exfat_unmount = do
    root ← asks (λ t. t.root)
    ignore exfat_flush_nodes
    ignore (on_node root exfat_flush)
    exfat_put_node root
    exfat_reset_cache
    finalize_super_block
    exfat_free (some root)
