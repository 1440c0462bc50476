-- ===== src/Tree/Open.antt =====
-- Opening and closing the device: libexfat/io.c as it is built for Linux without ublio.
use mathlib.Core.Bool.{cond}
use nuclear_armageddon.Prelude.{ℕ, zero, suc, Bool, true, false, Option, none, some, ◌==◌}
use nuclear_armageddon.Result.{eio}
use nuclear_armageddon.Exfat.{Stream}
use nuclear_armageddon.Tree.{
  T, ◌>>=◌, ◌>>◌, pure, fail, change, malloc, on_device, out_of_rounds, Mode, mode_ro, mode_rw,
  mode_any,
}

-- The system's calls: whether a descriptor is open, opening /dev/null and the device (true for
-- writing also), BLKROGET with a result of 0 and a flag that is not 0, `close`, whether `fstat` works
-- and finds a device or a regular file, and the place of the end or nothing where `lseek` fails.
pub record System (D : Type 0) : Type 0 where
  pub descriptor : ℕ → D → Bool × D
  pub open_null : D → Bool × D
  pub open_spec : Bool → D → Bool × D
  pub set_ro : D → Bool × D
  pub close : D → Bool × D
  pub stat_kind : D → Option Bool × D
  pub seek_end : D → Option ℕ × D

module _ {D : Type 0} ⦃sys : System D⦄ ⦃io : Stream D⦄ where
  abbrev pub open_ro : T D Bool
  open_ro = on_device (sys.open_spec false)

  unfoldable pub open_rw : T D Bool
  open_rw = do
    opened ← on_device (sys.open_spec true)
    cond opened
        (do
          ro ← on_device sys.set_ro
          cond ro (do closed ← on_device sys.close; pure false) (pure true))
        (pure false)

  abbrev and_then : T D Bool → T D Bool → T D Bool
  and_then first second = do a ← first; cond a second (pure false)

  -- The loop that fills the descriptors 0, 1 and 2. The system gives the least one that is closed, so
  -- three rounds fill them.
  unfoldable pub protect : ℕ → T D (Unit {0})
  protect zero = out_of_rounds
  protect (suc rounds) = do
    all_open ←
        and_then (on_device (sys.descriptor 0))
          (and_then (on_device (sys.descriptor 1)) (on_device (sys.descriptor 2)))
    cond all_open (pure tt)
        (do opened ← on_device sys.open_null; cond opened (protect rounds) (fail eio))

  -- The switch over the mode: the one that the device is opened in.
  unfoldable pub open_mode : Mode → T D Mode
  open_mode mode_ro = do opened ← open_ro; cond opened (pure mode_ro) (fail eio)
  open_mode mode_rw = do opened ← open_rw; cond opened (pure mode_rw) (fail eio)
  open_mode mode_any = do
    opened ← open_rw
    cond opened (pure mode_rw) (do opened_ro ← open_ro; cond opened_ro (pure mode_ro) (fail eio))

  -- The result is NULL.
  abbrev close_failed : {A : Type 0} → T D A
  close_failed = do closed ← on_device sys.close; fail eio

  unfoldable pub device_size : T D ℕ
  device_size = do
    end ← on_device sys.seek_end
    elim end [
      | none ↦ close_failed
      | some size ↦ do
        cond (size == 0) close_failed (pure tt)
        back ← on_device (io.seek 0)
        cond back (pure size) close_failed
    ]

  -- An error stands for NULL.
  unfoldable pub exfat_open : Mode → T D (Unit {0})
  exfat_open asked = do
    protect 4
    given ← malloc
    cond given (pure tt) (fail eio)
    mode ← open_mode asked
    kind ← on_device sys.stat_kind
    elim kind [ none ↦ close_failed | some known ↦ cond known (pure tt) close_failed ]
    size ← device_size
    change (λ t. record t { mounting = record (t.mounting) { mode = mode; dev_size = size } })

  unfoldable pub exfat_close : T D (Unit {0})
  exfat_close = do closed ← on_device sys.close; cond closed (pure tt) (fail eio)

  unfoldable pub exfat_fsync : T D (Unit {0})
  exfat_fsync = do synced ← on_device io.sync; cond synced (pure tt) (fail eio)
