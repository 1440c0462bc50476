-- ===== src/Label.antt =====
-- label/main.c after the count of arguments: the label is set, or it is what is printed.
use nuclear_armageddon.Prelude.{ℕ, Option, none, some, List, []}
use nuclear_armageddon.Exfat.{Stream, Device}
use nuclear_armageddon.Tree.{T, ◌>>=◌, ◌>>◌, pure, handle}
use nuclear_armageddon.Tree.Open.{System}
use nuclear_armageddon.Tree.Label.{exfat_get_label, exfat_set_label}
use nuclear_armageddon.Tree.Options.{Caller, name_ro}
use nuclear_armageddon.Tree.Mount.{exfat_mount, exfat_unmount}

-- The exit code, and what is printed.
abbrev pub Outcome : Type 0
Outcome = ℕ × Option (List ℕ)

module _ {D : Type 0} ⦃io : Device D⦄ ⦃sys : System D⦄ ⦃stream : Stream D⦄ where
  unfoldable pub set_label : Caller → List ℕ → T D Outcome
  set_label who label =
      handle (exfat_mount who []) (λ e. pure (1, none))
        (λ u. do
          rc ← handle (exfat_set_label label) (λ e. pure 1) (λ v. pure 0)
          exfat_unmount
          pure (rc, none))

  unfoldable pub print_label : Caller → T D Outcome
  print_label who =
      handle (exfat_mount who name_ro) (λ e. pure (1, none))
        (λ u. do label ← exfat_get_label; exfat_unmount; pure (0, some label))

  unfoldable pub exfatlabel : Caller → Option (List ℕ) → T D Outcome
  exfatlabel who (some label) = set_label who label
  exfatlabel who none = print_label who
