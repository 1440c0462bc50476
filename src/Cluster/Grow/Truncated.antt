-- ===== src/Cluster/Grow/Truncated.antt =====
-- How many clusters `exfat_truncate` of libexfat/cluster.c takes when it makes a file longer.
use nuclear_armageddon.Prelude.{ℕ, refl, Bool}
use nuclear_armageddon.Result.{Result, ok, bug}
use nuclear_armageddon.Exfat.{Device}
use nuclear_armageddon.Cluster.{State, ◌>>◌}
use nuclear_armageddon.Cluster.Grow.Steady.{
  IsSame, Steady, steady_rules, exfat_advance_cluster-Steady, or_eio-Steady, check_cluster-Steady,
}
use nuclear_armageddon.Cluster.Grow.Leads.{Leads}
use nuclear_armageddon.Prelude.{Option, none, some}
use nuclear_armageddon.Cluster.{exfat_c2o}
use nuclear_armageddon.Cluster.Grow.Steady.{exfat_next_cluster-Steady}
use nuclear_armageddon.Cluster.Truncate.{offset_of, erase_raw}

module _ {D : Type 0} ⦃io : Device D⦄ where
  offset_of-Steady : (c : ℕ) → Steady D (offset_of c)
  offset_of-Steady c = record { at = λ s. unmoved s (exfat_c2o s.ef.sb c) }
    where
      unmoved :
          (s : State D) (o : Option ℕ)
          → IsSame s
              (elim o as (λ _. Result ℕ × State D) [
                | none ↦ (bug, s)
                | some offset ↦ (ok offset, s)
              ]).1
      unmoved s none = record { cmap = refl; sb = refl }
      unmoved s (some offset) = record { cmap = refl; sb = refl }

  erase_raw-Steady : (size offset : ℕ) → Steady D (erase_raw size offset)
  unfolding erase_raw
  erase_raw-Steady size offset = search steady_rules

  ruleset erase_rules = (
    steady_rules, offset_of-Steady, erase_raw-Steady, or_eio-Steady, exfat_next_cluster-Steady,
    exfat_advance_cluster-Steady, check_cluster-Steady,
  )
