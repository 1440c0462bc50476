-- ===== src/Cluster/Grow/Steady.antt =====
-- Actions of libexfat/cluster.c that leave the bitmap of clusters and the super block alone.
use mathlib.Core.Bool.{cond}
use nuclear_armageddon.Prelude.{
  ℕ, zero, suc, ◌-◌, ◌≡◌, refl, ◌∙◌, Bool, true, false, Option, none, some, List, ltb,
  if◌then◌else◌,
}
use nuclear_armageddon.Result.{Result, Errno, ok, err, bug, out_of_fuel}
use nuclear_armageddon.Bitmap.{first_data_cluster}
use nuclear_armageddon.Exfat.{Device, Node, exfat_pread}
use nuclear_armageddon.Cluster.{
  State, M, after, ◌>>=◌, pure, fail, exfat_bug, gets, set_node, on_dev, fat_offset, next_read,
  exfat_next_cluster, advance_round, advance_loop, exfat_advance_cluster, set_next_cluster,
  make_noncontiguous_round, make_noncontiguous_loop, make_noncontiguous,
}
use nuclear_armageddon.Cluster.Shrink.{or_eio, check_cluster}
use nuclear_armageddon.Cluster.Grow.{leave_contiguous}

-- The two states have the same bitmap and the same super block.
pub record IsSame {D : Type 0} (s t : State D) : Type 0 where
  pub cmap : t.ef.cmap ≡ s.ef.cmap
  pub sb : t.ef.sb ≡ s.ef.sb

abbrev same : {D : Type 0} {s : State D} → IsSame s s
same = record { cmap = refl; sb = refl }

pub record Steady (D : Type 0) {A : Type 0} (m : M D A) : Type 0 where
  pub at : (s : State D) → IsSame s (m s).1

module _ {D : Type 0} where
  pub Steady-pure : {A : Type 0} (a : A) → Steady D (pure a)
  Steady-pure a = record { at = λ s. same }

  pub Steady-fail : {A : Type 0} (e : Errno) → Steady D {A = A} (fail e)
  Steady-fail e = record { at = λ s. same }

  pub Steady-bug : {A : Type 0} → Steady D {A = A} exfat_bug
  Steady-bug = record { at = λ s. same }

  pub Steady-gets : {A : Type 0} (f : State D → A) → Steady D (gets f)
  Steady-gets f = record { at = λ s. same }

  pub Steady-set_node : (f : Node → Node) → Steady D (set_node f)
  Steady-set_node f = record { at = λ s. record { cmap = refl; sb = refl } }

  pub Steady-on_dev : {A : Type 0} (f : D → A × D) → Steady D (on_dev f)
  Steady-on_dev f = record { at = λ s. record { cmap = refl; sb = refl } }

  pub Steady-cond :
      {A : Type 0} (b : Bool) (m n : M D A) → Steady D m → Steady D n → Steady D (cond b m n)
  Steady-cond true m n km kn = km
  Steady-cond false m n km kn = kn

  same_if :
      {A : Type 0} (b : Bool) (s : State D) (x y : A × State D)
      → IsSame s x.1
      → IsSame s y.1
      → IsSame s (if b then x else y).1
  same_if true s x y kx ky = kx
  same_if false s x y kx ky = ky

  IsSame-trans : (s t u : State D) → IsSame s t → IsSame t u → IsSame s u
  IsSame-trans s t u h k = record { cmap = k.cmap ∙ h.cmap; sb = k.sb ∙ h.sb }

  Steady-after :
      {A B : Type 0} (r : Result A) (f : A → M D B) (s t : State D)
      → IsSame s t
      → ((a : A) → Steady D (f a))
      → IsSame s (after r t f).1
  Steady-after (ok a) f s t h kf = IsSame-trans s t (f a t).1 h ((kf a).at t)
  Steady-after (err x) f s t h kf = h
  Steady-after bug f s t h kf = h
  Steady-after out_of_fuel f s t h kf = h

  pub Steady-bind :
      {A B : Type 0} (m : M D A) (f : A → M D B)
      → Steady D m
      → ((a : A) → Steady D (f a))
      → Steady D (m >>= f)
  Steady-bind m f km kf = record { at = λ s. Steady-after (m s).0 f s (m s).1 (km.at s) kf }

pub ruleset steady_rules = (
  Steady-pure, Steady-fail, Steady-bug, Steady-gets, Steady-set_node, Steady-on_dev, Steady-cond,
  Steady-bind,
)

module _ {D : Type 0} ⦃io : Device D⦄ where
  next_read_same : (o : Option (List ℕ)) (s t : State D) → IsSame s t → IsSame s (next_read o t).1
  next_read_same none s t h = h
  next_read_same (some next) s t h = h

  pub exfat_next_cluster-Steady : (c : ℕ) → Steady D (exfat_next_cluster c)
  unfolding exfat_next_cluster
  exfat_next_cluster-Steady c = record {
    at = λ s. same_if (ltb c first_data_cluster) s _ _ same (
        same_if s.node.is_contiguous s _ _ same (
          next_read_same (exfat_pread 4 (fat_offset s.ef.sb c) s.ef.dev).0 s _
            record { cmap = refl; sb = refl }));
  }

  pub set_next_cluster-Steady : (b : Bool) (c next : ℕ) → Steady D (set_next_cluster b c next)
  unfolding set_next_cluster
  set_next_cluster-Steady b c next = record {
    at = λ s. same_if b s _ _ same record { cmap = refl; sb = refl };
  }

  advance_round-Steady : (rest : M D (Unit {0})) → Steady D rest → Steady D (advance_round rest)
  advance_round-Steady rest k = search (steady_rules, exfat_next_cluster-Steady) depth 12

  advance_loop-Steady : (left : ℕ) → Steady D (advance_loop left)
  unfolding advance_loop
  advance_loop-Steady zero = search steady_rules
  advance_loop-Steady (suc left) = advance_round-Steady _ (advance_loop-Steady left)

  pub exfat_advance_cluster-Steady : (count : ℕ) → Steady D (exfat_advance_cluster count)
  unfolding exfat_advance_cluster
  exfat_advance_cluster-Steady count = search (steady_rules, advance_loop-Steady) depth 12

  make_noncontiguous_loop-Steady : (left c : ℕ) → Steady D (make_noncontiguous_loop left c)
  unfolding make_noncontiguous_loop
  make_noncontiguous_loop-Steady zero c = search steady_rules
  make_noncontiguous_loop-Steady (suc left) c =
      round (make_noncontiguous_loop left) (make_noncontiguous_loop-Steady left)
    where
      round :
          (rest : ℕ → M D Bool)
          → ((n : ℕ) → Steady D (rest n))
          → Steady D (make_noncontiguous_round rest c)
      round rest k = search (steady_rules, set_next_cluster-Steady)

  make_noncontiguous-Steady : (first last : ℕ) → Steady D (make_noncontiguous first last)
  unfolding make_noncontiguous
  make_noncontiguous-Steady first last = make_noncontiguous_loop-Steady (last - first) first

  pub or_eio-Steady : (m : M D Bool) → Steady D m → Steady D (or_eio m)
  or_eio-Steady m k = search steady_rules

  pub check_cluster-Steady : (c : ℕ) → Steady D (check_cluster c)
  check_cluster-Steady c = search steady_rules

  pub leave_contiguous-Steady : (previous next : ℕ) → Steady D (leave_contiguous previous next)
  unfolding leave_contiguous
  leave_contiguous-Steady previous next =
      search (steady_rules, or_eio-Steady, make_noncontiguous-Steady) depth 12
