-- ===== src/Cluster/Keeps/Sized/Truncate.antt =====
-- The size of a node after erasing and after `exfat_truncate` of libexfat/cluster.c.
use mathlib.Core.Bool.{cond}
use nuclear_armageddon.Prelude.{
  ℕ, zero, suc, ◌-◌, ◌≡◌, refl, sym, subst, arith, ◌∙◌, Bool, true, false, Option, none, some, ltb,
  ◌==◌, ◌&&◌,
}
use nuclear_armageddon.Prelude.Int.{ℤ}
use nuclear_armageddon.Result.{Result, ok, bug}
use nuclear_armageddon.Exfat.{Device}
use nuclear_armageddon.Cluster.{
  State, M, ◌>>=◌, ◌>>◌, pure, exfat_bug, gets, set_node, exfat_c2o, bytes2clusters,
}
use nuclear_armageddon.Cluster.Shrink.{shrink_file}
use nuclear_armageddon.Cluster.Grow.{grow_file}
use nuclear_armageddon.Cluster.Allocate.{IsCmap}
use nuclear_armageddon.Cluster.Keeps.{Kept}
use nuclear_armageddon.Cluster.Keeps.Size.{Erasable, exfat_truncate-Kept}
use nuclear_armageddon.Cluster.Truncate.{
  offset_of, erase_raw, erase_round, erase_loop, erase_range, exfat_truncate,
}
use nuclear_armageddon.Cluster.Keeps.Sized.{SizedBy, Sizes, sized_rules}
use nuclear_armageddon.Cluster.Keeps.Sized.Chain.{sized_chain, shrink_file-Sizes, grow_file-Sizes}

module _ {D : Type 0} ⦃io : Device D⦄ {old : ℕ} where
  offset_of-Sizes : (c : ℕ) → Sizes D old old (offset_of c)
  offset_of-Sizes c = record { at = λ s h. sized s h (exfat_c2o s.ef.sb c) }
    where
      sized :
          (s : State D)
          → s.node.size ≡ old
          → (o : Option ℕ)
          → SizedBy old old (elim o as (λ _. Result ℕ × State D) [
            | none ↦ (bug, s)
            | some offset ↦ (ok offset, s)
          ])
      sized s h none = h
      sized s h (some offset) = h

  erase_raw-Sizes : (size offset : ℕ) → Sizes D old old (erase_raw size offset)
  unfolding erase_raw
  erase_raw-Sizes size offset = search sized_rules

  erase_loop-Sizes : (fuel c boundary end : ℕ) → Sizes D old old (erase_loop fuel c boundary end)
  unfolding erase_loop
  erase_loop-Sizes zero c boundary end = record { at = λ s h. h }
  erase_loop-Sizes (suc fuel) c boundary end =
      round (λ c' b. erase_loop fuel c' b end) (λ c' b. erase_loop-Sizes fuel c' b end)
    where
      round :
          (rest : ℕ → ℕ → M D (Unit {0}))
          → ((c' b : ℕ) → Sizes D old old (rest c' b))
          → Sizes D old old (erase_round rest c boundary end)
      round rest k = search (sized_chain, offset_of-Sizes, erase_raw-Sizes) depth 14

  erase_range-Sizes : (begin end : ℕ) → Sizes D old old (erase_range begin end)
  unfolding erase_range
  erase_range-Sizes begin end =
      search (sized_chain, offset_of-Sizes, erase_raw-Sizes, erase_loop-Sizes) depth 16

  update-Sizes :
      (now : ℤ) (size : ℕ)
      → Sizes D old size (set_node (λ n. record n { mtime = now; size = size; is_dirty = true }))
  update-Sizes now size = record { at = λ s h. refl }

  Sizes-size_bind :
      {A : Type 0} (new : ℕ) (f : ℕ → M D A)
      → Sizes D old new (f old)
      → Sizes D old new (gets (λ s. s.node.size) >>= f)
  Sizes-size_bind new f k = record {
    at = λ s h. subst (λ n. SizedBy old new (f n s)) (sym h) (k.at s h);
  }

  unless_same :
      (b : Bool) (size : ℕ) (m : M D (Unit {0}))
      → (b ≡ true → old ≡ size)
      → Sizes D old size m
      → Sizes D old size (cond b (pure tt) m)
  unless_same true size m e k = record { at = λ s h. h ∙ e refl }
  unless_same false size m e k = k

  pub exfat_truncate-Sizes :
      (now : ℤ) (size : ℕ) (erase : Bool) → Sizes D old size (exfat_truncate now size erase)
  unfolding exfat_truncate
  exfat_truncate-Sizes now size erase =
      Sizes-size_bind size
        (λ n. do
          c1 ← gets (λ s. bytes2clusters s.ef.sb s.node.size)
          c2 ← gets (λ s. bytes2clusters s.ef.sb size)
          lost ← gets (λ s. (s.node.references == 0) && s.node.has_parent)
          cond lost exfat_bug (pure tt)
          cond (n == size) (pure tt) (do
            cond (ltb c1 c2) (grow_file c1 (c2 - c1))
                (cond (ltb c2 c1) (shrink_file c1 (c1 - c2)) (pure tt))
            cond erase (erase_range n size) (pure tt)
            set_node (λ n. record n { mtime = now; size = size; is_dirty = true })))
        (search
          (
            sized_chain,
            grow_file-Sizes,
            shrink_file-Sizes,
            erase_range-Sizes,
            update-Sizes,
            λ (m : M D (Unit {0})). unless_same (old == size) size m (λ e. ground (arith, e)),
          )
          depth 20)

module _ {D : Type 0} ⦃io : Device D⦄ where
  -- From a volume whose bitmap of clusters is well formed, and whatever the device answers,
  -- `exfat_truncate` to 0 or to a size that is at least one cluster below 2 ^ 64 comes to its end; the
  -- node has the new size if it succeeds, and the size that it had on each error and on the call of
  -- `exfat_bug`; and the bitmap is well formed in all of these cases.
  pub exfat_truncate_lem :
      (now : ℤ) (size : ℕ) (erase : Bool) (s : State D)
      → Erasable s.ef.sb size
      → IsCmap s.ef.cmap
      → SizedBy s.node.size size (exfat_truncate now size erase s)
        × Kept s.ef.sb (exfat_truncate now size erase s)
  exfat_truncate_lem now size erase s room h =
      ((exfat_truncate-Sizes now size erase).at s refl, exfat_truncate-Kept now size erase s room h)
