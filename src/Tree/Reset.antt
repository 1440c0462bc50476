-- ===== src/Tree/Reset.antt =====
-- `exfat_reset_cache` of libexfat/node.c: all nodes below the root are freed.
use mathlib.Core.Bool.{cond}
use nuclear_armageddon.Prelude.{ℕ, zero, suc, false, not, ◌&&◌, none, some, ◌==◌}
use nuclear_armageddon.Tree.{
  T, ◌>>=◌, ◌>>◌, pure, exfat_bug, asks, out_of_rounds, fetch, modify, free, exfat_put_node,
  tree_detach,
}

module _ {D : Type 0} where
  -- `while (node->references) exfat_put_node(ef, node)`
  unfoldable pub put_all : ℕ → ℕ → T D (Unit {0})
  put_all zero p = pure tt
  put_all (suc references) p = exfat_put_node p >> put_all references p

  -- The loop over the children, with what resets one.
  unfoldable pub reset_children : (ℕ → T D (Unit {0})) → ℕ → ℕ → T D (Unit {0})
  reset_children reset zero p = out_of_rounds
  reset_children reset (suc fuel) p = do
    x ← fetch p
    elim x.child [
      | none ↦ pure tt
      | some c ↦ do reset c; tree_detach c; free c; reset_children reset fuel p
    ]

  -- No node is deeper in the tree, and none has more children, than there are nodes.
  unfoldable pub reset_cache : ℕ → ℕ → T D (Unit {0})
  reset_cache zero p = out_of_rounds
  reset_cache (suc fuel) p = do
    fresh ← asks (λ t. t.fresh)
    reset_children (reset_cache fuel) (suc fresh) p
    modify p (λ x. record x { is_cached = false })
    x ← fetch p
    root ← asks (λ t. t.root)
    cond (not (p == root) && x.core.is_dirty) exfat_bug (pure tt)
    put_all x.core.references p

  unfoldable pub exfat_reset_cache : T D (Unit {0})
  exfat_reset_cache = do
    root ← asks (λ t. t.root)
    fresh ← asks (λ t. t.fresh)
    reset_cache (suc fresh) root
