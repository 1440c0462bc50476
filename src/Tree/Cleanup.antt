-- ===== src/Tree/Cleanup.antt =====
-- What `exfat_cleanup_node` of libexfat/node.c does to an unlinked node.
use mathlib.Core.Bool.{cond}
use nuclear_armageddon.Prelude.{
  ℕ, ◌≡◌, ◌⊎◌, inl, inr, refl, sym, subst, ap, ◌∙◌, true, Option, none, some, ◌==◌, arith,
}
use nuclear_armageddon.Result.{Result, ok, err, bug, out_of_fuel}
use nuclear_armageddon.Exfat.{Device}
use nuclear_armageddon.Cluster.Allocate.{IsCmap}
use nuclear_armageddon.Cluster.Truncate.{exfat_truncate}
use nuclear_armageddon.Cluster.Keeps.{Ends}
use nuclear_armageddon.Cluster.Keeps.Size.{Erasable, exfat_truncate-Kept}
use nuclear_armageddon.Tree.{
  Inode, Tree, T, ◌>>=◌, ◌>>◌, pure, fail, exfat_bug, asks, continue_with, ending, put, with_heap,
  loaded, stored, on_node, free, exfat_cleanup_node,
}
use nuclear_armageddon.Tree.Steps.{put_here, fetch_then, value_then}

-- The call comes to its end, with a result or an error, and the node's memory is free and the bitmap
-- of clusters well formed; or `exfat_bug` is called.
pub record Frees {D : Type 0} (p : ℕ) (r : Option (Result (Unit {0}) × Tree D)) : Type 0 where
  pub result : Result (Unit {0})
  pub after : Tree D
  pub run : r ≡ some (result, after)
  pub ends : Ends result
  pub freed : (after.heap p ≡ none) ⊎ (result ≡ bug)
  pub cmap : IsCmap after.ef.cmap

module _ {D : Type 0} (p : ℕ) (t : Tree D) (y : Inode) (at : t.heap p ≡ some y)
    (ok_map : IsCmap t.ef.cmap) where
  abbrev gone : Tree D
  gone = with_heap t (put t.heap p none)

  free_then : {B : Type 0} (k : T D B) → (free p >> k) t ≡ k gone
  free_then k = value_then (free p) (λ u. k) t gone tt (fetch_then p _ t y at)

  finish :
      (r : Result (Unit {0}))
      → Ends r
      → Frees p (continue_with r t (λ e. free p >> fail e) (λ a. free p >> pure a))
  finish (ok a) e = record {
    result = ok a;
    after = gone;
    run = free_then (pure a);
    ends = tt;
    freed = inl (put_here t.heap p none);
    cmap = ok_map;
  }
  finish (err x) e = record {
    result = err x;
    after = gone;
    run = free_then (fail x);
    ends = tt;
    freed = inl (put_here t.heap p none);
    cmap = ok_map;
  }
  finish bug e = record {
    result = bug;
    after = t;
    run = refl;
    ends = tt;
    freed = inr refl;
    cmap = ok_map;
  }
  finish out_of_fuel e = absurd e

module _ {D : Type 0} ⦃io : Device D⦄ where
  cleanup_run :
      (p : ℕ) (t : Tree D) (x : Inode)
      → t.heap p ≡ some x
      → (x.core.references == 0) ≡ true
      → x.is_unlinked ≡ true
      → exfat_cleanup_node p t ≡ ending (on_node p (exfat_truncate t.now 0 true)) (free p) t
  unfolding exfat_cleanup_node
  cleanup_run p t x at unused unlinked =
      fetch_then p _ t x at
      ∙ ap
          (λ b.
            (cond b (pure tt) exfat_bug
                >> (asks (λ u. u.now) >>= λ now.
                    cond x.is_unlinked (ending (on_node p (exfat_truncate now 0 true)) (free p))
                      (pure tt)))
              t)
          unused
      ∙ ap (λ b. cond b (ending (on_node p (exfat_truncate t.now 0 true)) (free p)) (pure tt) t)
          unlinked

  -- On a node without references that is unlinked, with a well-formed bitmap of clusters and
  -- whatever the device answers, `exfat_cleanup_node` comes to its end and leaves a well-formed
  -- bitmap. Unless `exfat_bug` is called, the node's memory is free then, even in case of an error.
  pub exfat_cleanup_node-Frees :
      (p : ℕ) (t : Tree D) (x : Inode)
      → t.heap p ≡ some x
      → x.core.references ≡ 0
      → x.is_unlinked ≡ true
      → IsCmap t.ef.cmap
      → Frees p (exfat_cleanup_node p t)
  exfat_cleanup_node-Frees p t x at unused unlinked h =
      let r = exfat_truncate t.now 0 true (loaded t x) in
      let (v, e) = exfat_truncate-Kept t.now 0 true (loaded t x) (unfold Erasable in inl refl) h in
      subst (Frees p)
        (sym (
          cleanup_run p t x at (ground (arith, unused)) unlinked
          ∙ ap
              (λ o. elim o [
                | none ↦ none
                | some q ↦ continue_with q.0 q.1 (λ e. free p >> fail e) (λ a. free p >> pure a)
              ])
              (ap
                (λ o. elim o [
                  | none ↦ none
                  | some z ↦ some (stored t p z (exfat_truncate t.now 0 true (loaded t z)))
                ])
                at)))
        (finish p (stored t p x r).1 (record x { core = r.1.node }) (put_here t.heap p _) v.cmap r.0
          e)
