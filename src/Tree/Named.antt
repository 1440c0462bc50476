-- ===== src/Tree/Named.antt =====
-- `lookup_name` of libexfat/lookup.c as a whole, in a directory that is cached.
use mathlib.Core.Bool.{cond}
use nuclear_armageddon.Prelude.{
  ℕ, suc, ◌+◌, ◌/◌, ◌≤◌, ◌≡◌, sym, subst, ap, ◌∙◌, Bool, true, none, some, List, All, length, arith,
}
use nuclear_armageddon.Result.{ok}
use nuclear_armageddon.Exfat.{Device}
use nuclear_armageddon.Utf.{utf8_to_utf16}
use nuclear_armageddon.Dir.{entry_size}
use nuclear_armageddon.Tree.{
  Inode, Tree, ◌>>◌, pure, call, fail, continue_with, with_heap, put, exfat_get_node,
  exfat_put_node,
}
use nuclear_armageddon.Tree.Steps.{put_here, fetch_then, value_then}
use nuclear_armageddon.Tree.Siblings.{HasChildren}
use nuclear_armageddon.Tree.Cache.{exfat_cache_directory, cache_loop}
use nuclear_armageddon.Tree.Walk.{exfat_opendir, lookup_name, name_max}
use nuclear_armageddon.Tree.References.{held, get_lem}
use nuclear_armageddon.Tree.Find.{Answers, Looked, search_lem}

module _ {D : Type 0} ⦃io : Device D⦄ where
  cached_lem :
      (dir : ℕ) (t : Tree D) (d : Inode)
      → t.heap dir ≡ some d
      → d.is_cached ≡ true
      → exfat_cache_directory dir t ≡ some (ok tt, t)
  unfolding exfat_cache_directory
  cached_lem dir t d hd cached =
      fetch_then dir _ t d hd
      ∙ ap
          (λ b.
            cond b (pure tt)
              (cache_loop (d.core.size / entry_size + 2) (d.core.size / entry_size + 2) dir none 0)
              t)
          cached

  open_lem :
      (dir : ℕ) (t : Tree D) (d : Inode)
      → t.heap dir ≡ some d
      → d.is_cached ≡ true
      → exfat_opendir dir t ≡ some (ok tt, with_heap t (put t.heap dir (some (held d))))
  unfolding exfat_opendir
  open_lem dir t d hd cached =
      value_then (exfat_get_node dir) _ t _ dir (get_lem dir t d hd)
      ∙ ap
          (λ o. elim o [
            | none ↦ none
            | some r ↦ continue_with r.0 r.1 (λ e. exfat_put_node dir >> fail e) pure
          ])
          (cached_lem dir _ (held d) (put_here t.heap dir (some (held d))) cached)

  -- In a directory that is cached, whose children are linked as the list `ps`, where the name has a
  -- form in UTF-16 and its comparison with each child's name has a result, `lookup_name` gives the
  -- first child that compares equal, with one reference more, or -ENOENT where there is none. It
  -- comes to its end, and changes nothing else: the directory's references are as before.
  pub lookup_name_lem :
      (t : Tree D) (dir : ℕ) (ps : List ℕ) (name units : List ℕ) (table : ℕ → ℕ)
      (h : HasChildren t.heap dir ps)
      → h.node.is_cached ≡ true
      → t.upcase ≡ some table
      → utf8_to_utf16 name (name_max + 1) ≡ ok units
      → length ps ≤ t.fresh
      → All (λ p. (b : Bool) × Answers table units t.heap p b) ps
      → Looked table units t ps (lookup_name dir name t)
  unfolding lookup_name
  lookup_name_lem t dir ps name units table h cached known e few answers =
      subst (Looked table units t ps)
        (sym (
          value_then (call (utf8_to_utf16 name (name_max + 1))) _ t t units
            (ap (λ r. some (r, t)) e)
          ∙ value_then (exfat_opendir dir) _ t _ tt (open_lem dir t h.node h.here cached)))
        (search_lem t dir h.node h.here table known units (suc t.fresh) none h.node.child ps
          (omega (arith, few))
          (fetch_then dir (λ y. pure y.child) _ (held h.node)
            (put_here t.heap dir (some (held h.node))))
          h.chain h.others answers)
