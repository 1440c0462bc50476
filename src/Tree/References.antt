-- ===== src/Tree/References.antt =====
-- What `exfat_get_node` and `exfat_put_node` of libexfat/node.c do to the store of nodes.
use mathlib.Core.Path.{fun_ext}
use mathlib.Core.Bool.{cond}
use nuclear_armageddon.Prelude.{
  ℕ, ◌+◌, ◌-◌, ◌≡◌, ◌≢◌, ◌⊎◌, refl, sym, ap, ◌∙◌, true, false, Option, some, ◌==◌, arith,
  Bool-cases, ==_iff, inl, inr,
}
use nuclear_armageddon.Result.{ok}
use nuclear_armageddon.Tree.{
  Inode, Tree, exfat_bug, modify_core, put, with_heap, exfat_get_node, exfat_put_node,
}
use nuclear_armageddon.Tree.Steps.{Heap, differs, itself, fetch_then, modify_then, modify_lem}

-- The node with one reference more.
abbrev pub held : Inode → Inode
held x = record x { core = record (x.core) { references = x.core.references + 1 } }

pub put_back :
    (heap : Heap) (p : ℕ) (x : Inode) (y : Option Inode)
    → heap p ≡ some x
    → put (put heap p y) p (some x) ≡ heap
put_back heap p x y at = fun_ext (λ q. elim (Bool-cases (q == p)) [
  | inl e ↦ rw e (sym (ap heap ((==_iff q p).0 e) ∙ at))
  | inr e ↦ rw e refl
])

-- A place is written, and written back after another one.
pub put_restored :
    (heap : Heap) (p q : ℕ) (d : Inode) (held_d y : Option Inode)
    → heap p ≡ some d
    → p ≢ q
    → put (put (put heap p held_d) q y) p (some d) ≡ put heap q y
put_restored heap p q d held_d y at ne = fun_ext (λ r. at_place r (Bool-cases (r == p)))
  where
    at_place :
        (r : ℕ)
        → ((r == p) ≡ true) ⊎ ((r == p) ≡ false)
        → put (put (put heap p held_d) q y) p (some d) r ≡ put heap q y r
    at_place r (inl e) =
        let same : r ≡ p = (==_iff r p).0 e in rw (same, itself p, differs p q ne) (sym at)
    at_place r (inr e) = rw e refl

module _ {D : Type 0} where
  pub get_lem :
      (p : ℕ) (t : Tree D) (x : Inode)
      → t.heap p ≡ some x
      → exfat_get_node p t ≡ some (ok p, with_heap t (put t.heap p (some (held x))))
  unfolding exfat_get_node
  get_lem p t x at = modify_then p _ _ t x at

  pub put_lem :
      (p : ℕ) (t : Tree D) (x : Inode)
      → t.heap p ≡ some (held x)
      → exfat_put_node p t ≡ some (ok tt, with_heap t (put t.heap p (some x)))
  unfolding exfat_put_node
  put_lem p t x at =
      fetch_then p _ t (held x) at
      ∙ ap
          (λ b.
            cond b exfat_bug (modify_core p (λ n. record n { references = n.references - 1 })) t)
          (differs (x.core.references + 1) 0 (λ e. omega (arith, e)))
      ∙ modify_lem p _ t (held x) at
      ∙ ap
          (λ n. some (
            ok tt,
            with_heap t
                (put t.heap p (some (record x { core = record (x.core) { references = n } }))),
          ))
          (one_less x.core.references)
    where
      one_less : (n : ℕ) → n + 1 - 1 ≡ n
      one_less n = omega arith
