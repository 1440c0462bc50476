-- ===== src/Tree/Find.antt =====
-- What `lookup_name` of libexfat/lookup.c finds in a directory that is cached.
use mathlib.Core.Bool.{cond}
use nuclear_armageddon.Prelude.{
  ℕ, zero, suc, ◌≡◌, ◌≢◌, ◌<◌, refl, sym, subst, ap, ◌∙◌, Bool, true, false, not, Option, none,
  some, List, [], ◌∷◌, ◌++◌, All, length, arith,
}
use nuclear_armageddon.Prelude.Int.{ℤ}
use nuclear_armageddon.Result.{Result, ok, err, enoent}
use nuclear_armageddon.Lookup.{compare_name, nonzero}
use nuclear_armageddon.Tree.{
  Inode, Tree, T, ◌>>=◌, ◌>>◌, pure, fail, continue_with, defined, put, with_heap, exfat_get_node,
  exfat_put_node,
}
use nuclear_armageddon.Tree.Steps.{Heap, put_here, put_other, fetch_then, value_then}
use nuclear_armageddon.Tree.Siblings.{IsChain}
use nuclear_armageddon.Tree.Walk.{
  same_name, following, hold, exfat_readdir, exfat_closedir, found_or, search_loop,
}
use nuclear_armageddon.Tree.References.{held, put_back, put_restored, get_lem, put_lem}

-- Whether the directory's child has the name, where the comparison of both has a result.
abbrev pub Answers : (ℕ → ℕ) → List ℕ → Heap → ℕ → Bool → Type 0
Answers table name heap q b =
    (x : Inode) × (rc : ℤ) × (heap q ≡ some x)
    × (compare_name table name x.name ≡ some rc)
    × (not (nonzero rc) ≡ b)

-- Either the first child with the name is found, and holds one reference more, or no child has the
-- name; nothing else changes.
pub data Looked {D : Type 0} (table : ℕ → ℕ) (name : List ℕ) (t : Tree D) (ps : List ℕ)
    (r : Option (Result ℕ × Tree D)) : Type 0 where
  found :
      (xs ys : List ℕ) (q : ℕ) (x : Inode)
      → ps ≡ xs ++ q ∷ ys
      → All (λ p. Answers table name t.heap p false) xs
      → Answers table name t.heap q true
      → t.heap q ≡ some x
      → r ≡ some (ok q, with_heap t (put t.heap q (some (held x))))
      → Looked table name t ps r
  absent :
      All (λ p. Answers table name t.heap p false) ps
      → r ≡ some (err enoent, t)
      → Looked table name t ps r

module _ {D : Type 0} (t : Tree D) (dir : ℕ) (d : Inode) (hd : t.heap dir ≡ some d) (table : ℕ → ℕ)
    (known : t.upcase ≡ some table) (name : List ℕ) where
  -- The tree while the directory is open.
  abbrev opened : Tree D
  opened = with_heap t (put t.heap dir (some (held d)))

  close_lem : exfat_closedir dir opened ≡ some (ok tt, t)
  unfolding exfat_closedir
  close_lem =
      put_lem dir opened d (put_here t.heap dir (some (held d)))
      ∙ ap (λ h. some (ok tt, with_heap t h)) (put_back t.heap dir d (some (held d)) hd)

  same_lem :
      (u : Tree D) (x : Inode) (rc : ℤ)
      → u.upcase ≡ some table
      → compare_name table name x.name ≡ some rc
      → same_name name x.name u ≡ some (ok (not (nonzero rc)), u)
  unfolding same_name
  same_lem u x rc e c =
      ap
        (λ o.
          (defined o >>= λ f.
          defined (compare_name f name x.name) >>= λ rc. pure (not (nonzero rc)))
            u)
        e
      ∙ ap (λ o. (defined o >>= λ rc. pure (not (nonzero rc))) u) c

  extend :
      (q : ℕ) (qs : List ℕ) (r r' : Option (Result ℕ × Tree D))
      → r' ≡ r
      → Answers table name t.heap q false
      → Looked table name t qs r
      → Looked table name t (q ∷ qs) r'
  extend q qs r r' e other (found xs ys p x split differ same at run) =
      found (q ∷ xs) ys p x (ap (λ l. q ∷ l) split) (other, differ) same at (e ∙ run)
  extend q qs r r' e other (absent differ run) = absent (other, differ) (e ∙ run)

  read_lem :
      (current start : Option ℕ) (rest : Option ℕ → T D ℕ)
      → following dir current opened ≡ some (ok start, opened)
      → (exfat_readdir dir current >>= found_or rest name dir) opened
        ≡ (hold start >>= found_or rest name dir) opened
  unfolding exfat_readdir
  read_lem current start rest e =
      ap
        (λ o. elim o [ none ↦ none | some r ↦ continue_with r.0 r.1 fail (found_or rest name dir) ])
        (value_then (following dir current) hold opened opened start e)

  none_left :
      (rest : Option ℕ → T D ℕ)
      → (hold none >>= found_or rest name dir) opened ≡ some (err enoent, t)
  none_left rest = value_then (exfat_closedir dir) (λ u. fail enoent) opened t tt close_lem

  module _ (q : ℕ) (x : Inode) (rc : ℤ) (hx : t.heap q ≡ some x) (qd : q ≢ dir)
      (c : compare_name table name x.name ≡ some rc) (rest : Option ℕ → T D ℕ) where
    abbrev taken : Tree D
    taken = with_heap t (put opened.heap q (some (held x)))

    q_opened : opened.heap q ≡ some x
    q_opened = put_other t.heap dir q (some (held d)) qd ∙ hx

    compared :
        (hold (some q) >>= found_or rest name dir) opened
        ≡ cond
            (not (nonzero rc))
            (exfat_closedir dir >> pure q)
            (exfat_put_node q >> rest (some q))
            taken
    compared =
        value_then (hold (some q)) (found_or rest name dir) opened taken (some q) (
          value_then (exfat_get_node q) (λ p. pure (some p)) opened taken q
            (get_lem q opened x q_opened))
        ∙ fetch_then q _ taken (held x) (put_here opened.heap q (some (held x)))
        ∙ value_then (same_name name x.name) _ taken taken (not (nonzero rc))
            (same_lem taken x rc known c)

    closed :
        (exfat_closedir dir >> pure q) taken
        ≡ some (ok q, with_heap t (put t.heap q (some (held x))))
    unfolding exfat_closedir
    closed =
        value_then (exfat_put_node dir) (λ u. pure q) taken _ tt
          (put_lem dir taken d (
            put_other opened.heap q dir (some (held x)) (λ e. qd (sym e))
            ∙ put_here t.heap dir (some (held d))))
        ∙ ap (λ h. some (ok q, with_heap t h))
            (put_restored t.heap dir q d (some (held d)) (some (held x)) hd (λ e. qd (sym e)))

    given_back : (exfat_put_node q >> rest (some q)) taken ≡ rest (some q) opened
    given_back =
        value_then (exfat_put_node q) (λ u. rest (some q)) taken _ tt
          (put_lem q taken x (put_here opened.heap q (some (held x))))
        ∙ ap (λ h. rest (some q) (with_heap t h))
            (put_back opened.heap q x (some (held x)) q_opened)

  -- Whether the comparison with a child's name has a result.
  abbrev Answering : ℕ → Type 0
  Answering p = (b : Bool) × Answers table name t.heap p b

  decided :
      (q : ℕ) (qs : List ℕ) (qd : q ≢ dir) (b : Bool) (x : Inode) (rc : ℤ) (hx : t.heap q ≡ some x)
      (c : compare_name table name x.name ≡ some rc)
      → not (nonzero rc) ≡ b
      → (rest : Option ℕ → T D ℕ) → Looked table name t qs (rest (some q) opened)
      → Looked table name t (q ∷ qs) ((hold (some q) >>= found_or rest name dir) opened)
  decided q qs qd true x rc hx c e rest later =
      found [] qs q x refl tt (x, rc, hx, c, e) hx
        (compared q x rc hx qd c rest
          ∙ ap
              (λ b.
                cond b (exfat_closedir dir >> pure q) (exfat_put_node q >> rest (some q))
                  (taken q x rc hx qd c rest))
              e
          ∙ closed q x rc hx qd c rest)
  decided q qs qd false x rc hx c e rest later =
      extend q qs _ _
        (compared q x rc hx qd c rest
          ∙ ap
              (λ b.
                cond b (exfat_closedir dir >> pure q) (exfat_put_node q >> rest (some q))
                  (taken q x rc hx qd c rest))
              e
          ∙ given_back q x rc hx qd c rest)
        (x, rc, hx, c, e) later

  pub search_lem :
      (fuel : ℕ) (current start : Option ℕ) (ps : List ℕ)
      → length ps < fuel
      → following dir current opened ≡ some (ok start, opened)
      → IsChain t.heap dir current start ps
      → All (λ q. q ≢ dir) ps
      → All Answering ps
      → Looked table name t ps (search_loop fuel name dir current opened)
  unfolding search_loop
  search_lem zero current start ps h e chain apart answers = absurd (omega (arith, h))
  search_lem (suc fuel) current start [] h e chain apart answers = absent tt (
      read_lem current start (search_loop fuel name dir) e
      ∙ ap (λ o. (hold o >>= found_or (search_loop fuel name dir) name dir) opened) chain
      ∙ none_left (search_loop fuel name dir))
  search_lem (suc fuel) current start (q ∷ qs) h e (s, (x', hx', up, back, chain)) (qd, apart)
        ((b, (x, rc, hx, c, same)), answers) =
      subst (λ r. Looked table name t (q ∷ qs) r)
        (sym (
          read_lem current start (search_loop fuel name dir) e
          ∙ ap (λ o. (hold o >>= found_or (search_loop fuel name dir) name dir) opened) s))
        (decided q qs qd b x rc hx c same (search_loop fuel name dir) (
          search_lem fuel (some q) x'.next qs (omega (arith, h))
            (fetch_then q (λ y. pure y.next) opened x'
              (put_other t.heap dir q (some (held d)) qd ∙ hx'))
            chain apart answers))
