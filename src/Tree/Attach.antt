-- ===== src/Tree/Attach.antt =====
-- What `tree_attach` of libexfat/node.c does to the children of a directory.
use nuclear_armageddon.Prelude.{ℕ, ◌≡◌, ◌≢◌, refl, sym, ap, ◌∙◌, none, some, List, [], ◌∷◌, All}
use nuclear_armageddon.Result.{ok}
use nuclear_armageddon.Tree.{Inode, Tree, ◌>>=◌, put, with_heap, modify, link_first, tree_attach}
use nuclear_armageddon.Tree.Steps.{
  Heap, put_here, put_other, fetch_then, modify_then, modify_lem, value_then,
}
use nuclear_armageddon.Tree.Siblings.{
  IsChain, HasChildren, content, Relinks, content-put, IsChain-put,
}

module _ {D : Type 0} (t : Tree D) (dir p : ℕ) (d x : Inode) (ne : dir ≢ p)
    (hd : t.heap dir ≡ some d) (hx : t.heap p ≡ some x) where
  -- The store once the node has its parent.
  abbrev adopted : Heap
  adopted = put t.heap p (some (record x { parent = some dir }))

  attach_first :
      d.child ≡ none
      → tree_attach dir p t
        ≡ some (ok tt, with_heap t (put adopted dir (some (record d { child = some p }))))
  unfolding tree_attach
  attach_first none_yet =
      modify_then p _ _ t x hx
      ∙ fetch_then dir _ (with_heap t adopted) d (put_other t.heap p dir _ ne ∙ hd)
      ∙ ap
          (λ c.
            (link_first p c >>= λ u. modify dir (λ y. record y { child = some p }))
              (with_heap t adopted))
          none_yet
      ∙ modify_lem dir _ (with_heap t adopted) d (put_other t.heap p dir _ ne ∙ hd)

  module _ (q : ℕ) (y : Inode) (first : d.child ≡ some q) (hy : t.heap q ≡ some y) (qp : q ≢ p)
      (qd : q ≢ dir) where
    -- The store once the node is linked to the first child `q`.
    abbrev behind : Heap
    behind = put adopted q (some (record y { prev = some p }))

    abbrev in_front : Heap
    in_front = put behind p (some (record x { parent = some dir; next = some q }))

    p_behind : behind p ≡ some (record x { parent = some dir })
    p_behind = put_other adopted q p _ (λ e. qp (sym e)) ∙ put_here t.heap p _

    linked : link_first p (some q) (with_heap t adopted) ≡ some (ok tt, with_heap t in_front)
    linked =
        modify_then q _ _ (with_heap t adopted) y (put_other t.heap p q _ qp ∙ hy)
        ∙ modify_lem p _ (with_heap t behind) (record x { parent = some dir }) p_behind

    dir_kept : in_front dir ≡ some d
    dir_kept =
        put_other behind p dir _ ne
        ∙ put_other adopted q dir _ (λ e. qd (sym e))
        ∙ put_other t.heap p dir _ ne
        ∙ hd

    attach_before :
        tree_attach dir p t
        ≡ some (ok tt, with_heap t (put in_front dir (some (record d { child = some p }))))
    unfolding tree_attach
    attach_before =
        modify_then p _ _ t x hx
        ∙ fetch_then dir _ (with_heap t adopted) d (put_other t.heap p dir _ ne ∙ hd)
        ∙ ap
            (λ c.
              (link_first p c >>= λ u. modify dir (λ z. record z { child = some p }))
                (with_heap t adopted))
            first
        ∙ value_then (link_first p (some q)) _ (with_heap t adopted) (with_heap t in_front) tt
            linked
        ∙ modify_lem dir _ (with_heap t in_front) d dir_kept

module _ {D : Type 0} (t : Tree D) (dir p : ℕ) (x : Inode) (hx : t.heap p ≡ some x)
    (no_prev : x.prev ≡ none) (no_next : x.next ≡ none) (pd : p ≢ dir) where
  dp : dir ≢ p
  dp e = pd (sym e)

  module _ (h : HasChildren t.heap dir []) where
    abbrev alone : Heap
    alone = adopted t dir p h.node x dp h.here hx

    abbrev d_first : Inode
    d_first = record (h.node) { child = some p }

    attach_to_none : Relinks t dir (p ∷ []) (tree_attach dir p t)
    attach_to_none = (
      put alone dir (some d_first),
      attach_first t dir p h.node x dp h.here hx h.chain,
      record {
        node = d_first;
        here = put_here alone dir (some d_first);
        chain = (
          refl,
          (
            record x { parent = some dir },
            put_other alone dir p (some d_first) pd ∙ put_here t.heap p _,
            refl,
            no_prev,
            no_next,
          ),
        );
        others = (pd, tt);
        distinct = (tt, tt);
      },
      λ q.
          content-put alone dir h.node d_first (put_other t.heap p dir _ dp ∙ h.here) refl q
          ∙ content-put t.heap p x (record x { parent = some dir }) hx refl q,
    )

  module _ (q : ℕ) (qs : List ℕ) (h : HasChildren t.heap dir (q ∷ qs)) (y : Inode)
      (hy : t.heap q ≡ some y) (first : h.node.child ≡ some q) (qp : q ≢ p)
      (apart : All (λ r. r ≢ p) qs) where
    abbrev before : Heap
    before = adopted t dir p h.node x dp h.here hx

    abbrev second : Heap
    second = behind t dir p h.node x dp h.here hx q y first hy qp h.others.0

    abbrev third : Heap
    third = in_front t dir p h.node x dp h.here hx q y first hy qp h.others.0

    abbrev new_dir : Inode
    new_dir = record (h.node) { child = some p }

    abbrev new_first : Inode
    new_first = record x { parent = some dir; next = some q }

    abbrev old_first : Inode
    old_first = record y { prev = some p }

    pq : p ≢ q
    pq e = qp (sym e)

    rest_kept :
        IsChain t.heap dir (some q) y.next qs
        → IsChain (put third dir (some new_dir)) dir (some q) y.next qs
    rest_kept rest = IsChain-put third dir dir (some new_dir) (some q) y.next qs h.others.1 (
        IsChain-put second dir p (some new_first) (some q) y.next qs apart (
          IsChain-put before dir q (some old_first) (some q) y.next qs h.distinct.0
            (IsChain-put t.heap dir p _ (some q) y.next qs apart rest)))

    q_linked : put third dir (some new_dir) q ≡ some old_first
    q_linked =
        put_other third dir q (some new_dir) h.others.0
        ∙ put_other second p q (some new_first) qp
        ∙ put_here before q (some old_first)

    p_linked : put third dir (some new_dir) p ≡ some new_first
    p_linked = put_other third dir p (some new_dir) pd ∙ put_here second p (some new_first)

    contents : (r : ℕ) → content (put third dir (some new_dir) r) ≡ content (t.heap r)
    contents r =
        content-put third dir h.node new_dir
          (dir_kept t dir p h.node x dp h.here hx q y first hy qp h.others.0) refl r
        ∙ content-put second p (record x { parent = some dir }) new_first
            (p_behind t dir p h.node x dp h.here hx q y first hy qp h.others.0) refl r
        ∙ content-put before q y old_first (put_other t.heap p q _ qp ∙ hy) refl r
        ∙ content-put t.heap p x (record x { parent = some dir }) hx refl r

    attach_to_some :
        y.parent ≡ some dir
        → IsChain t.heap dir (some q) y.next qs
        → Relinks t dir (p ∷ q ∷ qs) (tree_attach dir p t)
    attach_to_some up rest = (
      put third dir (some new_dir),
      attach_before t dir p h.node x dp h.here hx q y first hy qp h.others.0,
      record {
        node = new_dir;
        here = put_here third dir (some new_dir);
        chain = (
          refl,
          (
            new_first,
            p_linked,
            refl,
            no_prev,
            (refl, (old_first, q_linked, up, refl, rest_kept rest)),
          ),
        );
        others = (pd, h.others);
        distinct = ((qp, apart), h.distinct);
      },
      contents,
    )

-- In a directory whose children are linked as the list `ps`, `tree_attach` of a node that is neither
-- the directory nor a child, and has no neighbours, makes the children the list with the node in
-- front, linked both ways and to their parent. Of no node anything but links changes.
pub tree_attach_lem :
    {D : Type 0} (t : Tree D) (dir p : ℕ) (ps : List ℕ) (x : Inode)
    → HasChildren t.heap dir ps
    → t.heap p ≡ some x
    → x.prev ≡ none
    → x.next ≡ none
    → p ≢ dir
    → All (λ q. q ≢ p) ps
    → Relinks t dir (p ∷ ps) (tree_attach dir p t)
tree_attach_lem t dir p [] x h hx no_prev no_next pd apart =
    attach_to_none t dir p x hx no_prev no_next pd h
tree_attach_lem t dir p (q ∷ qs) x h hx no_prev no_next pd (qp, apart) =
    let (first, (y, hy, up, back, rest)) = h.chain in
    attach_to_some t dir p x hx no_prev no_next pd q qs h y hy first qp apart up rest
