-- ===== src/Tree/Detach.antt =====
-- What `tree_detach` of libexfat/node.c does to the children of a directory.
use nuclear_armageddon.Prelude.{
  ℕ, ◌≡◌, ◌≢◌, refl, sym, subst, ap, ◌∙◌, Option, none, some, List, [], ◌∷◌, ◌++◌, All,
}
use nuclear_armageddon.Result.{ok}
use nuclear_armageddon.Tree.{Inode, Tree, put, with_heap, skip_from, skip_to, tree_detach}
use nuclear_armageddon.Tree.Steps.{Heap, put_here, put_other, fetch_then, modify_lem, value_then}
use nuclear_armageddon.Tree.Siblings.{
  IsChain, HasChildren, Distinct, content, Relinks, content-put, IsChain-put,
}
use nuclear_armageddon.Tree.Segment.{
  IsSegment, Apart, All-left, All-right, All-without, Distinct-left, Distinct-right,
  Distinct-without, Distinct-Apart, IsChain-cut, IsChain-join, IsSegment-kept, IsSegment-LastOf,
  IsChain-kept, All-map, All-map_both, Apart-flip,
}

-- What holds once the nodes before the cut, or the directory, go on with `stop`.
record Front (heap heap' : Heap) (dir : ℕ) (xs : List ℕ) (last stop : Option ℕ) : Type 1 where
  node : Inode
  here : heap' dir ≡ some node
  segment : IsSegment heap' dir none node.child xs last stop
  same : (q : ℕ) → q ≢ dir → All (λ r. r ≢ q) xs → heap' q ≡ heap q
  contents : (q : ℕ) → content (heap' q) ≡ content (heap q)

-- What holds once the nodes behind the cut come after `last`.
record Back (heap heap' : Heap) (dir : ℕ) (ys : List ℕ) (last stop : Option ℕ) : Type 0 where
  chain : IsChain heap' dir last stop ys
  same : (q : ℕ) → All (λ r. r ≢ q) ys → heap' q ≡ heap q
  contents : (q : ℕ) → content (heap' q) ≡ content (heap q)

module _ {D : Type 0} (dir p : ℕ) where
  Front-empty :
      (t : Tree D) (d : Inode) (last stop next : Option ℕ)
      → t.heap dir ≡ some d
      → IsSegment t.heap dir none d.child [] last stop
      → (heap' : Heap) × (skip_from (some dir) next last t ≡ some (ok tt, with_heap t heap'))
        × Front t.heap heap' dir [] last next
  Front-empty t d last stop next hd (s, l) = (
    put t.heap dir (some (record d { child = next })),
    subst
        (λ o.
          skip_from (some dir) next o t
          ≡ some (ok tt, with_heap t (put t.heap dir (some (record d { child = next })))))
        l (modify_lem dir _ t d hd),
    record {
      node = record d { child = next };
      here = put_here t.heap dir _;
      segment = (refl, l);
      same = λ q ne h. put_other t.heap dir q _ ne;
      contents = content-put t.heap dir d (record d { child = next }) hd refl;
    },
  )

  Front-last :
      (t : Tree D) (d : Inode) (w : ℕ) (xs : List ℕ) (last stop next : Option ℕ)
      → t.heap dir ≡ some d
      → All (λ q. q ≢ dir) (w ∷ xs)
      → Distinct (w ∷ xs)
      → IsSegment t.heap dir none d.child (w ∷ xs) last stop
      → (heap' : Heap) × (skip_from (some dir) next last t ≡ some (ok tt, with_heap t heap'))
        × Front t.heap heap' dir (w ∷ xs) last next
  Front-last t d w xs last stop next hd apart distinct h =
      let l = IsSegment-LastOf t.heap dir none d.child w xs last stop distinct h in
      (
        put t.heap l.place (some (record (l.node) { next = next })),
        subst
            (λ o.
              skip_from (some dir) next o t
              ≡ some (
                ok tt,
                with_heap t (put t.heap l.place (some (record (l.node) { next = next }))),
              ))
            (sym l.is_last) (modify_lem l.place _ t l.node l.here),
        record {
          node = d;
          here = put_other t.heap l.place dir _ (λ e. l.among (λ q. q ≢ dir) apart (sym e)) ∙ hd;
          segment = l.retarget next;
          same = λ q ne away. put_other t.heap l.place q _ (λ e. l.among (λ r. r ≢ q) away (sym e));
          contents =
              content-put t.heap l.place l.node (record (l.node) { next = next }) l.here refl;
        },
      )

  back :
      (t : Tree D) (before last stop : Option ℕ) (ys : List ℕ)
      → Distinct ys
      → IsChain t.heap dir before stop ys
      → (heap' : Heap) × (skip_to last stop t ≡ some (ok tt, with_heap t heap'))
        × Back t.heap heap' dir ys last stop
  back t before last stop [] distinct h = (
    t.heap,
    subst (λ o. skip_to last o t ≡ some (ok tt, t)) (sym h) refl,
    record { chain = h; same = λ q away. refl; contents = λ q. refl },
  )
  back t before last stop (r ∷ ys) (apart, distinct) (s, (y, at, up, prev, rest)) = (
    put t.heap r (some (record y { prev = last })),
    subst
        (λ o.
          skip_to last o t
          ≡ some (ok tt, with_heap t (put t.heap r (some (record y { prev = last })))))
        (sym s) (modify_lem r _ t y at),
    record {
      chain = (
        s,
        (
          record y { prev = last },
          put_here t.heap r _,
          up,
          refl,
          IsChain-put t.heap dir r _ (some r) y.next ys apart rest,
        ),
      );
      same = λ q away. put_other t.heap r q _ (λ e. away.0 (sym e));
      contents = content-put t.heap r y (record y { prev = last }) at refl;
    },
  )

  front :
      (t : Tree D) (d : Inode) (xs : List ℕ) (last stop next : Option ℕ)
      → t.heap dir ≡ some d
      → All (λ q. q ≢ dir) xs
      → Distinct xs
      → IsSegment t.heap dir none d.child xs last stop
      → (heap' : Heap) × (skip_from (some dir) next last t ≡ some (ok tt, with_heap t heap'))
        × Front t.heap heap' dir xs last next
  front t d [] last stop next hd apart distinct h = Front-empty t d last stop next hd h
  front t d (w ∷ xs) last stop next hd apart distinct h =
      Front-last t d w xs last stop next hd apart distinct h

module _ {D : Type 0} (t : Tree D) (dir p : ℕ) (xs ys : List ℕ)
    (h : HasChildren t.heap dir (xs ++ p ∷ ys)) where
  behind_apart : All (λ q. q ≢ dir) (p ∷ ys)
  behind_apart = All-right (λ q. q ≢ dir) xs (p ∷ ys) h.others

  behind-Distinct : Distinct (p ∷ ys)
  behind-Distinct = Distinct-right xs (p ∷ ys) h.distinct

  cut-Apart : Apart xs (p ∷ ys)
  cut-Apart = Distinct-Apart xs (p ∷ ys) h.distinct

  -- Between the changes on both sides of the node.
  module _ (last : Option ℕ) (x : Inode) (at : t.heap p ≡ some x) (up : x.parent ≡ some dir)
      (prev : x.prev ≡ last) (heap1 heap2 : Heap)
      (run1 : skip_from (some dir) x.next last t ≡ some (ok tt, with_heap t heap1))
      (run2 : skip_to last x.next (with_heap t heap1) ≡ some (ok tt, with_heap t heap2))
      (before_it : Front t.heap heap1 dir xs last x.next)
      (behind_it : Back heap1 heap2 dir ys last x.next) where
    abbrev off : Inode
    off = record x { parent = none; prev = none; next = none }

    node_kept : heap2 p ≡ some x
    node_kept =
        behind_it.same p behind-Distinct.0
        ∙ before_it.same p behind_apart.0 (All-map xs (λ q k e. k.0 (sym e)) cut-Apart)
        ∙ at

    runs : tree_detach p t ≡ some (ok tt, with_heap t (put heap2 p (some off)))
    unfolding tree_detach
    runs =
        fetch_then p _ t x at
        ∙ value_then (skip_from x.parent x.next x.prev) _ t (with_heap t heap1) tt (
            ap (λ o. skip_from o x.next x.prev t) up
            ∙ ap (λ o. skip_from (some dir) x.next o t) prev
            ∙ run1)
        ∙ value_then (skip_to x.prev x.next) _ (with_heap t heap1) (with_heap t heap2) tt
            (ap (λ o. skip_to o x.next (with_heap t heap1)) prev ∙ run2)
        ∙ modify_lem p _ (with_heap t heap2) x node_kept

    IsSegment-put : IsSegment (put heap2 p (some off)) dir none before_it.node.child xs last x.next
    IsSegment-put =
        IsSegment-kept heap1 (put heap2 p (some off)) dir none before_it.node.child xs last x.next
          (All-map xs (λ q k. put_other heap2 p q _ (λ e. k.0 (sym e)) ∙ behind_it.same q k.1)
            cut-Apart)
          before_it.segment

    detached : Relinks t dir (xs ++ ys) (tree_detach p t)
    detached = (
      put heap2 p (some off),
      runs,
      record {
        node = before_it.node;
        here =
            put_other heap2 p dir _ (λ e. behind_apart.0 (sym e))
            ∙ behind_it.same dir behind_apart.1
            ∙ before_it.here;
        chain =
            IsChain-join _ dir none before_it.node.child xs last x.next ys IsSegment-put
              (IsChain-put heap2 dir p _ last x.next ys behind-Distinct.0 behind_it.chain);
        others = All-without (λ q. q ≢ dir) xs p ys h.others;
        distinct = Distinct-without xs p ys h.distinct;
      },
      λ q. content-put heap2 p x off node_kept refl q ∙ behind_it.contents q ∙ before_it.contents q,
    )

-- In a directory whose children are linked as a list with the node somewhere in it, `tree_detach` of
-- the node makes the children the list without it, linked both ways and to their parent. Of no node
-- anything but links changes.
pub tree_detach_lem :
    {D : Type 0} (t : Tree D) (dir p : ℕ) (xs ys : List ℕ)
    → HasChildren t.heap dir (xs ++ p ∷ ys)
    → Relinks t dir (xs ++ ys) (tree_detach p t)
tree_detach_lem t dir p xs ys h =
    let (last, stop, segment, (s, (x, at, up, prev, rest))) =
      IsChain-cut t.heap dir none h.node.child xs (p ∷ ys) h.chain in
    let (heap1, run1, before_it) =
      front dir p t h.node xs last stop x.next h.here (All-left _ xs (p ∷ ys) h.others)
        (Distinct-left xs (p ∷ ys) h.distinct) segment in
    let rest1 =
      IsChain-kept t.heap heap1 dir (some p) x.next ys
        (All-map_both ys (λ q ne away. before_it.same q ne away) (behind_apart t dir p xs ys h).1
          (Apart-flip xs ys (All-map xs (λ q k. k.1) (cut-Apart t dir p xs ys h))))
        rest in
    let (heap2, run2, behind_it) =
      back dir p (with_heap t heap1) (some p) last x.next ys (behind-Distinct t dir p xs ys h).1
        rest1 in
    detached t dir p xs ys h last x at up prev heap1 heap2 run1 run2 before_it behind_it
