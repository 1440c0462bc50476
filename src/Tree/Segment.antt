-- ===== src/Tree/Segment.antt =====
-- Parts of a list of siblings: where it is cut in two, and changes at the cut.
use nuclear_armageddon.Prelude.{
  ℕ, ◌≡◌, ◌≢◌, refl, sym, subst, ◌∙◌, Option, some, List, [], ◌∷◌, ◌++◌, All,
}
use nuclear_armageddon.Tree.{Inode, put}
use nuclear_armageddon.Tree.Steps.{Heap, put_here, put_other}
use nuclear_armageddon.Tree.Siblings.{IsChain, Distinct}

-- The nodes from `start` on, behind `prev`, are these siblings; the last one is `last`, and its next
-- one is `stop`.
abbrev pub IsSegment : Heap → ℕ → Option ℕ → Option ℕ → List ℕ → Option ℕ → Option ℕ → Type 0
IsSegment heap dir prev start [] last stop = (start ≡ stop) × (prev ≡ last)
IsSegment heap dir prev start (p ∷ ps) last stop =
    (start ≡ some p)
    × ((x : Inode) × (heap p ≡ some x)
        × (x.parent ≡ some dir)
        × (x.prev ≡ prev)
        × IsSegment heap dir (some p) x.next ps last stop)

-- The first list is apart from the second one.
abbrev pub Apart : List ℕ → List ℕ → Type 0
Apart xs ys = All (λ q. All (λ r. r ≢ q) ys) xs

module _ (P : ℕ → Type 0) where
  pub All-left : (xs ys : List ℕ) → All P (xs ++ ys) → All P xs
  All-left [] ys h = tt
  All-left (x ∷ xs) ys (h, rest) = (h, All-left xs ys rest)

  pub All-right : (xs ys : List ℕ) → All P (xs ++ ys) → All P ys
  All-right [] ys h = h
  All-right (x ∷ xs) ys (h, rest) = All-right xs ys rest

  pub All-without : (xs : List ℕ) (p : ℕ) (ys : List ℕ) → All P (xs ++ p ∷ ys) → All P (xs ++ ys)
  All-without [] p ys (h, rest) = rest
  All-without (x ∷ xs) p ys (h, rest) = (h, All-without xs p ys rest)

pub All-map : {P Q : ℕ → Type 0} (xs : List ℕ) → ((q : ℕ) → P q → Q q) → All P xs → All Q xs
All-map [] f h = tt
All-map (x ∷ xs) f (h, rest) = (f x h, All-map xs f rest)

pub All-map_both :
    {P Q R : ℕ → Type 0} (xs : List ℕ)
    → ((q : ℕ) → P q → Q q → R q)
    → All P xs
    → All Q xs
    → All R xs
All-map_both [] f h k = tt
All-map_both (x ∷ xs) f (h, hs) (k, ks) = (f x h k, All-map_both xs f hs ks)

pub Distinct-left : (xs ys : List ℕ) → Distinct (xs ++ ys) → Distinct xs
Distinct-left [] ys h = tt
Distinct-left (x ∷ xs) ys (h, rest) = (All-left _ xs ys h, Distinct-left xs ys rest)

pub Distinct-right : (xs ys : List ℕ) → Distinct (xs ++ ys) → Distinct ys
Distinct-right [] ys h = h
Distinct-right (x ∷ xs) ys (h, rest) = Distinct-right xs ys rest

pub Distinct-without :
    (xs : List ℕ) (p : ℕ) (ys : List ℕ) → Distinct (xs ++ p ∷ ys) → Distinct (xs ++ ys)
Distinct-without [] p ys (h, rest) = rest
Distinct-without (x ∷ xs) p ys (h, rest) = (All-without _ xs p ys h, Distinct-without xs p ys rest)

pub Distinct-Apart : (xs ys : List ℕ) → Distinct (xs ++ ys) → Apart xs ys
Distinct-Apart [] ys h = tt
Distinct-Apart (x ∷ xs) ys (h, rest) = (All-right _ xs ys h, Distinct-Apart xs ys rest)

pub Apart-flip : (xs ys : List ℕ) → Apart xs ys → Apart ys xs
Apart-flip xs [] h = tt
Apart-flip xs (y ∷ ys) h =
    (All-map xs (λ q k e. k.0 (sym e)) h, Apart-flip xs ys (All-map xs (λ q k. k.1) h))

-- Where a list is cut.
pub IsChain-cut :
    (heap : Heap) (dir : ℕ) (prev start : Option ℕ) (xs ys : List ℕ)
    → IsChain heap dir prev start (xs ++ ys)
    → (last : Option ℕ) × (stop : Option ℕ) × IsSegment heap dir prev start xs last stop
      × IsChain heap dir last stop ys
IsChain-cut heap dir prev start [] ys h = (prev, start, (refl, refl), h)
IsChain-cut heap dir prev start (p ∷ xs) ys (s, (x, at, up, back, rest)) =
    let (last, stop, segment, chain) = IsChain-cut heap dir (some p) x.next xs ys rest in
    (last, stop, (s, (x, at, up, back, segment)), chain)

pub IsChain-join :
    (heap : Heap) (dir : ℕ) (prev start : Option ℕ) (xs : List ℕ) (last stop : Option ℕ)
    (ys : List ℕ)
    → IsSegment heap dir prev start xs last stop
    → IsChain heap dir last stop ys
    → IsChain heap dir prev start (xs ++ ys)
IsChain-join heap dir prev start [] last stop ys (s, l) h =
    subst (λ o. IsChain heap dir o start ys) (sym l)
      (subst (λ o. IsChain heap dir last o ys) (sym s) h)
IsChain-join heap dir prev start (p ∷ xs) last stop ys (s, (x, at, up, back, rest)) h =
    (s, (x, at, up, back, IsChain-join heap dir (some p) x.next xs last stop ys rest h))

-- A store in which these nodes are as before.
pub IsSegment-kept :
    (heap heap' : Heap) (dir : ℕ) (prev start : Option ℕ) (xs : List ℕ) (last stop : Option ℕ)
    → All (λ q. heap' q ≡ heap q) xs
    → IsSegment heap dir prev start xs last stop
    → IsSegment heap' dir prev start xs last stop
IsSegment-kept heap heap' dir prev start [] last stop same h = h
IsSegment-kept heap heap' dir prev start (p ∷ xs) last stop (e, same) (s, (x, at, up, back, rest)) =
    (s, (x, e ∙ at, up, back, IsSegment-kept heap heap' dir (some p) x.next xs last stop same rest))

pub IsChain-kept :
    (heap heap' : Heap) (dir : ℕ) (prev start : Option ℕ) (xs : List ℕ)
    → All (λ q. heap' q ≡ heap q) xs
    → IsChain heap dir prev start xs
    → IsChain heap' dir prev start xs
IsChain-kept heap heap' dir prev start [] same h = h
IsChain-kept heap heap' dir prev start (p ∷ xs) (e, same) (s, (x, at, up, back, rest)) =
    (s, (x, e ∙ at, up, back, IsChain-kept heap heap' dir (some p) x.next xs same rest))

-- The last node, which is one of them, and what it is to get another next one.
pub record LastOf (heap : Heap) (dir : ℕ) (prev start : Option ℕ) (xs : List ℕ) (last : Option ℕ)
    : Type 1 where
  pub place : ℕ
  pub node : Inode
  pub is_last : last ≡ some place
  pub here : heap place ≡ some node
  pub among : (P : ℕ → Type 0) → All P xs → P place
  pub retarget :
      (stop : Option ℕ)
      → IsSegment (put heap place (some (record node { next = stop }))) dir prev start xs last stop

put_all_other :
    (heap : Heap) (p : ℕ) (x : Option Inode) (qs : List ℕ)
    → All (λ q. q ≢ p) qs
    → All (λ q. put heap p x q ≡ heap q) qs
put_all_other heap p x [] h = tt
put_all_other heap p x (q ∷ qs) (ne, rest) =
    (put_other heap p q x ne, put_all_other heap p x qs rest)

pub IsSegment-LastOf :
    (heap : Heap) (dir : ℕ) (prev start : Option ℕ) (w : ℕ) (xs : List ℕ) (last stop : Option ℕ)
    → Distinct (w ∷ xs)
    → IsSegment heap dir prev start (w ∷ xs) last stop
    → LastOf heap dir prev start (w ∷ xs) last
IsSegment-LastOf heap dir prev start w [] last stop apart (s, (x, at, up, back, (n, l))) = record {
  place = w;
  node = x;
  is_last = sym l;
  here = at;
  among = λ P h. h.0;
  retarget = λ stop'. (s, (record x { next = stop' }, put_here heap w _, up, back, (refl, l)));
}
IsSegment-LastOf heap dir prev start w (v ∷ xs) last stop (apart, distinct)
      (s, (x, at, up, back, rest)) =
    let r = IsSegment-LastOf heap dir (some w) x.next v xs last stop distinct rest in
    record {
      place = r.place;
      node = r.node;
      is_last = r.is_last;
      here = r.here;
      among = λ P h. r.among P h.1;
      retarget = λ stop'. (
        s,
        (
          x,
          put_other heap r.place w _ (λ e. r.among (λ q. q ≢ w) apart (sym e)) ∙ at,
          up,
          back,
          r.retarget stop',
        ),
      );
    }
