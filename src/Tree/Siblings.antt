-- ===== src/Tree/Siblings.antt =====
-- The children of a directory in libexfat/node.c as a list: what linking a node to the tree and
-- taking it off do to it.
use nuclear_armageddon.Prelude.{
  ℕ, ◌≡◌, ◌≢◌, refl, sym, ap, ◌∙◌, Option, none, some, List, [], ◌∷◌, ◌==◌, All, Bool-cases, ==_iff,
  inl, inr,
}
use nuclear_armageddon.Result.{Result, ok}
use nuclear_armageddon.Tree.{Inode, Tree, put, with_heap}
use nuclear_armageddon.Tree.Steps.{Heap, put_other}

-- The nodes from `start` on, behind `prev`, are these siblings below `dir`, linked both ways.
abbrev pub IsChain : Heap → ℕ → Option ℕ → Option ℕ → List ℕ → Type 0
IsChain heap dir prev start [] = start ≡ none
IsChain heap dir prev start (p ∷ ps) =
    (start ≡ some p)
    × ((x : Inode) × (heap p ≡ some x)
        × (x.parent ≡ some dir)
        × (x.prev ≡ prev)
        × IsChain heap dir (some p) x.next ps)

-- No node is twice in the list.
abbrev pub Distinct : List ℕ → Type 0
Distinct [] = Unit {0}
Distinct (p ∷ ps) = All (λ q. q ≢ p) ps × Distinct ps

-- The children of `dir` are these.
pub record HasChildren (heap : Heap) (dir : ℕ) (ps : List ℕ) : Type 0 where
  pub node : Inode
  pub here : heap dir ≡ some node
  pub chain : IsChain heap dir none node.child ps
  pub others : All (λ q. q ≢ dir) ps
  pub distinct : Distinct ps

-- A node without its links.
abbrev pub unlinked : Inode → Inode
unlinked x = record x { parent = none; child = none; next = none; prev = none }

abbrev pub content : Option Inode → Option Inode
content none = none
content (some x) = some (unlinked x)

-- The call succeeds, the directory then has these children, and of no node anything but links is
-- changed, nor anything else.
abbrev pub Relinks :
    {D : Type 0} → Tree D → ℕ → List ℕ → Option (Result (Unit {0}) × Tree D) → Type 0
Relinks t dir ps r =
    (heap : Heap) × (r ≡ some (ok tt, with_heap t heap))
    × HasChildren heap dir ps
    × ((q : ℕ) → content (heap q) ≡ content (t.heap q))

pub content-put :
    (heap : Heap) (p : ℕ) (x y : Inode)
    → heap p ≡ some x
    → unlinked y ≡ unlinked x
    → (q : ℕ) → content (put heap p (some y) q) ≡ content (heap q)
content-put heap p x y at same q = elim (Bool-cases (q == p)) [
  | inl e ↦ rw e (ap some same ∙ ap content (sym (ap heap ((==_iff q p).0 e) ∙ at)))
  | inr e ↦ rw e refl
]

-- A change of a node that is not among them.
pub IsChain-put :
    (heap : Heap) (dir r : ℕ) (y : Option Inode) (prev start : Option ℕ) (ps : List ℕ)
    → All (λ q. q ≢ r) ps
    → IsChain heap dir prev start ps
    → IsChain (put heap r y) dir prev start ps
IsChain-put heap dir r y prev start [] apart h = h
IsChain-put heap dir r y prev start (p ∷ ps) (ne, apart) (s, (x, at, up, back, rest)) = (
  s,
  (
    x,
    put_other heap r p y ne ∙ at,
    up,
    back,
    IsChain-put heap dir r y (some p) x.next ps apart rest,
  ),
)
