-- ===== src/Tree/Steps.antt =====
-- How actions on the store of nodes run: the store after a change, and one step at a time.
use nuclear_armageddon.Prelude.{ℕ, ◌≡◌, ◌≢◌, refl, ap, true, false, Option, none, some, ◌==◌, arith}
use nuclear_armageddon.Result.{ok}
use nuclear_armageddon.Tree.{
  Inode, Tree, T, ◌>>=◌, fail, continue_with, fetch, put, with_heap, modify,
}

abbrev pub Heap : Type 0
Heap = ℕ → Option Inode

pub differs : (q p : ℕ) → q ≢ p → (q == p) ≡ false
differs q p ne = ground (arith, ne)

pub itself : (p : ℕ) → (p == p) ≡ true
itself p = ground arith

pub put_here : (heap : Heap) (p : ℕ) (x : Option Inode) → put heap p x p ≡ x
put_here heap p x = rw (itself p) refl

pub put_other : (heap : Heap) (p q : ℕ) (x : Option Inode) → q ≢ p → put heap p x q ≡ heap q
put_other heap p q x ne = rw (differs q p ne) refl

module _ {D B : Type 0} where
  pub value_then :
      {A : Type 0} (m : T D A) (f : A → T D B) (t t' : Tree D) (a : A)
      → m t ≡ some (ok a, t')
      → (m >>= f) t ≡ f a t'
  value_then m f t t' a e =
      ap (λ o. elim o [ none ↦ none | some r ↦ continue_with r.0 r.1 fail f ]) e

  pub fetch_then :
      (p : ℕ) (f : Inode → T D B) (t : Tree D) (x : Inode)
      → t.heap p ≡ some x
      → (fetch p >>= f) t ≡ f x t
  fetch_then p f t x e =
      value_then (fetch p) f t t x (ap (λ o. elim o [ none ↦ none | some y ↦ some (ok y, t) ]) e)

module _ {D : Type 0} where
  pub modify_lem :
      (p : ℕ) (g : Inode → Inode) (t : Tree D) (x : Inode)
      → t.heap p ≡ some x
      → modify p g t ≡ some (ok tt, with_heap t (put t.heap p (some (g x))))
  modify_lem p g t x e = fetch_then p _ t x e

  pub modify_then :
      {B : Type 0} (p : ℕ) (g : Inode → Inode) (f : Unit {0} → T D B) (t : Tree D) (x : Inode)
      → t.heap p ≡ some x
      → (modify p g >>= f) t ≡ f tt (with_heap t (put t.heap p (some (g x))))
  modify_then p g f t x e = value_then (modify p g) f t _ tt (modify_lem p g t x e)
