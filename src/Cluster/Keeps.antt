-- ===== src/Cluster/Keeps.antt =====
-- What holds of the volume whatever an action of libexfat/cluster.c does: one rule for each way to
-- build an action.
pub mod Chain
pub mod Size
pub mod Sized
use mathlib.Core.Bool.{cond}
use nuclear_armageddon.Prelude.{ℕ, ◌≡◌, refl, Bool, true, false, if◌then◌else◌}
use nuclear_armageddon.Result.{Result, Errno, ok, err, bug, out_of_fuel}
use nuclear_armageddon.Exfat.{SuperBlock, Device, Cmap, Exfat, Node}
use nuclear_armageddon.Cluster.{
  State, M, after, ◌>>=◌, ◌>>◌, pure, fail, exfat_bug, gets, set_node, on_dev,
}
use nuclear_armageddon.Cluster.Allocate.{IsCmap}

-- The super block is the one that was read, and the bitmap is well formed.
pub record IsVolume {D : Type 0} (sb : SuperBlock) (s : State D) : Type 0 where
  pub same : s.ef.sb ≡ sb
  pub cmap : IsCmap s.ef.cmap

-- The loops have come to their end.
abbrev pub Ends : {A : Type 0} → Result A → Type 0
Ends out_of_fuel = ⊥
Ends _ = Unit {0}

abbrev pub Kept : {D A : Type 0} → SuperBlock → Result A × State D → Type 0
Kept sb r = IsVolume sb r.1 × Ends r.0

-- From such a volume the action ends, with a result or an error, in such a volume.
pub record Keeps (D : Type 0) {A : Type 0} (sb : SuperBlock) (m : M D A) : Type 0 where
  pub at : (s : State D) → IsVolume sb s → Kept sb (m s)

module _ {D : Type 0} {sb : SuperBlock} where
  pub Keeps-pure : {A : Type 0} (a : A) → Keeps D sb (pure a)
  Keeps-pure a = record { at = λ s h. (h, tt) }

  pub Keeps-fail : {A : Type 0} (e : Errno) → Keeps D {A = A} sb (fail e)
  Keeps-fail e = record { at = λ s h. (h, tt) }

  pub Keeps-bug : {A : Type 0} → Keeps D {A = A} sb exfat_bug
  Keeps-bug = record { at = λ s h. (h, tt) }

  pub Keeps-gets : {A : Type 0} (f : State D → A) → Keeps D sb (gets f)
  Keeps-gets f = record { at = λ s h. (h, tt) }

  pub Keeps-set_node : (f : Node → Node) → Keeps D sb (set_node f)
  Keeps-set_node f = record { at = λ s h. (record { same = h.same; cmap = h.cmap }, tt) }

  pub Keeps-on_dev : {A : Type 0} (f : D → A × D) → Keeps D sb (on_dev f)
  Keeps-on_dev f = record { at = λ s h. (record { same = h.same; cmap = h.cmap }, tt) }

  pub Keeps-cond :
      {A : Type 0} (b : Bool) (m n : M D A) → Keeps D sb m → Keeps D sb n → Keeps D sb (cond b m n)
  Keeps-cond true m n km kn = km
  Keeps-cond false m n km kn = kn

  pub Kept-if :
      {A : Type 0} (b : Bool) (x y : Result A × State D)
      → Kept sb x
      → Kept sb y
      → Kept sb (if b then x else y)
  Kept-if true x y kx ky = kx
  Kept-if false x y kx ky = ky

  -- The branches may use the test.
  pub Keeps-test :
      {A : Type 0} (b : Bool) (m n : M D A)
      → (b ≡ true → Keeps D sb m)
      → (b ≡ false → Keeps D sb n)
      → Keeps D sb (cond b m n)
  Keeps-test true m n km kn = km refl
  Keeps-test false m n km kn = kn refl

  pub Keeps-if :
      {A : Type 0} (b : Bool) (m n : M D A)
      → Keeps D sb m
      → Keeps D sb n
      → Keeps D sb (if b then m else n)
  Keeps-if true m n km kn = km
  Keeps-if false m n km kn = kn

  Keeps-after :
      {A B : Type 0} (r : Result A) (f : A → M D B) (s : State D)
      → IsVolume sb s
      → Ends r
      → ((a : A) → Keeps D sb (f a))
      → Kept sb (after r s f)
  Keeps-after (ok a) f s h e kf = (kf a).at s h
  Keeps-after (err x) f s h e kf = (h, tt)
  Keeps-after bug f s h e kf = (h, tt)
  Keeps-after out_of_fuel f s h e kf = absurd e

  pub Keeps-bind :
      {A B : Type 0} (m : M D A) (f : A → M D B)
      → Keeps D sb m
      → ((a : A) → Keeps D sb (f a))
      → Keeps D sb (m >>= f)
  Keeps-bind m f km kf = record {
    at = λ s h. let (v, e) = km.at s h in Keeps-after (m s).0 f (m s).1 v e kf;
  }

  -- The rest may use what is asked of the volume.
  pub Keeps-gets-bind :
      {A B : Type 0} (g : State D → A) (f : A → M D B)
      → ((s : State D) → IsVolume sb s → Keeps D sb (f (g s)))
      → Keeps D sb (gets g >>= f)
  Keeps-gets-bind g f kf = record { at = λ s h. (kf s h).at s h }

pub ruleset keeps_rules = (
  Keeps-pure, Keeps-fail, Keeps-bug, Keeps-gets, Keeps-set_node, Keeps-on_dev, Keeps-cond,
  Keeps-bind,
)
