-- ===== src/Cluster/Keeps/Sized.antt =====
-- What the actions of libexfat/cluster.c do to the size of the node: one rule for each way to build
-- an action.
pub mod Chain
pub mod Truncate
use mathlib.Core.Bool.{cond}
use nuclear_armageddon.Prelude.{
  ℕ, zero, suc, ◌+◌, ◌-◌, ◌≡◌, refl, sym, subst, arith, ◌∙◌, Bool, true, false, Option, none, some,
  List, ltb, leb, u32, u64, sub32, ◌==◌, if◌then◌else◌, min, bit_or, ◌*◌, ◌/◌, ◌%◌, ◌&&◌,
}
use nuclear_armageddon.Prelude.Int.{ℤ}
use nuclear_armageddon.Result.{Result, Errno, ok, err, bug, out_of_fuel}
use nuclear_armageddon.Bitmap.{first_data_cluster}
use nuclear_armageddon.Exfat.{Device, Node, le32_bytes, exfat_pread, exfat_pwrite}
use nuclear_armageddon.Cluster.{
  State, M, after, ◌>>=◌, ◌>>◌, pure, fail, exfat_bug, gets, set_node, set_cmap, on_dev, exfat_c2o,
  fat_offset, bytes2clusters, next_read, exfat_next_cluster, advance_round, advance_loop,
  exfat_advance_cluster, set_next_cluster, make_noncontiguous_round, make_noncontiguous_loop,
  make_noncontiguous, allocate_cluster, free_cluster,
}
use nuclear_armageddon.Cluster.Shrink.{
  or_eio, check_cluster, free_round, free_chain, crop_file, shrink_file,
}
use nuclear_armageddon.Cluster.Grow.{
  give_up, ignore, leave_contiguous, append_cluster, grow_loop, first_previous, grow_file,
}
use nuclear_armageddon.Cluster.Allocate.{IsCmap}
use nuclear_armageddon.Cluster.Keeps.{Kept}
use nuclear_armageddon.Cluster.Keeps.Size.{Erasable, exfat_truncate-Kept}
use nuclear_armageddon.Cluster.Truncate.{
  offset_of, erase_raw, erase_round, erase_loop, erase_range, exfat_truncate,
}

-- The size that the node has with a result: the new one on success, the old one otherwise.
abbrev pub SizedBy : {D A : Type 0} → ℕ → ℕ → Result A × State D → Type 0
SizedBy old new (ok a, s) = s.node.size ≡ new
SizedBy old new (err e, s) = s.node.size ≡ old
SizedBy old new (bug, s) = s.node.size ≡ old
SizedBy old new (out_of_fuel, s) = s.node.size ≡ old

pub record Sizes (D : Type 0) {A : Type 0} (old new : ℕ) (m : M D A) : Type 0 where
  pub at : (s : State D) → s.node.size ≡ old → SizedBy old new (m s)

module _ {D : Type 0} {old : ℕ} where
  pub Sizes-pure : {A : Type 0} (a : A) → Sizes D old old (pure a)
  Sizes-pure a = record { at = λ s h. h }

  pub Sizes-gets : {A : Type 0} (f : State D → A) → Sizes D old old (gets f)
  Sizes-gets f = record { at = λ s h. h }

  pub Sizes-set_node :
      (f : Node → Node) → ((n : Node) → (f n).size ≡ n.size) → Sizes D old old (set_node f)
  Sizes-set_node f k = record { at = λ s h. k s.node ∙ h }

  pub Sizes-on_dev : {A : Type 0} (f : D → A × D) → Sizes D old old (on_dev f)
  Sizes-on_dev f = record { at = λ s h. h }

  same_size : {A : Type 0} (r : Result A × State D) → r.1.node.size ≡ old → SizedBy old old r
  same_size (ok a, s) h = h
  same_size (err e, s) h = h
  same_size (bug, s) h = h
  same_size (out_of_fuel, s) h = h

  pub size_if :
      {A : Type 0} (b : Bool) (x y : A × State D)
      → x.1.node.size ≡ old
      → y.1.node.size ≡ old
      → (if b then x else y).1.node.size ≡ old
  size_if true x y kx ky = kx
  size_if false x y kx ky = ky

  pub by_size :
      {A : Type 0} (m : M D A)
      → ((s : State D) → s.node.size ≡ old → (m s).1.node.size ≡ old)
      → Sizes D old old m
  by_size m k = record { at = λ s h. same_size (m s) (k s h) }

module _ {D : Type 0} {old new : ℕ} where
  pub Sizes-fail : {A : Type 0} (e : Errno) → Sizes D {A = A} old new (fail e)
  Sizes-fail e = record { at = λ s h. h }

  pub Sizes-bug : {A : Type 0} → Sizes D {A = A} old new exfat_bug
  Sizes-bug = record { at = λ s h. h }

  pub Sizes-cond :
      {A : Type 0} (b : Bool) (m n : M D A)
      → Sizes D old new m
      → Sizes D old new n
      → Sizes D old new (cond b m n)
  Sizes-cond true m n km kn = km
  Sizes-cond false m n km kn = kn

  pub Sizes-if :
      {A : Type 0} (b : Bool) (m n : M D A)
      → Sizes D old new m
      → Sizes D old new n
      → Sizes D old new (if b then m else n)
  Sizes-if true m n km kn = km
  Sizes-if false m n km kn = kn

  pub Sizes-after :
      {A B : Type 0} (r : Result A) (f : A → M D B) (s : State D)
      → SizedBy old old (r, s)
      → ((a : A) → Sizes D old new (f a))
      → SizedBy old new (after r s f)
  Sizes-after (ok a) f s h kf = (kf a).at s h
  Sizes-after (err x) f s h kf = h
  Sizes-after bug f s h kf = h
  Sizes-after out_of_fuel f s h kf = h

  pub Sizes-bind :
      {A B : Type 0} (m : M D A) (f : A → M D B)
      → Sizes D old old m
      → ((a : A) → Sizes D old new (f a))
      → Sizes D old new (m >>= f)
  Sizes-bind m f km kf = record { at = λ s h. Sizes-after (m s).0 f (m s).1 (km.at s h) kf }

pub ruleset sized_rules = (
  Sizes-pure, Sizes-fail, Sizes-bug, Sizes-gets, Sizes-set_node, Sizes-on_dev, Sizes-cond,
  Sizes-bind, refl,
)
