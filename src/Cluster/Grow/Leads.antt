-- ===== src/Cluster/Grow/Leads.antt =====
-- What holds of an action's result and of the state after it, and how many clusters are taken: one
-- rule for each way to build an action.
use mathlib.Core.Bool.{cond}
use nuclear_armageddon.Prelude.{ℕ, ◌+◌, ◌≡◌, ◌≤◌, refl, sym, subst, Bool, true, false}
use nuclear_armageddon.Result.{Result, Errno, ok, err, bug, out_of_fuel}
use nuclear_armageddon.Bitmap.{count_free}
use nuclear_armageddon.Exfat.{SuperBlock, Cmap}
use nuclear_armageddon.Cluster.{State, M, after, ◌>>=◌, fail, exfat_bug, exfat_count_free_clusters}
use nuclear_armageddon.Cluster.Allocate.{IsCmap}
use nuclear_armageddon.Cluster.Grow.Steady.{IsSame, Steady}

-- The state has `taken` clusters less to give than there were, `total`.
pub record Taken {D : Type 0} (total taken : ℕ) (s : State D) : Type 0 where
  pub small : s.ef.sb.cluster_count ≤ 0xfffffff5
  pub cmap : IsCmap s.ef.cmap
  pub count : exfat_count_free_clusters s.ef + taken ≡ total

-- What holds of a result and the state after it, if there is a result.
abbrev pub Returns : {D A : Type 0} → (A → State D → Type 0) → Result A × State D → Type 0
Returns Q (ok a, s) = Q a s
Returns Q (err e, s) = Unit {0}
Returns Q (bug, s) = Unit {0}
Returns Q (out_of_fuel, s) = Unit {0}

pub record Leads (D : Type 0) {A : Type 0} (P : State D → Type 0) (Q : A → State D → Type 0)
    (m : M D A) : Type 0 where
  pub at : (s : State D) → P s → Returns Q (m s)

module _ {D : Type 0} where
  pub Leads-after :
      {A B : Type 0} (R : A → State D → Type 0) (Q : B → State D → Type 0) (r : Result A)
      (f : A → M D B) (s : State D)
      → Returns R (r, s)
      → ((a : A) → Leads D (R a) Q (f a))
      → Returns Q (after r s f)
  Leads-after R Q (ok a) f s h kf = (kf a).at s h
  Leads-after R Q (err x) f s h kf = tt
  Leads-after R Q bug f s h kf = tt
  Leads-after R Q out_of_fuel f s h kf = tt

  pub Leads-bind :
      {A B : Type 0} {P : State D → Type 0} {R : A → State D → Type 0} {Q : B → State D → Type 0}
      (m : M D A) (f : A → M D B)
      → Leads D P R m
      → ((a : A) → Leads D (R a) Q (f a))
      → Leads D P Q (m >>= f)
  Leads-bind {P = P} {R = R} {Q = Q} m f km kf = record {
    at = λ s h. Leads-after R Q (m s).0 f (m s).1 (km.at s h) kf;
  }

  pub Leads-fail :
      {A : Type 0} {P : State D → Type 0} {Q : A → State D → Type 0} (e : Errno)
      → Leads D P Q (fail e)
  Leads-fail e = record { at = λ s h. tt }

  any_result : {A : Type 0} (r : Result A × State D) → Returns (λ a s. Unit {0}) r
  any_result (ok a, s) = tt
  any_result (err e, s) = tt
  any_result (bug, s) = tt
  any_result (out_of_fuel, s) = tt

  -- Whatever the first action does, the second gives no result.
  pub then_fails :
      {A B : Type 0} {P : State D → Type 0} {Q : B → State D → Type 0} (m : M D A) (e : Errno)
      → Leads D P Q (m >>= λ a. fail e)
  then_fails m e =
      Leads-bind m (λ a. fail e) record { at = λ s h. any_result (m s) } (λ a. Leads-fail e)

  Taken-same :
      (total taken : ℕ) (s t : State D) → IsSame s t → Taken total taken s → Taken total taken t
  unfolding exfat_count_free_clusters
  Taken-same total taken s t e h = record {
    small = subst (λ (b : SuperBlock). b.cluster_count ≤ 0xfffffff5) (sym e.sb) h.small;
    cmap = subst IsCmap (sym e.cmap) h.cmap;
    count = subst (λ (c : Cmap). count_free c.chunk c.size 0 + taken ≡ total) (sym e.cmap) h.count;
  }

  returned :
      {A : Type 0} (total taken : ℕ) (s : State D) (r : Result A × State D)
      → IsSame s r.1
      → Taken total taken s
      → Returns (λ a. Taken total taken) r
  returned total taken s (ok a, t) e h = Taken-same total taken s t e h
  returned total taken s (err x, t) e h = tt
  returned total taken s (bug, t) e h = tt
  returned total taken s (out_of_fuel, t) e h = tt

  pub steady :
      {A : Type 0} {total taken : ℕ} (m : M D A)
      → Steady D m
      → Leads D (Taken total taken) (λ a. Taken total taken) m
  steady {total = total} {taken = taken} m k = record {
    at = λ s h. returned total taken s (m s) (k.at s) h;
  }

  pub Leads-cond :
      {A : Type 0} {P : State D → Type 0} {Q : A → State D → Type 0} (b : Bool) (m n : M D A)
      → (b ≡ true → Leads D P Q m)
      → (b ≡ false → Leads D P Q n)
      → Leads D P Q (cond b m n)
  Leads-cond true m n km kn = km refl
  Leads-cond false m n km kn = kn refl

  pub Leads-bug :
      {A : Type 0} {P : State D → Type 0} {Q : A → State D → Type 0} → Leads D P Q exfat_bug
  Leads-bug = record { at = λ s h. tt }

  -- A fact of the state before that is none of the state's.
  pub Leads-fact :
      {A : Type 0} {P : State D → Type 0} {Q : A → State D → Type 0} (F : Type 0) (m : M D A)
      → (F → Leads D P Q m)
      → Leads D (λ s. P s × F) Q m
  Leads-fact F m k = record { at = λ s h. (k h.1).at s h.0 }
