-- ===== src/Cluster/Grow/Counts.antt =====
-- How many clusters `grow_file` of libexfat/cluster.c takes.
use mathlib.Core.Bool.{cond}
use nuclear_armageddon.Prelude.{
  ℕ, zero, suc, ◌+◌, ◌-◌, ◌≡◌, ◌≤◌, ◌≢◌, subst, arith, true, false, not, u32, sub32, ◌==◌,
}
use nuclear_armageddon.Result.{Result, ok, err, bug, out_of_fuel, enospc}
use nuclear_armageddon.Bitmap.{cluster_end}
use nuclear_armageddon.Bitmap.Laws.{bmap_set-IsBitmap}
use nuclear_armageddon.Bitmap.Count.{count_free-bmap_set}
use nuclear_armageddon.Exfat.{SuperBlock, Device, cluster_invalid, cluster_free}
use nuclear_armageddon.Cluster.{
  State, M, ◌>>=◌, ◌>>◌, pure, fail, exfat_bug, gets, set_node, exfat_advance_cluster,
  set_next_cluster, allocate_cluster, exfat_count_free_clusters,
}
use nuclear_armageddon.Cluster.Allocate.{Allocated, one, full, allocate_cluster-Allocated}
use nuclear_armageddon.Cluster.Shrink.{or_eio, check_cluster}
use nuclear_armageddon.Cluster.Grow.{
  give_up, leave_contiguous, append_cluster, grow_loop, first_previous, grow_file,
}
use nuclear_armageddon.Cluster.Grow.Steady.{
  Steady, steady_rules, Steady-pure, Steady-gets, Steady-cond, Steady-bug, set_next_cluster-Steady,
  exfat_advance_cluster-Steady, or_eio-Steady, check_cluster-Steady, leave_contiguous-Steady,
}
use nuclear_armageddon.Cluster.Grow.Leads.{
  Taken, Returns, Leads, Leads-bind, Leads-fail, then_fails, steady, Leads-cond, Leads-bug,
  Leads-fact,
}

-- One cluster more is taken if the cluster is a valid one.
abbrev TakenIf : {D : Type 0} → ℕ → ℕ → ℕ → State D → Type 0
TakenIf total taken c s = cluster_invalid s.ef.sb c ≡ false → Taken total (taken + 1) s

end_invalid :
    (sb : SuperBlock) → sb.cluster_count ≤ 0xfffffff5 → cluster_invalid sb cluster_end ≢ false
end_invalid sb h e = ground (arith, h, e)

Allocated-TakenIf :
    {D : Type 0} (total taken : ℕ) (s : State D) (r : Result ℕ × State D)
    → Taken total taken s
    → Allocated s r
    → Returns (λ c. TakenIf total taken c) r
unfolding exfat_count_free_clusters
Allocated-TakenIf total taken s r h (one c l clear e) = rw e (λ valid. record {
  small = h.small;
  cmap = record {
    whole = h.cmap.whole;
    small = h.cmap.small;
    bits = bmap_set-IsBitmap s.ef.cmap.chunk s.ef.cmap.size h.cmap.bits c;
  };
  count =
      omega
        (arith, h.count, count_free-bmap_set s.ef.cmap.chunk s.ef.cmap.size h.cmap.bits c l clear);
})
Allocated-TakenIf total taken s r h (full all e) =
    rw e (λ valid. absurd (end_invalid s.ef.sb h.small valid))

module _ {D : Type 0} (total taken : ℕ) where
  allocate_cluster-Leads :
      (hint : ℕ) → Leads D (Taken total taken) (λ c. TakenIf total taken c) (allocate_cluster hint)
  allocate_cluster-Leads hint = record {
    at = λ s h.
        Allocated-TakenIf total taken s (allocate_cluster hint s) h
          (allocate_cluster-Allocated hint s h.cmap);
  }

  -- The test of the cluster that is taken, and what is done if it is not valid.
  checked-Leads :
      {B : Type 0} {Q : B → State D → Type 0} (c : ℕ) (m : M D (Unit {0})) (rest : M D B)
      → Leads D (λ s. Unit {0}) (λ u s. ⊥) m
      → Leads D (Taken total (taken + 1)) Q rest
      → Leads D
          (TakenIf total taken c)
          Q
          (gets (λ s. cluster_invalid s.ef.sb c) >>= λ invalid. cond invalid m (pure tt) >> rest)
  checked-Leads c m rest fails k =
      Leads-bind {R = λ invalid s. invalid ≡ false → Taken total (taken + 1) s}
        (gets (λ s. cluster_invalid s.ef.sb c)) _ record { at = λ s h. h }
        (λ invalid.
          Leads-bind {R = λ u s. Taken total (taken + 1) s} (cond invalid m (pure tt)) _
            (Leads-cond invalid m (pure tt) (λ t. record { at = λ s h. none (m s) (fails.at s tt) })
              (λ f. record { at = λ s h. h f }))
            (λ u. k))
    where
      none :
          (r : Result (Unit {0}) × State D)
          → Returns (λ u s. ⊥) r
          → Returns (λ u s. Taken total (taken + 1) s) r
      none (ok a, s) h = absurd h
      none (err e, s) h = tt
      none (bug, s) h = tt
      none (out_of_fuel, s) h = tt

module _ {D : Type 0} ⦃io : Device D⦄ (total : ℕ) where
  give_up-Leads :
      (current allocated : ℕ) → Leads D (λ s. Unit {0}) (λ u s. ⊥) (give_up current allocated)
  unfolding give_up
  give_up-Leads current allocated = then_fails _ enospc

  append_cluster-Leads :
      (taken current allocated previous : ℕ)
      → Leads D
          (Taken total taken)
          (λ c. Taken total (taken + 1))
          (append_cluster current allocated previous)
  unfolding append_cluster
  append_cluster-Leads taken current allocated previous =
      Leads-bind (allocate_cluster (u32 (previous + 1))) _ (allocate_cluster-Leads total taken _)
        (λ next.
          checked-Leads total taken next (give_up current allocated) _
            (give_up-Leads current allocated) (steady _ (linked previous next)))
    where
      linked :
          (previous next : ℕ)
          → Steady D (do
            leave_contiguous previous next
            contiguous ← gets (λ s. s.node.is_contiguous)
            or_eio (set_next_cluster contiguous previous next)
            pure next)
      linked previous next =
          search (steady_rules, leave_contiguous-Steady, or_eio-Steady, set_next_cluster-Steady)
            depth 12

  grow_loop-Leads :
      (left taken all current allocated previous : ℕ)
      → all ≡ taken + left
      → Leads D
          (Taken total taken)
          (λ c. Taken total all)
          (grow_loop left current allocated previous)
  unfolding grow_loop
  grow_loop-Leads zero taken all current allocated previous e = record {
    at = λ s h. subst (λ n. Taken total n s) (omega (arith, e)) h;
  }
  grow_loop-Leads (suc left) taken all current allocated previous e =
      Leads-bind (append_cluster current allocated previous) _
        (append_cluster-Leads taken current allocated previous)
        (λ next. grow_loop-Leads left (taken + 1) all current _ next (omega (arith, e)))

  old_last :
      (current : ℕ)
      → Leads D
          (Taken total 0)
          (λ (r : ℕ × ℕ) (s : State D). Taken total r.1 s × (r.1 ≤ 1))
          (do
            previous ← exfat_advance_cluster (sub32 current 1)
            check_cluster previous
            pure (previous, 0))
  old_last current =
      Leads-bind {R = λ previous. Taken total 0} (exfat_advance_cluster (sub32 current 1)) _
        (steady _ (exfat_advance_cluster-Steady _))
        (λ previous.
          Leads-bind {R = λ u. Taken total 0} (check_cluster previous) _
            (steady _ (check_cluster-Steady previous))
            (λ u. record { at = λ s h. (h, omega arith) }))

  new_first :
      Leads D
        (Taken total 0)
        (λ (r : ℕ × ℕ) (s : State D). Taken total r.1 s × (r.1 ≤ 1))
        (do
          index ← gets (λ s. s.node.fptr_index)
          cond (not (index == 0)) exfat_bug (pure tt)
          previous ← allocate_cluster 0
          invalid ← gets (λ s. cluster_invalid s.ef.sb previous)
          cond invalid (fail enospc) (pure tt)
          set_node (λ n. record n {
            fptr_cluster = previous;
            start_cluster = previous;
            is_contiguous = true;
          })
          pure (previous, 1))
  new_first =
      Leads-bind {R = λ index. Taken total 0} (gets (λ s. s.node.fptr_index)) _
        (steady _ (Steady-gets _))
        (λ index.
          Leads-bind {R = λ u. Taken total 0} (cond (not (index == 0)) exfat_bug (pure tt)) _
            (steady _ (Steady-cond _ _ _ Steady-bug (Steady-pure tt)))
            (λ u. Leads-bind (allocate_cluster 0) _ (allocate_cluster-Leads total 0 0) (λ previous.
              checked-Leads total 0 previous (fail enospc) _ (Leads-fail enospc)
                record { at = λ s h. (started previous s h, omega arith) })))
    where
      started :
          (previous : ℕ) (s : State D)
          → Taken total 1 s
          → Taken total 1 (record s {
            node = record (s.node) {
              fptr_cluster = previous;
              start_cluster = previous;
              is_contiguous = true;
            };
          })
      started previous s h = record { small = h.small; cmap = h.cmap; count = h.count }

  first_previous-Leads :
      (current : ℕ)
      → Leads D
          (Taken total 0)
          (λ (r : ℕ × ℕ) (s : State D). Taken total r.1 s × (r.1 ≤ 1))
          (first_previous current)
  unfolding first_previous
  first_previous-Leads current =
      Leads-bind {R = λ start. Taken total 0} (gets (λ s. s.node.start_cluster)) _
        (steady _ (Steady-gets _))
        (λ start.
          Leads-cond (not (start == cluster_free)) _ _ (λ t. old_last current) (λ f. new_first))

  pub grow_file-Leads :
      (current difference : ℕ)
      → Leads D (Taken total 0) (λ u. Taken total difference) (grow_file current difference)
  unfolding grow_file
  grow_file-Leads current difference =
      Leads-bind {R = λ u s. Taken total 0 s × (difference ≢ 0)}
        (cond (difference == 0) exfat_bug (pure tt)) _
        (Leads-cond (difference == 0) _ _ (λ t. Leads-bug)
          (λ f. record { at = λ s h. (h, λ e. ground (arith, f, e)) }))
        (λ u. Leads-fact (difference ≢ 0) _ (λ some.
          Leads-bind (first_previous current) _ (first_previous-Leads current) (λ r.
            Leads-fact (r.1 ≤ 1) _ (λ few.
              Leads-bind (grow_loop (difference - r.1) current r.1 r.0) _
                (grow_loop-Leads (difference - r.1) r.1 difference current r.1 r.0
                  (ground (arith, some, few)))
                (λ last. steady _ (ended last))))))
    where
      ended :
          (last : ℕ)
          → Steady D (do
            contiguous ← gets (λ s. s.node.is_contiguous)
            or_eio (set_next_cluster contiguous last cluster_end))
      ended last = search (steady_rules, or_eio-Steady, set_next_cluster-Steady) depth 12

-- The count of free clusters is smaller by `taken` if there is a result.
abbrev pub FewerBy : {D A : Type 0} → ℕ → State D → Result A × State D → Type 0
FewerBy taken s r =
    Returns (λ a t. exfat_count_free_clusters t.ef + taken ≡ exfat_count_free_clusters s.ef) r

pub counted :
    {D A : Type 0} (total taken : ℕ) (r : Result A × State D)
    → Returns (λ a. Taken total taken) r
    → Returns (λ a t. exfat_count_free_clusters t.ef + taken ≡ total) r
counted total taken (ok a, s) h = h.count
counted total taken (err e, s) h = tt
counted total taken (bug, s) h = tt
counted total taken (out_of_fuel, s) h = tt
