-- ===== src/Fsck/Clusters.antt =====
-- What `nodeck` finds in a contiguous file.
use mathlib.Core.Bool.{cond}
use nuclear_armageddon.Prelude.{
  ℕ, zero, suc, ◌+◌, ◌-◌, ◌^◌, ◌≤◌, ◌<◌, ◌≡◌, refl, ap, ◌∙◌, subst, inl, inr, ◌↔◌, Bool, true,
  false, some, List, u32, ltb, if◌then◌else◌, arith, Bool-cases,
}
use nuclear_armageddon.Result.{ok}
use nuclear_armageddon.Bitmap.{bmap_get, div_round_up, first_data_cluster}
use nuclear_armageddon.Exfat.{SuperBlock, Device, cluster_size, cluster_invalid}
use nuclear_armageddon.Cluster.{M, State, ◌>>=◌, ◌>>◌, pure, after, exfat_next_cluster}
use nuclear_armageddon.Fsck.Node.{named, check_bit, nodeck_loop, nodeck}

-- The cluster is one of the volume, and in use.
unfoldable pub InUse : {D : Type 0} → State D → ℕ → Type 0
InUse s c =
    (cluster_invalid s.ef.sb c ≡ false) × (bmap_get s.ef.cmap.chunk (c - first_data_cluster) ≡ true)

-- A cluster of the volume has a number that does not wrap when one is added.
valid_bound :
    (sb : SuperBlock) (c : ℕ)
    → sb.cluster_count ≤ 0xfffffff5
    → c < 2 ^ 32
    → cluster_invalid sb c ≡ false
    → (2 ≤ c) × (c + 1 < 2 ^ 32)
valid_bound sb c few small e = (ground (arith, few, small, e), ground (arith, few, small, e))

pick :
    {A : Type 0} (a b : Bool) (x y z : A)
    → a ≡ false
    → b ≡ true
    → (if a then x else if b then y else z) ≡ y
pick true b x y z ea eb = cc
pick false true x y z ea eb = refl
pick false false x y z ea eb = cc

not_below : (c : ℕ) → 2 ≤ c → ltb c 2 ≡ false
not_below c h = ground (arith, h)

no_wrap : (c : ℕ) → c + 1 < 2 ^ 32 → u32 (c + 1) ≡ c + 1
no_wrap c h = omega (arith, h)

-- All clusters of a run are in use.
unfoldable pub AllInUse : {D : Type 0} → State D → ℕ → ℕ → Type 0
AllInUse s c clusters = (i : ℕ) → i < clusters → InUse s (c + i)

module _ {D : Type 0} (s : State D) (c clusters : ℕ) where
  extend-AllInUse : InUse s c → AllInUse s (c + 1) clusters → AllInUse s c (suc clusters)
  unfolding AllInUse
  extend-AllInUse here rest zero h = subst (InUse s) (omega arith) here
  extend-AllInUse here rest (suc i) h = subst (InUse s) (omega arith) (rest i (omega (arith, h)))

  first-InUse : AllInUse s c (suc clusters) → InUse s c
  unfolding AllInUse
  first-InUse all = subst (InUse s) (omega arith) (all 0 (omega arith))

  later-AllInUse : AllInUse s c (suc clusters) → AllInUse s (c + 1) clusters
  unfolding AllInUse
  later-AllInUse all i h = subst (InUse s) (omega arith) (all (suc i) (omega (arith, h)))

none-AllInUse : {D : Type 0} (s : State D) (c : ℕ) → AllInUse s c 0
unfolding AllInUse
none-AllInUse s c i h = elim (never i h) [ ]
  where
    never : (i : ℕ) → i < 0 → ⊥
    never i h = omega (arith, h)

one_not_zero : ◌≡◌ {A = ℕ} 1 0 → ⊥
one_not_zero e = omega (arith, e)

false_not_true : (b : Bool) → b ≡ true → b ≡ false → ⊥
false_not_true b t f = cc

module _ {D : Type 0} ⦃io : Device D⦄ (name : List ℕ) (s : State D)
    (contiguous : s.node.is_contiguous ≡ true) (few : s.ef.sb.cluster_count ≤ 0xfffffff5) where
  next_lem :
      (c : ℕ)
      → c < 2 ^ 32
      → cluster_invalid s.ef.sb c ≡ false
      → exfat_next_cluster c s ≡ (ok (c + 1), s)
  unfolding exfat_next_cluster
  next_lem c small e =
      let bound = valid_bound s.ef.sb c few small e in
      pick _ _ _ _ _ (not_below c bound.0) contiguous ∙ ap (λ n. (ok n, s)) (no_wrap c bound.1)

  record Outcome (clusters c rc : ℕ) : Type 0 where
    final : ℕ
    runs : nodeck_loop (some name) clusters c rc s ≡ (ok final, s)
    clean : final ≡ 0 → (rc ≡ 0) × AllInUse s c clusters
    faulty : rc ≡ 0 → AllInUse s c clusters → final ≡ 0

  -- What comes after a cluster that was looked at.
  abbrev going : ℕ → ℕ → ℕ → M D ℕ
  going clusters c rc = exfat_next_cluster c >>= λ next. nodeck_loop (some name) clusters next rc

  go_on :
      (clusters c rc : ℕ)
      → c < 2 ^ 32
      → cluster_invalid s.ef.sb c ≡ false
      → going clusters c rc s ≡ nodeck_loop (some name) clusters (c + 1) rc s
  go_on clusters c rc small valid =
      ap (λ x. after x.0 x.1 (λ next. nodeck_loop (some name) clusters next rc))
        (next_lem c small valid)

  -- A round on a cluster of the volume, which keeps the result if the cluster is in use.
  round_lem :
      (clusters c rc : ℕ) (b : Bool)
      → c < 2 ^ 32
      → cluster_invalid s.ef.sb c ≡ false
      → bmap_get s.ef.cmap.chunk (c - first_data_cluster) ≡ b
      → nodeck_loop (some name) (suc clusters) c rc s
        ≡ nodeck_loop (some name) clusters (c + 1) (if b then rc else 1) s
  unfolding nodeck_loop
  round_lem clusters c rc b small valid bit =
      ap
        (λ x.
          cond x (named (some name) >> pure 1)
            (check_bit (some name) (nodeck_loop (some name) clusters) c rc) s)
        valid
      ∙ ap (λ x. cond x (going clusters c rc) (named (some name) >> going clusters c 1) s) bit
      ∙ either b
    where
      either :
          (b : Bool)
          → cond b (going clusters c rc) (named (some name) >> going clusters c 1) s
            ≡ nodeck_loop (some name) clusters (c + 1) (if b then rc else 1) s
      either true = go_on clusters c rc small valid
      either false = go_on clusters c 1 small valid

  loop_Outcome : (clusters c rc : ℕ) → c < 2 ^ 32 → Outcome clusters c rc
  unfolding nodeck_loop InUse
  loop_Outcome zero c rc small = record {
    final = rc;
    runs = refl;
    clean = λ e. (e, none-AllInUse s c);
    faulty = λ e h. e;
  }
  loop_Outcome (suc clusters) c rc small = elim (Bool-cases (cluster_invalid s.ef.sb c)) [
    | inl bad ↦ record {
      final = 1;
      runs =
          ap
            (λ b.
              cond b (named (some name) >> pure 1)
                (check_bit (some name) (nodeck_loop (some name) clusters) c rc) s)
            bad;
      clean = λ e. elim (one_not_zero e) [ ];
      faulty = λ z all. elim (false_not_true _ bad (first-InUse s c clusters all).0) [ ];
    }
    | inr valid ↦ elim (Bool-cases (bmap_get s.ef.cmap.chunk (c - first_data_cluster))) [
      | inl set ↦
          let r = loop_Outcome clusters (c + 1) rc (valid_bound s.ef.sb c few small valid).1 in
          record {
            final = r.final;
            runs = round_lem clusters c rc true small valid set ∙ r.runs;
            clean = λ e. ((r.clean e).0, extend-AllInUse s c clusters (valid, set) (r.clean e).1);
            faulty = λ z all. r.faulty z (later-AllInUse s c clusters all);
          }
      | inr clear ↦
          let r = loop_Outcome clusters (c + 1) 1 (valid_bound s.ef.sb c few small valid).1 in
          record {
            final = r.final;
            runs = round_lem clusters c rc false small valid clear ∙ r.runs;
            clean = λ e. elim (one_not_zero (r.clean e).0) [ ];
            faulty = λ z all. elim (false_not_true _ (first-InUse s c clusters all).1 clear) [ ];
          }
    ]
  ]

-- On a volume with at most 0xfffffff5 clusters, for a contiguous file that starts at a cluster number of
-- 32 bits and whose name has a form in UTF-8: `nodeck` comes to its end without a change of the
-- volume, and its result is 0 exactly when each cluster of the file is one of the volume's and is
-- marked in the bitmap.
pub nodeck-AllInUse :
    {D : Type 0} ⦃io : Device D⦄ (name : List ℕ) (s : State D)
    → s.node.is_contiguous ≡ true
    → s.ef.sb.cluster_count ≤ 0xfffffff5
    → s.node.start_cluster < 2 ^ 32
    → (rc : ℕ) × (nodeck (some name) s ≡ (ok rc, s))
      × ((rc ≡ 0)
          ↔ AllInUse s s.node.start_cluster (u32 (div_round_up s.node.size (cluster_size s.ef.sb))))
unfolding nodeck
nodeck-AllInUse name s contiguous few small =
    let r =
      loop_Outcome name s contiguous few (u32 (div_round_up s.node.size (cluster_size s.ef.sb)))
        s.node.start_cluster 0 small in
    (r.final, r.runs, ((λ e. (r.clean e).1), λ all. r.faulty refl all))
