-- ===== src/Cluster/Allocate.antt =====
-- Taking and giving back one cluster: `allocate_cluster` and `free_cluster` of
-- libexfat/cluster.c, on the bitmap as a set of bits.
use native.Mathlib.Decide.{dec_lt}
use nuclear_armageddon.Prelude.{
  ℕ, ◌+◌, ◌-◌, ◌≤◌, ◌<◌, ◌≡◌, refl, sym, ap, ◌∙◌, ◌⊎◌, inl, inr, true, false, Option, none, some,
  List, leb, ◌==◌, u32, sub32, arith, Option-cases,
}
use nuclear_armageddon.Result.{Result, ok}
use nuclear_armageddon.Bitmap.{
  bmap_get, bmap_set, bmap_clr, find_clear, take_bit, find_bit_and_set, first_data_cluster,
  cluster_end,
}
use nuclear_armageddon.Bitmap.Laws.{IsBitmap, bmap_set-IsBitmap, bmap_clr-IsBitmap}
use nuclear_armageddon.Bitmap.Find.{FirstClear, find_clear-FirstClear, find_bit_and_set-eq}
use nuclear_armageddon.Bitmap.Count.{count_free-bmap_set, count_free-bmap_clr}
use nuclear_armageddon.Exfat.{Cmap}
use nuclear_armageddon.Cluster.{
  State, allocate_cluster, free_cluster, start_bit, exfat_count_free_clusters,
}

-- The bitmap that a mounted file system has: all of it is in memory, and clusters have numbers
-- below those with a meaning of their own.
pub record IsCmap (cmap : Cmap) : Type 0 where
  pub whole : cmap.chunk_size ≡ cmap.size
  pub small : cmap.size ≤ 0xfffffff5
  pub bits : IsBitmap cmap.chunk cmap.size

-- The bitmap with the bit of `c` set, or cleared, and to be written back.
abbrev pub with_chunk : {D : Type 0} → State D → List ℕ → State D
with_chunk s chunk = record s {
  ef = record (s.ef) { cmap = record (s.ef.cmap) { chunk = chunk; dirty = true } };
}

abbrev pub prefer : Option ℕ → Option ℕ → Option ℕ
prefer none o = o
prefer (some c) o = some c

-- The bit that `allocate_cluster` takes: the first clear one from the hint up, or else the first
-- below the hint.
abbrev pub choice : Cmap → ℕ → Option ℕ
choice cmap hint =
    let start = start_bit cmap.chunk_size hint in
    prefer (find_clear cmap.chunk (cmap.chunk_size - start) start) (find_clear cmap.chunk start 0)

-- What a call is to return for the bit that it takes.
abbrev pub taken : {D : Type 0} → State D → Option ℕ → Result ℕ × State D
taken s none = (ok cluster_end, s)
taken s (some c) = (ok (c + first_data_cluster), with_chunk s (bmap_set s.ef.cmap.chunk c))

start_bit_le : (n hint : ℕ) → start_bit n hint ≤ n
start_bit_le n hint = ground arith

find_bound : (bitmap : List ℕ) (left c k : ℕ) → find_clear bitmap left c ≡ some k → k < c + left
find_bound bitmap left c k e = (rw e at (find_clear-FirstClear bitmap left c (c + left) refl)).1

cluster_small : (c : ℕ) → c < 0xfffffff5 → u32 (c + first_data_cluster) ≡ c + first_data_cluster
cluster_small c h = omega arith

not_end : (c : ℕ) → c < 0xfffffff5 → (c + first_data_cluster == cluster_end) ≡ false
not_end c h = ground arith

taken_bit :
    (bitmap : List ℕ) (c : ℕ)
    → c < 0xfffffff5
    → take_bit bitmap (some c) ≡ (c + first_data_cluster, bmap_set bitmap c)
unfolding take_bit
taken_bit bitmap c h = ap (λ n. (n, bmap_set bitmap c)) (cluster_small c h)

no_bit : (bitmap : List ℕ) → take_bit bitmap none ≡ (cluster_end, bitmap)
unfolding take_bit
no_bit bitmap = refl

from_zero :
    (bitmap : List ℕ) (end : ℕ)
    → find_bit_and_set bitmap 0 end ≡ take_bit bitmap (find_clear bitmap end 0)
from_zero bitmap end =
    find_bit_and_set-eq bitmap 0 end (omega arith)
    ∙ ap (λ n. take_bit bitmap (find_clear bitmap n 0)) (omega arith)

-- `allocate_cluster` takes that bit, and nothing else changes.
pub allocate_cluster-eq :
    {D : Type 0} (hint : ℕ) (s : State D)
    → IsCmap s.ef.cmap
    → allocate_cluster hint s ≡ taken s (choice s.ef.cmap hint)
unfolding allocate_cluster
allocate_cluster-eq hint s is = elim (Option-cases (find_clear chunk (n - start) start)) [
  | inr (c, e) ↦
      let small : c < 0xfffffff5 =
        omega (arith, find_bound chunk _ start c e, le, is.whole, is.small) in
      rw
        (
          find_bit_and_set-eq chunk start n le,
          e,
          taken_bit chunk c small,
          not_end c small,
          not_end c small,
        )
        refl
  | inl none_above ↦ elim (Option-cases (find_clear chunk start 0)) [
    | inr (c, e) ↦
        let small : c < 0xfffffff5 =
          omega (arith, find_bound chunk _ 0 c e, le, is.whole, is.small) in
        rw
          (
            find_bit_and_set-eq chunk start n le,
            none_above,
            no_bit chunk,
            from_zero chunk start,
            e,
            taken_bit chunk c small,
            not_end c small,
          )
          refl
    | inl none_below ↦
        rw
          (
            find_bit_and_set-eq chunk start n le,
            none_above,
            no_bit chunk,
            from_zero chunk start,
            none_below,
            no_bit chunk,
          )
          refl
  ]
]
  where
    chunk : List ℕ
    chunk = s.ef.cmap.chunk

    n : ℕ
    n = s.ef.cmap.chunk_size

    start : ℕ
    start = start_bit n hint

    le : start ≤ n
    le = start_bit_le n hint

-- What holds of the bit taken: it was clear and is in the bitmap; if there is none, all are set.
abbrev pub IsChoice : Cmap → Option ℕ → Type 0
IsChoice cmap none = (j : ℕ) → j < cmap.size → bmap_get cmap.chunk j ≡ true
IsChoice cmap (some c) = (c < cmap.size) × (bmap_get cmap.chunk c ≡ false)

pub choice-IsChoice : (cmap : Cmap) (hint : ℕ) → IsCmap cmap → IsChoice cmap (choice cmap hint)
choice-IsChoice cmap hint is = elim (Option-cases (find_clear chunk (n - start) start)) [
  | inr (c, e) ↦
      let first : FirstClear chunk start n (some c) =
        rw e at (find_clear-FirstClear chunk (n - start) start n (omega (arith, le))) in
      rw e (omega (arith, first.1, is.whole), first.2)
  | inl above ↦
      let set_above : FirstClear chunk start n none =
        rw above at (find_clear-FirstClear chunk (n - start) start n (omega (arith, le))) in
      elim (Option-cases (find_clear chunk start 0)) [
        | inr (c, e) ↦
            let first : FirstClear chunk 0 start (some c) =
              rw e at (find_clear-FirstClear chunk start 0 start (omega arith)) in
            rw (above, e) (omega (arith, first.1, le, is.whole), first.2)
        | inl below ↦
            let set_below : FirstClear chunk 0 start none =
              rw below at (find_clear-FirstClear chunk start 0 start (omega arith)) in
            rw (above, below)
              (λ j h. elim (dec_lt j start) [
                | yes l ↦ set_below j (omega arith) l
                | no m ↦ set_above j (omega arith) (omega (arith, is.whole, h))
              ])
      ]
]
  where
    chunk : List ℕ
    chunk = cmap.chunk

    n : ℕ
    n = cmap.chunk_size

    start : ℕ
    start = start_bit n hint

    le : start ≤ n
    le = start_bit_le n hint

-- What a call of `allocate_cluster` may have done: taken one cluster that was free, or found that
-- there is none and changed nothing.
pub data Allocated {D : Type 0} (s : State D) (r : Result ℕ × State D) : Type 0 where
  one :
      (c : ℕ)
      → c < s.ef.cmap.size
      → bmap_get s.ef.cmap.chunk c ≡ false
      → r ≡ (ok (c + first_data_cluster), with_chunk s (bmap_set s.ef.cmap.chunk c))
      → Allocated s r
  full :
      ((j : ℕ) → j < s.ef.cmap.size → bmap_get s.ef.cmap.chunk j ≡ true)
      → r ≡ (ok cluster_end, s)
      → Allocated s r

taken-Allocated :
    {D : Type 0} (s : State D) (o : Option ℕ) → IsChoice s.ef.cmap o → Allocated s (taken s o)
taken-Allocated s none h = full h refl
taken-Allocated s (some c) h = one c h.0 h.1 refl

-- `allocate_cluster` takes a cluster that is free, marks its bit alone and the bitmap as dirty, and
-- fails, changing nothing, only when every cluster is in use; for any hint.
pub allocate_cluster-Allocated :
    {D : Type 0} (hint : ℕ) (s : State D) → IsCmap s.ef.cmap → Allocated s (allocate_cluster hint s)
allocate_cluster-Allocated hint s is =
    rw (allocate_cluster-eq hint s is)
      (taken-Allocated s (choice s.ef.cmap hint) (choice-IsChoice s.ef.cmap hint is))

set_chunk-IsCmap :
    (cmap : Cmap) (chunk : List ℕ)
    → IsCmap cmap
    → IsBitmap chunk cmap.size
    → IsCmap (record cmap { chunk = chunk; dirty = true })
set_chunk-IsCmap cmap chunk is bits = record { whole = is.whole; small = is.small; bits = bits }

Allocated-IsCmap :
    {D : Type 0} (s : State D) (r : Result ℕ × State D)
    → IsCmap s.ef.cmap
    → Allocated s r
    → IsCmap r.1.ef.cmap
Allocated-IsCmap s r is (one c h clear e) =
    rw e
      (set_chunk-IsCmap s.ef.cmap _ is (bmap_set-IsBitmap s.ef.cmap.chunk s.ef.cmap.size is.bits c))
Allocated-IsCmap s r is (full h e) = rw e is

-- The free clusters, counted after a call, with the one that it took if it took one.
abbrev pub Counted : {D : Type 0} → State D → Result ℕ × State D → Type 0
Counted s r =
    ((r.0 ≡ ok cluster_end) × (exfat_count_free_clusters r.1.ef ≡ exfat_count_free_clusters s.ef))
    ⊎ ((exfat_count_free_clusters r.1.ef + 1 ≡ exfat_count_free_clusters s.ef))

Allocated-Counted :
    {D : Type 0} (s : State D) (r : Result ℕ × State D)
    → IsCmap s.ef.cmap
    → Allocated s r
    → Counted s r
unfolding exfat_count_free_clusters
Allocated-Counted s r is (one c h clear e) =
    rw e (inr (count_free-bmap_set s.ef.cmap.chunk s.ef.cmap.size is.bits c h clear))
Allocated-Counted s r is (full h e) = rw e (inl (refl, refl))

-- `allocate_cluster` keeps the bitmap well formed, and `exfat_count_free_clusters` goes down by
-- one, or stays when the result is EXFAT_CLUSTER_END.
pub allocate_cluster-IsCmap :
    {D : Type 0} (hint : ℕ) (s : State D)
    → IsCmap s.ef.cmap
    → IsCmap (allocate_cluster hint s).1.ef.cmap × Counted s (allocate_cluster hint s)
allocate_cluster-IsCmap hint s is =
    let a = allocate_cluster-Allocated hint s is in
    (Allocated-IsCmap s _ is a, Allocated-Counted s _ is a)

-- `free_cluster` on a cluster in use clears its bit alone, keeps the bitmap well formed and adds
-- one to the count of free clusters.
pub free_cluster_lem :
    {D : Type 0} (c : ℕ) (s : State D)
    → IsCmap s.ef.cmap
    → c < s.ef.cmap.size
    → bmap_get s.ef.cmap.chunk c ≡ true
    → (free_cluster (c + first_data_cluster) s ≡ (ok tt, with_chunk s (bmap_clr s.ef.cmap.chunk c)))
      × IsCmap (free_cluster (c + first_data_cluster) s).1.ef.cmap
      × (exfat_count_free_clusters (free_cluster (c + first_data_cluster) s).1.ef
          ≡ exfat_count_free_clusters s.ef + 1)
free_cluster_lem {D} c s is h set = (
  e,
  rw e (
      set_chunk-IsCmap s.ef.cmap _ is (bmap_clr-IsBitmap s.ef.cmap.chunk s.ef.cmap.size is.bits c)),
  rw e (
      unfold exfat_count_free_clusters in
      sym (count_free-bmap_clr s.ef.cmap.chunk s.ef.cmap.size is.bits c h set)),
)
  where
    bit : sub32 (c + first_data_cluster) first_data_cluster ≡ c
    bit = omega (arith, h, is.small)

    inside : leb s.ef.cmap.size c ≡ false
    inside = ground arith

    e : free_cluster (c + first_data_cluster) s ≡ (ok tt, with_chunk s (bmap_clr s.ef.cmap.chunk c))
    e = unfold free_cluster in rw (bit, inside) refl
