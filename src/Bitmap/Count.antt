-- ===== src/Bitmap/Count.antt =====
-- `exfat_count_free_clusters` of libexfat/cluster.c, when one bit of the bitmap changes.
use native.Mathlib.Decide.{ℕ_discrete}
use nuclear_armageddon.Prelude.{
  ℕ, zero, suc, ◌+◌, ◌≤◌, ◌<◌, ◌≡◌, ◌≢◌, refl, sym, ap, ◌∙◌, true, false, List, if◌then◌else◌,
  arith,
}
use nuclear_armageddon.Bitmap.{bmap_get, bmap_set, bmap_clr, count_free}
use nuclear_armageddon.Bitmap.Laws.{IsBitmap, bmap_get-bmap_set, bmap_get-bmap_clr}

module _ (a b : List ℕ) where
  count_same :
      (left i : ℕ)
      → ((j : ℕ) → i ≤ j → bmap_get a j ≡ bmap_get b j)
      → count_free a left i ≡ count_free b left i
  unfolding count_free
  count_same zero i h = refl
  count_same (suc left) i h = rw (h i (omega arith)) (
      ap (λ n. (if bmap_get b i then 0 else 1) + n)
        (count_same left (i + 1) (λ j l. h j (omega arith))))

  -- Where `a` has a bit that `b` has not, and the others agree, `b` has one more clear bit.
  count_one :
      (left i c : ℕ)
      → i ≤ c
      → c < i + left
      → bmap_get a c ≡ true
      → bmap_get b c ≡ false
      → ((j : ℕ) → c ≢ j → bmap_get a j ≡ bmap_get b j)
      → count_free a left i + 1 ≡ count_free b left i
  unfolding count_free
  count_one zero i c l k ha hb h = absurd (omega arith)
  count_one (suc left) i c l k ha hb h = elim (ℕ_discrete c i) [
    | yes e ↦ ground (
      arith,
      e,
      ap (bmap_get a) e,
      ap (bmap_get b) e,
      count_same left (i + 1) (λ j m. h j (λ q. absurd (omega arith))),
    )
    | no ne ↦ ground (arith, h i ne, count_one left (i + 1) c (omega arith) (omega arith) ha hb h)
  ]

module _ (bitmap : List ℕ) (n : ℕ) (is : IsBitmap bitmap n) (c : ℕ) (hc : c < n) where
  -- Setting a clear bit takes one from the number of clear bits.
  pub count_free-bmap_set :
      bmap_get bitmap c ≡ false → count_free (bmap_set bitmap c) n 0 + 1 ≡ count_free bitmap n 0
  count_free-bmap_set clear =
      count_one (bmap_set bitmap c) bitmap n 0 c (omega arith) (omega arith)
        (bmap_get-bmap_set bitmap n is c c hc ∙ ground arith) clear
        (λ j ne. bmap_get-bmap_set bitmap n is c j hc ∙ ground arith)

  -- Clearing a bit that is set adds one.
  pub count_free-bmap_clr :
      bmap_get bitmap c ≡ true → count_free bitmap n 0 + 1 ≡ count_free (bmap_clr bitmap c) n 0
  count_free-bmap_clr set =
      count_one bitmap (bmap_clr bitmap c) n 0 c (omega arith) (omega arith) set
        (bmap_get-bmap_clr bitmap n is c c hc ∙ ground arith)
        (λ j ne. sym (bmap_get-bmap_clr bitmap n is c j hc ∙ ground arith))
