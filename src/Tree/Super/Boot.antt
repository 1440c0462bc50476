-- ===== src/Tree/Super/Boot.antt =====
-- The boot region of a new volume is one that `exfat_mount` accepts.
use mathlib.Core.Bool.{cond}
use nuclear_armageddon.Prelude.{
  ℕ, zero, suc, ◌+◌, ◌*◌, ◌/◌, ◌^◌, ◌<◌, ◌≡◌, refl, sym, ap, ◌∙◌, subst, arith, Bool, true, false,
  Option, none, some, List, length, ◌==◌, ==_iff,
}
use nuclear_armageddon.Result.{Result, ok}
use nuclear_armageddon.Checksum.{exfat_vbr_start_checksum, exfat_vbr_add_checksum}
use nuclear_armageddon.Checksum.Bounds.{
  exfat_vbr_start_checksum-bound, exfat_vbr_add_checksum-bound,
}
use nuclear_armageddon.Exfat.{Device, IsDisk, exfat_pread, sector_size, le32_bytes, le32_value}
use nuclear_armageddon.Mkfs.{on_512, Param}
use nuclear_armageddon.Mkfs.Write.{init_sb, words, signature_sector, empty_sector}
use nuclear_armageddon.Mkfs.Region.{
  Holds, Sectors, added, region_sum, Region, length-words, length-init_sb,
}
use nuclear_armageddon.Mkfs.Formatted.{length-signature_sector, length-empty_sector}
use nuclear_armageddon.Tree.{T, Tree, ◌>>=◌, pure, on_device}
use nuclear_armageddon.Tree.Super.{
  with_sector, add_sectors, repair_vbr, check_words, check_sum, verify_vbr_checksum,
}

abbrev pub with_dev : {D : Type 0} → Tree D → D → Tree D
with_dev t dev = record t { ef = record (t.ef) { dev = dev } }

-- Reads of the device do not fail.
unfoldable pub Reads : {D : Type 0} → Device D → Type 0
Reads {D} io =
    (size offset : ℕ) (d : D) → (bytes : List ℕ) × ((io.pread size offset d).0 ≡ some bytes)

added-bound :
    (left : ℕ) (sector : List ℕ) (checksum : ℕ)
    → checksum < 2 ^ 32
    → added left sector checksum < 2 ^ 32
unfolding added
added-bound zero sector checksum h = h
added-bound (suc left) sector checksum h =
    added-bound left sector _ (exfat_vbr_add_checksum-bound sector checksum h)

region_sum-bound : (p : Param) → region_sum p < 2 ^ 32
unfolding region_sum
region_sum-bound p = added-bound 2 _ _ (added-bound 8 _ _ (exfat_vbr_start_checksum-bound _))

never : (n left : ℕ) → zero ≡ suc n + left → ⊥
never n left e = omega (arith, e)

word_first :
    (n checksum : ℕ) → checksum < 2 ^ 32 → (le32_value (words (suc n) checksum) == checksum) ≡ true
unfolding words le32_bytes le32_value
word_first n checksum h = (==_iff _ checksum).1 (omega (arith, h))

module _ {D : Type 0} ⦃io : Device D⦄ (view : D → ℕ → ℕ) (disk : IsDisk io view)
    (reads : Reads io) where
  -- The tree after reads, and what is done next in it.
  pub record Goes (t : Tree D) (m : T D Bool) (next : T D Bool) : Type 0 where
    pub dev : D
    pub same : view dev ≡ view t.ef.dev
    pub goes : m t ≡ next (with_dev t dev)

  abbrev found_then : (List ℕ → T D Bool) → Option (List ℕ) → T D Bool
  found_then f found = elim found [ none ↦ pure false | some sector ↦ f sector ]

  abbrev reading : ℕ → ℕ → (List ℕ → T D Bool) → Tree D → Option (Result Bool × Tree D)
  reading size offset f t = (on_device (exfat_pread size offset) >>= found_then f) t

  reading_lem :
      (offset : ℕ) (buffer : List ℕ) (f : List ℕ → T D Bool) (t : Tree D)
      → Holds (view t.ef.dev) offset buffer
      → reading (length buffer) offset f t
        ≡ f buffer (with_dev t (io.pread (length buffer) offset t.ef.dev).1)
  unfolding Holds Reads
  reading_lem offset buffer f t h =
      let r = reads (length buffer) offset t.ef.dev in
      ap (λ o. found_then f o (with_dev t (io.pread (length buffer) offset t.ef.dev).1)) (r.1)
      ∙ ap (λ b. f b (with_dev t (io.pread (length buffer) offset t.ef.dev).1))
          (disk.read (length buffer) offset t.ef.dev r.0 r.1 ∙ h)

  with_sector-Goes :
      (i : ℕ) (buffer : List ℕ) (f : List ℕ → T D Bool) (t : Tree D)
      → sector_size t.ef.sb ≡ 512
      → length buffer ≡ 512
      → Holds (view t.ef.dev) (i * 512) buffer
      → Goes t (with_sector i f) (f buffer)
  with_sector-Goes i buffer f t size len h = record {
    dev = (io.pread (length buffer) (i * 512) t.ef.dev).1;
    same = disk.kept (length buffer) (i * 512) t.ef.dev;
    goes =
        ap (λ s. reading s (i * s) f t) size
        ∙ ap (λ s. reading s (i * 512) f t) (sym len)
        ∙ reading_lem (i * 512) buffer f t h;
  }

  Goes-then :
      (t : Tree D) (m next last : T D Bool) (g : Goes t m next)
      → Goes (with_dev t g.dev) next last
      → Goes t m last
  Goes-then t m next last g h = record {
    dev = h.dev;
    same = h.same ∙ g.same;
    goes = g.goes ∙ h.goes;
  }

  -- Copies of a sector are added to the checksum one by one.
  add_sectors-Goes :
      (n total left i j checksum : ℕ) (sector : List ℕ) (f : ℕ → T D Bool) (t : Tree D)
      → total ≡ n + left
      → j ≡ i + n
      → sector_size t.ef.sb ≡ 512
      → length sector ≡ 512
      → Sectors (view t.ef.dev) (i * 512) n sector
      → Goes t (add_sectors total i checksum f) (add_sectors left j (added n sector checksum) f)
  unfolding add_sectors Sectors added
  add_sectors-Goes zero total left i j checksum sector f t e g size len h = record {
    dev = t.ef.dev;
    same = refl;
    goes =
        ap (λ k. add_sectors k i checksum f t) (e ∙ omega arith)
        ∙ ap (λ k. add_sectors left k checksum f t) (sym (g ∙ omega arith));
  }
  add_sectors-Goes (suc n) zero left i j checksum sector f t e g size len h =
      elim (never n left e) [ ]
  add_sectors-Goes (suc n) (suc total) left i j checksum sector f t e g size len h =
      let first =
        with_sector-Goes i sector
          (λ read. add_sectors total (i + 1) (exfat_vbr_add_checksum read checksum) f) t size len
          h.0 in
      Goes-then t _ _ _ first (
        add_sectors-Goes n total left (i + 1) j _ sector f (with_dev t first.dev) (omega (arith, e))
          (omega (arith, g)) size len
          (subst (λ v. Sectors v ((i + 1) * 512) n sector) (sym first.same)
            (subst (λ o. Sectors (view t.ef.dev) o n sector) (omega arith) h.1)))

  -- A sector of copies of the sum passes.
  check_words_lem :
      (n checksum : ℕ) (t : Tree D)
      → checksum < 2 ^ 32
      → check_words n (words n checksum) checksum t ≡ some (ok true, t)
  unfolding check_words words le32_bytes
  check_words_lem zero checksum t h = refl
  check_words_lem (suc n) checksum t h =
      ap
        (λ same.
          cond same (check_words n (words n checksum) checksum)
            (do
              fixed ← repair_vbr checksum
              cond fixed (check_words n (words n checksum) checksum) (pure false))
            t)
        (word_first n checksum h)
      ∙ check_words_lem n checksum t h

  -- The sectors after the first one, and the comparison with the last one.
  check_sum-Goes :
      (checksum : ℕ) (t : Tree D)
      → checksum < 2 ^ 32
      → sector_size t.ef.sb ≡ 512
      → Holds (view t.ef.dev) 5632 (words 128 checksum)
      → Goes t (check_sum checksum) (pure true)
  check_sum-Goes checksum t h size here =
      let last =
        with_sector-Goes 11 (words 128 checksum) _ t size (length-words 128 checksum) here in
      Goes-then t _ _ _ last (record {
        dev = last.dev;
        same = refl;
        goes =
            ap (λ s. check_words (s / 4) (words 128 checksum) checksum (with_dev t last.dev)) size
            ∙ check_words_lem 128 checksum (with_dev t last.dev) h;
      })

  rest-Goes :
      (p : Param) (t : Tree D)
      → sector_size t.ef.sb ≡ 512
      → Region (view t.ef.dev) 0 p
      → Goes t
          (add_sectors 10 1 (exfat_vbr_start_checksum (init_sb (on_512 p))) check_sum)
          (pure true)
  unfolding region_sum add_sectors
  rest-Goes p t size r =
      let start = exfat_vbr_start_checksum (init_sb (on_512 p)) in
      let signed =
        add_sectors-Goes 8 10 2 1 9 start (signature_sector (on_512 p)) check_sum t (omega arith)
          (omega arith) size (length-signature_sector p) r.signed in
      let blank =
        add_sectors-Goes 2 2 0 9 11 (added 8 (signature_sector (on_512 p)) start)
          (empty_sector (on_512 p)) check_sum (with_dev t signed.dev) (omega arith) (omega arith)
          size (length-empty_sector p)
          (subst (λ v. Sectors v 4608 2 (empty_sector (on_512 p))) (sym signed.same) r.blank) in
      let before = Goes-then t _ _ _ signed blank in
      Goes-then t _ _ _ before (
        check_sum-Goes (region_sum p) (with_dev t before.dev) (region_sum-bound p) size
          (subst (λ v. Holds v 5632 (words 128 (region_sum p))) (sym before.same) r.final))

  pub verify_vbr_checksum-Goes :
      (p : Param) (t : Tree D)
      → sector_size t.ef.sb ≡ 512
      → Region (view t.ef.dev) 0 p
      → Goes t verify_vbr_checksum (pure true)
  unfolding verify_vbr_checksum
  verify_vbr_checksum-Goes p t size r =
      let first =
        with_sector-Goes 0 (init_sb (on_512 p))
          (λ s. add_sectors 10 1 (exfat_vbr_start_checksum s) check_sum) t size (length-init_sb p)
          r.boot in
      Goes-then t _ _ _ first
        (rest-Goes p (with_dev t first.dev) size (subst (λ v. Region v 0 p) (sym first.same) r))
