-- ===== src/Cluster/Keeps/Size.antt =====
-- What truncation, erasing and reads of libexfat/cluster.c and libexfat/io.c do to the
-- volume.
use mathlib.Core.Bool.{cond}
use native.Mathlib.Nat.{
  one-le-pow, mod-lt, mod-eq_of_lt, div-eq_of_lt, lt_of_lt_of_le, lt_of_le_of_lt, pow-le-pow_right,
  pow-suc, div-lt_iff_lt-mul, div-mul-le_self,
}
use nuclear_armageddon.Prelude.{
  ℕ, zero, suc, ◌+◌, ◌-◌, ◌*◌, ◌%◌, ◌/◌, ◌∙◌, ◌^◌, ◌≤◌, ◌<◌, ◌≡◌, ◌⊎◌, inl, inr, u64, leb, sym,
  subst, refl, ap, min, Bool, Bool-cases, ltb→lt, Option, none, some, List, [], ◌++◌, ltb, ◌==◌,
  arith,
}
use nuclear_armageddon.Prelude.Int.{ℤ}
use nuclear_armageddon.Result.{Result, ok, bug}
use nuclear_armageddon.Exfat.{SuperBlock, Device, cluster_size, exfat_pread}
use nuclear_armageddon.Cluster.{
  State, M, ◌>>=◌, ◌>>◌, pure, exfat_bug, on_dev, exfat_c2o, exfat_next_cluster,
}
use nuclear_armageddon.Cluster.Allocate.{IsCmap}
use nuclear_armageddon.Cluster.Shrink.{or_eio, check_cluster}
use nuclear_armageddon.Cluster.Truncate.{
  offset_of, erase_raw, erase_round, erase_loop, erase_range, exfat_truncate,
}
use nuclear_armageddon.Cluster.Transfer.{
  got, read_round, read_loop, read_at, read_cluster, exfat_generic_pread,
}
use nuclear_armageddon.Cluster.Keeps.{
  IsVolume, Kept, Keeps, keeps_rules, Keeps-bind, Keeps-gets, Keeps-gets-bind, Keeps-cond,
  Keeps-test, Keeps-bug, Keeps-pure,
}
use nuclear_armageddon.Cluster.Keeps.Chain.{
  chain_rules, exfat_next_cluster-Keeps, check_cluster-Keeps, shrink_file-Keeps, grow_file-Keeps,
}

mul_pos : {m n : ℕ} → 0 < m → 0 < n → 0 < m * n
mul_pos {m} {n} h k = grind arith

pub cluster_size_pos : (sb : SuperBlock) → 0 < cluster_size sb
cluster_size_pos sb =
    mul_pos (mul_pos (omega arith) (one-le-pow sb.sector_bits 2 (omega arith)))
      (one-le-pow sb.spc_bits 2 (omega arith))

-- A size to which the boundaries of the clusters go up without wrapping around.
unfoldable pub Erasable : SuperBlock → ℕ → Type 0
Erasable sb size = (size ≡ 0) ⊎ (size + cluster_size sb ≤ 2 ^ 64)

sum_zero : (a : ℕ) → a + 0 ≡ a
sum_zero a = omega arith

pow_add : (a b : ℕ) → 2 ^ a * 2 ^ b ≡ 2 ^ (a + b)
pow_add a zero = omega (arith, ap (λ n. 2 ^ n) (sum_zero a))
pow_add a (suc b) =
    ap (λ n. 2 ^ a * n) (pow-suc 2 b)
    ∙ omega (arith, pow_add a b)
    ∙ sym (pow-suc 2 (a + b))
    ∙ ap (λ n. 2 ^ n) (omega arith)

cluster_size_power : (sb : SuperBlock) → cluster_size sb ≡ 2 ^ (sb.sector_bits + sb.spc_bits)
cluster_size_power sb =
    ap (λ n. n * 2 ^ sb.spc_bits) (omega arith) ∙ pow_add sb.sector_bits sb.spc_bits

multiple_lt : (q m cs : ℕ) → q < m → q * cs + cs ≤ m * cs
multiple_lt q m cs h = grind arith

rounded_power :
    (k n : ℕ) → n < 2 ^ 64 → (n / 2 ^ k * 2 ^ k ≡ 0) ⊎ (n / 2 ^ k * 2 ^ k + 2 ^ k ≤ 2 ^ 64)
rounded_power k n h = elim (Bool-cases (ltb 64 k)) [
  | inl big ↦
      let over : 2 ^ 64 ≤ 2 ^ k =
        pow-le-pow_right {n = 2} (omega arith) {i = 64} {j = k} (omega (arith, ltb→lt _ _ big)) in
      inl (omega (arith, ap (λ q. q * 2 ^ k) (div-eq_of_lt (lt_of_lt_of_le h over))))
  | inr small ↦
      let whole : 2 ^ (64 - k) * 2 ^ k ≡ 2 ^ 64 =
        pow_add (64 - k) k ∙ ap (λ n. 2 ^ n) {y = 64} (ground (arith, small)) in
      inr (
        subst (λ m. n / 2 ^ k * 2 ^ k + 2 ^ k ≤ m) whole
          (multiple_lt (n / 2 ^ k) (2 ^ (64 - k)) (2 ^ k) (
            (div-lt_iff_lt-mul (one-le-pow k 2 (omega arith))).1
              (subst (λ m. n < m) (sym whole) h))))
]

-- A number of 64 bits without its remainder by the size of the clusters.
pub rounded-Erasable :
    (sb : SuperBlock) (n : ℕ)
    → n < 2 ^ 64
    → Erasable sb (u64 (n / cluster_size sb * cluster_size sb))
unfolding Erasable
rounded-Erasable sb n h = rw (mod-eq_of_lt whole, cluster_size_power sb) (rounded_power _ n h)
  where
    whole : n / cluster_size sb * cluster_size sb < 2 ^ 64
    whole = lt_of_le_of_lt (div-mul-le_self n (cluster_size sb)) h

module _ {D : Type 0} ⦃io : Device D⦄ {sb : SuperBlock} where
  offset_of-Keeps : (c : ℕ) → Keeps D sb (offset_of c)
  offset_of-Keeps c = record { at = λ s h. kept s h (exfat_c2o s.ef.sb c) }
    where
      kept :
          (s : State D)
          → IsVolume sb s
          → (o : Option ℕ)
          → Kept sb (elim o as (λ _. Result ℕ × State D) [
            | none ↦ (bug, s)
            | some offset ↦ (ok offset, s)
          ])
      kept s h none = (h, tt)
      kept s h (some offset) = (h, tt)

  erase_raw-Keeps : (size offset : ℕ) → Keeps D sb (erase_raw size offset)
  unfolding erase_raw
  erase_raw-Keeps size offset = search keeps_rules

  ruleset size_rules = (chain_rules, offset_of-Keeps, erase_raw-Keeps)

  erase_round-Keeps :
      (rest : ℕ → ℕ → M D (Unit {0})) (c boundary end : ℕ)
      → ((c' : ℕ) → boundary < end → Keeps D sb (rest c' (u64 (boundary + cluster_size sb))))
      → Keeps D sb (erase_round rest c boundary end)
  erase_round-Keeps rest c boundary end k =
      Keeps-test (ltb boundary end) _ _
        (λ more. Keeps-bind (exfat_next_cluster c) _ (exfat_next_cluster-Keeps c) (λ next.
          Keeps-bind _ _ (Keeps-gets _) (λ invalid.
            Keeps-bind (cond invalid exfat_bug (pure tt)) _
              (Keeps-cond invalid _ _ Keeps-bug (Keeps-pure tt))
              (λ u.
                Keeps-gets-bind (λ s. cluster_size s.ef.sb)
                  (λ size. do
                    offset ← offset_of next
                    or_eio (erase_raw size offset)
                    rest next (u64 (boundary + size)))
                  (λ s h. search (
                    size_rules,
                    λ (c' : ℕ).
                        subst (λ v. Keeps D sb (rest c' (u64 (boundary + cluster_size v))))
                          (sym h.same) (k c' (ground (arith, more))),
                  ))))))
        (λ done. search keeps_rules)

  erase_loop-Keeps :
      (fuel c boundary end : ℕ)
      → end + cluster_size sb ≤ 2 ^ 64
      → end - boundary < fuel
      → Keeps D sb (erase_loop fuel c boundary end)
  unfolding erase_loop
  erase_loop-Keeps zero c boundary end room h = absurd (omega (arith, h))
  erase_loop-Keeps (suc fuel) c boundary end room h =
      erase_round-Keeps (λ c' b. erase_loop fuel c' b end) c boundary end
        (λ c' more.
          subst (λ b. Keeps D sb (erase_loop fuel c' b end))
            (sym (mod-eq_of_lt (omega (arith, more, room))))
            (erase_loop-Keeps fuel c' (boundary + cluster_size sb) end room
              (omega (arith, h, more, cluster_size_pos sb))))

  erase_range-Keeps : (begin end : ℕ) → Erasable sb end → Keeps D sb (erase_range begin end)
  unfolding erase_range Erasable
  erase_range-Keeps begin end (inl none_left) =
      Keeps-test (leb end begin) _ _ (λ done. search keeps_rules)
        (λ more. absurd (ground (arith, more, none_left)))
  erase_range-Keeps begin end (inr room) =
      search
        (
          size_rules,
          λ (c boundary : ℕ). erase_loop-Keeps (suc end) c boundary end room (omega arith),
        )
        depth 14

  pub exfat_truncate-Keeps :
      (now : ℤ) (size : ℕ) (erase : Bool)
      → Erasable sb size
      → Keeps D sb (exfat_truncate now size erase)
  unfolding exfat_truncate
  exfat_truncate-Keeps now size erase room =
      search
        (
          size_rules,
          grow_file-Keeps,
          shrink_file-Keeps,
          λ (begin : ℕ). erase_range-Keeps begin size room,
        )
        depth 14

  got-Keeps : (o : Option (List ℕ)) → Keeps D sb (got o)
  got-Keeps none = search keeps_rules
  got-Keeps (some bytes) = search keeps_rules

  read_round-Keeps :
      (rest : ℕ → ℕ → List ℕ → M D (List ℕ)) (c loffset remainder : ℕ) (out : List ℕ)
      → loffset < cluster_size sb
      → ((c' left : ℕ) (out' : List ℕ) → left < remainder → Keeps D sb (rest c' left out'))
      → Keeps D sb (read_round rest c loffset remainder out)
  read_round-Keeps rest c loffset remainder out inside k =
      Keeps-test (remainder == 0) _ _ (λ done. search keeps_rules)
        (λ more. Keeps-bind (check_cluster c) _ (check_cluster-Keeps c) (λ u.
          Keeps-gets-bind (λ s. cluster_size s.ef.sb)
            (λ size. do
              offset ← offset_of c
              read ← on_dev (exfat_pread (min (size - loffset) remainder) (offset + loffset))
              bytes ← got read
              next ← exfat_next_cluster c
              rest next (remainder - min (size - loffset) remainder) (out ++ bytes))
            (λ s h.
              search
                (
                  size_rules,
                  got-Keeps,
                  λ (c' : ℕ) (out' : List ℕ).
                      k c' (remainder - min (cluster_size s.ef.sb - loffset) remainder) out'
                        (ground (arith, more, inside, ap cluster_size h.same)),
                )
                depth 12)))

  read_loop-Keeps :
      (fuel c loffset remainder : ℕ) (out : List ℕ)
      → loffset < cluster_size sb
      → remainder ≤ fuel
      → Keeps D sb (read_loop fuel c loffset remainder out)
  unfolding read_loop
  read_loop-Keeps zero c loffset remainder out inside h =
      Keeps-test (remainder == 0) _ _ (λ done. search keeps_rules)
        (λ more. absurd (ground (arith, more, h)))
  read_loop-Keeps (suc fuel) c loffset remainder out inside h =
      read_round-Keeps (λ c' left bytes. read_loop fuel c' 0 left bytes) c loffset remainder out
        inside
        (λ c' left out' less.
          read_loop-Keeps fuel c' 0 left out' (cluster_size_pos sb) (omega (arith, h, less)))

  within_lt :
      (s : State D) (offset : ℕ) → IsVolume sb s → offset % cluster_size s.ef.sb < cluster_size sb
  within_lt s offset h = rw h.same (mod-lt offset (cluster_size_pos sb))

  read_cluster-Keeps :
      (now : ℤ) (size offset node_size : ℕ) → Keeps D sb (read_cluster now size offset node_size)
  read_cluster-Keeps now size offset node_size =
      Keeps-gets-bind (λ s. cluster_size s.ef.sb) (λ cs. read_at now size offset node_size cs)
        (λ s h.
          search
            (
              size_rules,
              λ (c : ℕ).
                  read_loop-Keeps (min size (node_size - offset)) c (offset % cluster_size s.ef.sb)
                    (min size (node_size - offset)) [] (within_lt s offset h) (omega arith),
            )
            depth 12)

  pub exfat_generic_pread-Keeps :
      (now : ℤ) (size offset : ℕ) → Keeps D sb (exfat_generic_pread now size offset)
  unfolding exfat_generic_pread
  exfat_generic_pread-Keeps now size offset = search (keeps_rules, read_cluster-Keeps) depth 12

module _ {D : Type 0} ⦃io : Device D⦄ where
  -- From a volume whose bitmap of clusters is well formed, and whatever the device answers,
  -- `exfat_truncate` to 0 or to a size that is at least one cluster below 2 ^ 64 comes to its end, and
  -- leaves the super block as it is and a well-formed bitmap, with an error and on the call of
  -- `exfat_bug` too.
  pub exfat_truncate-Kept :
      (now : ℤ) (size : ℕ) (erase : Bool) (s : State D)
      → Erasable s.ef.sb size
      → IsCmap s.ef.cmap
      → Kept s.ef.sb (exfat_truncate now size erase s)
  exfat_truncate-Kept now size erase s room h =
      (exfat_truncate-Keeps now size erase room).at s record { same = refl; cmap = h }
