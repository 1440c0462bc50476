-- ===== src/Checksum/Detect.antt =====
-- What the checksums of libexfat/utils.c tell apart, and what they pass over.
use nuclear_armageddon.Prelude.{
  ℕ, zero, suc, ◌+◌, ◌/◌, ◌%◌, ◌^◌, ◌<◌, ◌≡◌, ◌≢◌, refl, ap, ◌∙◌, inl, inr, Bool, true, false, List,
  [], ◌∷◌, if◌then◌else◌, length, set, get_or, arith, Bool-cases,
}
use native.Mathlib.Nat.{zero-add}
use nuclear_armageddon.Checksum.{
  add_checksum_byte, add_checksum_byte32, sum_from, outside_checksum, outside_volatile,
  add_checksum_bytes, exfat_start_checksum, exfat_add_checksum, add_checksum_entries,
  exfat_calc_checksum, exfat_vbr_start_checksum,
}
use nuclear_armageddon.Checksum.Rotate.{IsSum, add_checksum_byte-IsSum, add_checksum_byte32-IsSum}

module _ (add : ℕ → ℕ → ℕ) (modulus : ℕ) (is : IsSum add modulus) (counts : ℕ → Bool) where
  next_below : (i sum byte : ℕ) → sum < modulus → (if counts i then add sum byte else sum) < modulus
  next_below i sum byte h = elim (Bool-cases (counts i)) [
    | inl c ↦ rw c (is.below sum byte)
    | inr c ↦ rw c h
  ]

  pub sum_from-lt :
      (i sum : ℕ) (bytes : List ℕ) → sum < modulus → sum_from add counts i sum bytes < modulus
  unfolding sum_from
  sum_from-lt i sum [] h = h
  sum_from-lt i sum (b ∷ bytes) h = sum_from-lt (i + 1) _ bytes (next_below i sum b h)

  -- Two sums that differ still differ after the same bytes.
  pub sum_from_inj :
      (i s t : ℕ) (bytes : List ℕ)
      → s < modulus
      → t < modulus
      → sum_from add counts i s bytes ≡ sum_from add counts i t bytes
      → s ≡ t
  unfolding sum_from
  sum_from_inj i s t [] hs ht e = e
  sum_from_inj i s t (b ∷ bytes) hs ht e =
      let met : (if counts i then add s b else s) ≡ (if counts i then add t b else t) =
        sum_from_inj (i + 1) (if counts i then add s b else s) (if counts i then add t b else t)
          bytes (next_below i s b hs) (next_below i t b ht) e in
      elim (Bool-cases (counts i)) [
        | inl c ↦ is.sum_inj s t b hs ht (rw c at met)
        | inr c ↦ rw c at met
      ]

  -- Another byte at a place that counts gives another sum.
  pub sum_from_detects :
      (i sum : ℕ) (bytes : List ℕ) (k a : ℕ)
      → sum < modulus
      → k < length bytes
      → counts (i + k) ≡ true
      → get_or bytes k 0 < 256
      → a < 256
      → sum_from add counts i sum (set bytes k a) ≡ sum_from add counts i sum bytes
      → a ≡ get_or bytes k 0
  unfolding sum_from
  sum_from_detects i sum [] k a h kl c hb ha e = absurd (omega arith)
  sum_from_detects i sum (b ∷ bytes) zero a h kl c hb ha e =
      is.byte_inj sum a b h ha hb (rw here at met)
    where
      here : counts i ≡ true
      here = ap counts (omega arith) ∙ c

      met : (if counts i then add sum a else sum) ≡ (if counts i then add sum b else sum)
      met = sum_from_inj (i + 1) _ _ bytes (next_below i sum a h) (next_below i sum b h) e
  sum_from_detects i sum (b ∷ bytes) (suc k) a h kl c hb ha e =
      sum_from_detects (i + 1) _ bytes k a (next_below i sum b h) (omega arith)
        (ap counts (omega arith) ∙ c) hb ha e

-- A byte at a place that is skipped makes no difference.
pub sum_from_skips :
    (add : ℕ → ℕ → ℕ) (counts : ℕ → Bool) (i sum : ℕ) (bytes : List ℕ) (k a : ℕ)
    → counts (i + k) ≡ false
    → sum_from add counts i sum (set bytes k a) ≡ sum_from add counts i sum bytes
unfolding sum_from
sum_from_skips add counts i sum [] k a c = refl
sum_from_skips add counts i sum (b ∷ bytes) zero a c =
    ap (λ t. sum_from add counts (i + 1) t bytes) (rw here)
  where
    here : counts i ≡ false
    here = ap counts (omega arith) ∙ c
sum_from_skips add counts i sum (b ∷ bytes) (suc k) a c =
    sum_from_skips add counts (i + 1) _ bytes k a (ap counts (omega arith) ∙ c)

add_checksum_entries_inj :
    (s t : ℕ) (entries : List (List ℕ))
    → s < 2 ^ 16
    → t < 2 ^ 16
    → add_checksum_entries s entries ≡ add_checksum_entries t entries
    → s ≡ t
unfolding add_checksum_entries exfat_add_checksum add_checksum_bytes
add_checksum_entries_inj s t [] hs ht e = e
add_checksum_entries_inj s t (entry ∷ entries) hs ht e =
    sum_from_inj add_checksum_byte (2 ^ 16) add_checksum_byte-IsSum (λ i. true) 0 s t entry hs ht
      (add_checksum_entries_inj (exfat_add_checksum entry s) (exfat_add_checksum entry t) entries
        (sum_from-lt add_checksum_byte (2 ^ 16) add_checksum_byte-IsSum (λ i. true) 0 s entry hs)
        (sum_from-lt add_checksum_byte (2 ^ 16) add_checksum_byte-IsSum (λ i. true) 0 t entry ht) e)

-- The checksum of a set of entries tells apart any two that differ in one byte of the first
-- entry, other than bytes 2 and 3, where the checksum is kept.
pub exfat_calc_checksum_detects :
    (meta1 : List ℕ) (entries : List (List ℕ)) (k a : ℕ)
    → k < length meta1
    → outside_checksum k ≡ true
    → get_or meta1 k 0 < 256
    → a < 256
    → a ≢ get_or meta1 k 0
    → exfat_calc_checksum (set meta1 k a) entries ≢ exfat_calc_checksum meta1 entries
unfolding exfat_calc_checksum exfat_start_checksum
exfat_calc_checksum_detects meta1 entries k a kl c hb ha ne e = ne (
    sum_from_detects add_checksum_byte (2 ^ 16) add_checksum_byte-IsSum outside_checksum 0 0 meta1 k
      a (omega arith) kl (rw zero-add c) hb ha
      (add_checksum_entries_inj _ _ entries
        (sum_from-lt add_checksum_byte (2 ^ 16) add_checksum_byte-IsSum outside_checksum 0 0 _
          (omega arith))
        (sum_from-lt add_checksum_byte (2 ^ 16) add_checksum_byte-IsSum outside_checksum 0 0 _
          (omega arith))
        e))

add_checksum_entries-lt :
    (entries : List (List ℕ)) (sum : ℕ) → sum < 2 ^ 16 → add_checksum_entries sum entries < 2 ^ 16
unfolding add_checksum_entries exfat_add_checksum add_checksum_bytes
add_checksum_entries-lt [] sum h = h
add_checksum_entries-lt (entry ∷ entries) sum h =
    add_checksum_entries-lt entries (exfat_add_checksum entry sum)
      (sum_from-lt add_checksum_byte (2 ^ 16) add_checksum_byte-IsSum (λ i. true) 0 sum entry h)

pub exfat_calc_checksum-lt :
    (meta1 : List ℕ) (entries : List (List ℕ)) → exfat_calc_checksum meta1 entries < 2 ^ 16
unfolding exfat_calc_checksum exfat_start_checksum
exfat_calc_checksum-lt meta1 entries = add_checksum_entries-lt entries _ (
    sum_from-lt add_checksum_byte (2 ^ 16) add_checksum_byte-IsSum outside_checksum 0 0 meta1
      (omega arith))

-- `meta1->checksum = checksum`, the low byte first.
abbrev pub store_checksum : List ℕ → ℕ → List ℕ
store_checksum meta1 checksum = set (set meta1 2 (checksum % 256)) 3 (checksum / 256)

-- Storing a checksum in the first entry does not change the checksum of the entries.
pub exfat_calc_checksum-store_checksum :
    (meta1 : List ℕ) (entries : List (List ℕ)) (checksum : ℕ)
    → exfat_calc_checksum (store_checksum meta1 checksum) entries
      ≡ exfat_calc_checksum meta1 entries
unfolding exfat_calc_checksum exfat_start_checksum
exfat_calc_checksum-store_checksum meta1 entries checksum =
    ap (λ s. add_checksum_entries s entries)
      (sum_from_skips add_checksum_byte outside_checksum 0 0 (set meta1 2 (checksum % 256)) 3
          (checksum / 256) refl
        ∙ sum_from_skips add_checksum_byte outside_checksum 0 0 meta1 2 (checksum % 256) refl)

-- The checksum of the boot sector tells apart two sectors that differ in one byte, other than
-- those of the volume state and of the allocated percentage.
pub exfat_vbr_start_checksum_detects :
    (sector : List ℕ) (k a : ℕ)
    → k < length sector
    → outside_volatile k ≡ true
    → get_or sector k 0 < 256
    → a < 256
    → a ≢ get_or sector k 0
    → exfat_vbr_start_checksum (set sector k a) ≢ exfat_vbr_start_checksum sector
unfolding exfat_vbr_start_checksum
exfat_vbr_start_checksum_detects sector k a kl c hb ha ne e = ne (
    sum_from_detects add_checksum_byte32 (2 ^ 32) add_checksum_byte32-IsSum outside_volatile 0 0
      sector k a (omega arith) kl (rw zero-add c) hb ha e)
