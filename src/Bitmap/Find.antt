-- ===== src/Bitmap/Find.antt =====
-- `find_bit_and_set` of libexfat/cluster.c, which passes over whole words, finds what a scan of
-- single bits finds.
use nuclear_armageddon.Prelude.{
  ℕ, zero, suc, ◌+◌, ◌-◌, ◌*◌, ◌/◌, ◌^◌, ◌≤◌, ◌<◌, min, max, ◌≡◌, refl, sym, ap, ◌∙◌, inl, inr,
  true, false, Option, none, some, List, ◌==◌, get_or, arith, Bool-cases, Option-cases, ==_iff,
}
use native.Mathlib.Decide.{ℕ_discrete, dec_lt}
use native.Mathlib.Nat.{zero-add, add-zero, suc-add}
use nuclear_armageddon.Bitmap.{
  word_bits, div_round_up, bmap_get, find_clear, find_word, take_bit, find_bit_and_set,
}
use nuclear_armageddon.Bitmap.Laws.{bmap_get_full}

-- `o` is the first clear bit from `c` up to `top`, or there is none.
abbrev pub FirstClear : List ℕ → ℕ → ℕ → Option ℕ → Type 0
FirstClear bitmap c top none = (j : ℕ) → c ≤ j → j < top → bmap_get bitmap j ≡ true
FirstClear bitmap c top (some k) =
    (c ≤ k)
    × (k < top)
    × (bmap_get bitmap k ≡ false)
    × ((j : ℕ) → c ≤ j → j < k → bmap_get bitmap j ≡ true)

abbrev or_else : Option ℕ → Option ℕ → Option ℕ
or_else none o = o
or_else (some k) o = some k

or_else-none : (o : Option ℕ) → or_else o none ≡ o
or_else-none none = refl
or_else-none (some k) = refl

module _ (bitmap : List ℕ) where
  pub find_clear-FirstClear :
      (left c top : ℕ) → c + left ≡ top → FirstClear bitmap c top (find_clear bitmap left c)
  unfolding find_clear
  find_clear-FirstClear zero c top e = λ j h k. absurd (omega arith)
  find_clear-FirstClear (suc left) c top e = elim (Bool-cases (bmap_get bitmap c)) [
    | inr clear ↦ rw clear (omega arith, omega arith, clear, λ j h k. absurd (omega arith))
    | inl set ↦ rw set (
        widen (find_clear bitmap left (c + 1))
          (find_clear-FirstClear left (c + 1) top (omega arith)) set)
  ]
    where
      widen :
          (o : Option ℕ)
          → FirstClear bitmap (c + 1) top o
          → bmap_get bitmap c ≡ true
          → FirstClear bitmap c top o
      widen none h s =
          λ j l k. elim (ℕ_discrete c j) [ yes e ↦ rw (← e) s | no ne ↦ h j (omega arith) k ]
      widen (some k) h s = (
        omega (arith, h.0),
        h.1,
        h.2,
        λ j l m. elim (ℕ_discrete c j) [ yes e ↦ rw (← e) s | no ne ↦ h.3 j (omega arith) m ],
      )

  find_clear-add :
      (a b c : ℕ)
      → find_clear bitmap (a + b) c ≡ or_else (find_clear bitmap a c) (find_clear bitmap b (c + a))
  unfolding find_clear
  find_clear-add zero b c = rw (zero-add, add-zero) refl
  find_clear-add (suc a) b c =
      let shift : c + suc a ≡ c + 1 + a = omega arith in
      rw (suc-add a b, shift)
        (elim (Bool-cases (bmap_get bitmap c)) [
          | inl set ↦ rw set (find_clear-add a b (c + 1))
          | inr clear ↦ rw clear refl
        ])

  -- Bits that are all set are passed over.
  find_clear_full :
      (left c : ℕ)
      → ((j : ℕ) → c ≤ j → j < c + left → bmap_get bitmap j ≡ true)
      → find_clear bitmap left c ≡ none
  unfolding find_clear
  find_clear_full zero c h = refl
  find_clear_full (suc left) c h =
      rw (h c (omega arith) (omega arith))
        (find_clear_full left (c + 1) (λ j l k. h j (omega arith) (omega arith)))

  no_bits : (c : ℕ) → find_clear bitmap 0 c ≡ none
  unfolding find_clear
  no_bits c = refl

  -- The bits from word `i` on that a call looks at.
  abbrev from_word : ℕ → ℕ → ℕ → Option ℕ
  from_word start end i =
      find_clear bitmap (end - max (i * word_bits) start) (max (i * word_bits) start)

  abbrev in_word : ℕ → ℕ → ℕ → Option ℕ
  in_word start end i =
      find_clear bitmap (min ((i + 1) * word_bits) end - max (i * word_bits) start)
        (max (i * word_bits) start)

  -- The bits of one word, and then those of the words after it.
  split_word :
      (start end i : ℕ)
      → start < (i + 1) * word_bits
      → i * word_bits < end
      → from_word start end i ≡ or_else (in_word start end i) (from_word start end (i + 1))
  split_word start end i hs he = elim (dec_lt ((i + 1) * word_bits) end) [
    | yes inside ↦
        let lengths : end - max (i * word_bits) start
            ≡ min ((i + 1) * word_bits) end
              - max (i * word_bits) start
              + (end - max ((i + 1) * word_bits) start) =
          omega arith in
        let place : max (i * word_bits) start
              + (min ((i + 1) * word_bits) end - max (i * word_bits) start)
            ≡ max ((i + 1) * word_bits) start =
          omega arith in
        rw lengths (
          find_clear-add (min ((i + 1) * word_bits) end - max (i * word_bits) start)
            (end - max ((i + 1) * word_bits) start) (max (i * word_bits) start)
          ∙ ap
              (λ c.
                or_else (in_word start end i)
                  (find_clear bitmap (end - max ((i + 1) * word_bits) start) c))
              place)
    | no last ↦
        let lengths : end ≡ min ((i + 1) * word_bits) end = omega arith in
        let nothing : end - max ((i + 1) * word_bits) start ≡ 0 = omega arith in
        ap (λ t. find_clear bitmap (t - max (i * word_bits) start) (max (i * word_bits) start))
          lengths
        ∙ (sym (or_else-none (in_word start end i))
            ∙ ap (or_else (in_word start end i))
                (sym (rw nothing (no_bits (max ((i + 1) * word_bits) start)))))
  ]

  full_word : (start end i : ℕ) → get_or bitmap i 0 ≡ 2 ^ word_bits - 1 → in_word start end i ≡ none
  full_word start end i full =
      find_clear_full _ _ (λ j l k. bmap_get_full bitmap j (rw (word_of j l k) full))
    where
      word_of :
          (j : ℕ)
          → max (i * word_bits) start ≤ j
          → j
            < max (i * word_bits) start
              + (min ((i + 1) * word_bits) end - max (i * word_bits) start)
          → j / word_bits ≡ i
      word_of j l k = omega arith

  find_word-eq :
      (start end left i : ℕ)
      → start < (i + 1) * word_bits
      → left ≡ div_round_up end word_bits - i
      → find_word bitmap start end left i ≡ from_word start end i
  unfolding find_word
  find_word-eq start end zero i hs e =
      let none_left : end - max (i * word_bits) start ≡ 0 = omega arith in
      unfold find_clear in rw none_left
  find_word-eq start end (suc left) i hs e =
      let rest : find_word bitmap start end left (i + 1) ≡ from_word start end (i + 1) =
        find_word-eq start end left (i + 1) (omega arith) (omega arith) in
      sym (
        split_word start end i hs (omega arith)
        ∙ elim (Bool-cases (get_or bitmap i 0 == 2 ^ word_bits - 1)) [
          | inl full ↦ rw (full, full_word start end i ((==_iff _ _).0 full)) (sym rest)
          | inr partial ↦ elim (Option-cases (in_word start end i)) [
            | inl nothing ↦ rw (partial, nothing) (sym rest)
            | inr (c, here) ↦ rw (partial, here) refl
          ]
        ])

  -- `find_bit_and_set` takes the first clear bit between its bounds, just as a scan of the bits
  -- one by one does, though it looks at the bits of no full word.
  pub find_bit_and_set-eq :
      (start end : ℕ)
      → start ≤ end
      → find_bit_and_set bitmap start end ≡ take_bit bitmap (find_clear bitmap (end - start) start)
  unfolding find_bit_and_set
  find_bit_and_set-eq start end h = ap (take_bit bitmap) (
      find_word-eq start end _ (start / word_bits) (omega arith) refl
      ∙ ap (λ s. find_clear bitmap (end - s) s) (omega arith))
