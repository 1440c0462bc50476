-- ===== src/Lookup/Compare.antt =====
-- `compare_name` of libexfat/lookup.c as a comparison of texts in upper case, and the hash of
-- libexfat/utils.c with it.
use nuclear_armageddon.Prelude.{
  ℕ, zero, suc, ◌≡◌, ◌≢◌, refl, sym, ap, ◌∙◌, ◌⊎◌, inl, inr, true, false, some, List, [], ◌∷◌, map,
  ◌==◌, if◌then◌else◌, arith, Bool-cases,
}
use nuclear_armageddon.Prelude.Int.{ℤ, pos, negsuc, ◌-ℤ◌}
use nuclear_armageddon.Checksum.{exfat_calc_name_hash}
use nuclear_armageddon.Checksum.Hash.{exfat_calc_name_hash-map}
use nuclear_armageddon.Lookup.{compare_char, compare_name, nonzero}

-- The units before the terminator.
abbrev pub text : List ℕ → List ℕ
text [] = []
text (u ∷ units) = if u == 0 then [] else u ∷ text units

-- The table has a value of its own for the terminator.
pub record IsUpcase (upcase : ℕ → ℕ) : Type 0 where
  pub kept : upcase 0 ≡ 0
  pub only : (c : ℕ) → upcase c ≡ 0 → c ≡ 0

same_char :
    (upcase : ℕ → ℕ) (x y : ℕ) → nonzero (compare_char upcase x y) ≡ false → upcase x ≡ upcase y
unfolding compare_char ◌-ℤ◌
same_char upcase x y e = ground (arith, e)

zero_rc : (rc : ℤ) → some rc ≡ some (pos 0) → nonzero rc ≡ false
zero_rc (pos zero) e = refl
zero_rc (pos (suc n)) e = cc
zero_rc (negsuc n) e = cc

not_zero_rc : (rc : ℤ) → nonzero rc ≡ true → some rc ≢ some (pos 0)
not_zero_rc rc n e = cc (zero_rc rc e, n)

is_zero : (x : ℕ) → (x == 0) ≡ true → x ≡ 0
is_zero x e = ground arith

module _ (upcase : ℕ → ℕ) (up : IsUpcase upcase) where
  both_end : (x y : ℕ) → upcase x ≡ upcase y → (x ≡ 0) ⊎ (y ≡ 0) → (x ≡ 0) × (y ≡ 0)
  both_end x y e (inl zx) = (zx, up.only y (sym e ∙ (ap upcase zx ∙ up.kept)))
  both_end x y e (inr zy) = (up.only x (e ∙ (ap upcase zy ∙ up.kept)), zy)

  text_end :
      (x y : ℕ) (a b : List ℕ)
      → (x ≡ 0) × (y ≡ 0)
      → map upcase (text (x ∷ a)) ≡ map upcase (text (y ∷ b))
  text_end x y a b (zx, zy) = rw (zx, zy) refl

  compare_name_same :
      (a b : List ℕ)
      → compare_name upcase a b ≡ some (pos 0)
      → map upcase (text a) ≡ map upcase (text b)
  unfolding compare_name
  compare_name_same [] b e = cc
  compare_name_same (x ∷ a) [] e = cc
  compare_name_same (x ∷ a) (y ∷ b) e = elim (Bool-cases (x == 0)) [
    | inl zx ↦
        text_end x y a b
          (both_end x y (same_char upcase x y (zero_rc _ (rw zx at e))) (inl (is_zero x zx)))
    | inr nx ↦ elim (Bool-cases (y == 0)) [
      | inl zy ↦
          text_end x y a b (
            both_end x y (same_char upcase x y (zero_rc _ (rw (nx, zy) at e))) (inr (is_zero y zy)))
      | inr ny ↦ elim (Bool-cases (nonzero (compare_char upcase x y))) [
        | inl differ ↦ absurd (not_zero_rc _ differ (rw (nx, ny, differ) at e))
        | inr same ↦
            rw (nx, ny, same_char upcase x y same, compare_name_same a b (rw (nx, ny, same) at e))
              refl
      ]
    ]
  ]

-- Two names that `compare_name` finds equal are the same in upper case, and have the same
-- `exfat_calc_name_hash`, for a table that gives zero for the terminator and for nothing else.
pub exfat_calc_name_hash-compare_name :
    (upcase : ℕ → ℕ)
    → IsUpcase upcase
    → (a b : List ℕ) → compare_name upcase a b ≡ some (pos 0)
    → (map upcase (text a) ≡ map upcase (text b))
      × (exfat_calc_name_hash upcase (text a) ≡ exfat_calc_name_hash upcase (text b))
exfat_calc_name_hash-compare_name upcase up a b e = (
  compare_name_same upcase up a b e,
  exfat_calc_name_hash-map upcase (text a)
      ∙ (ap (exfat_calc_name_hash (λ c. c)) (compare_name_same upcase up a b e)
          ∙ sym (exfat_calc_name_hash-map upcase (text b))),
)
