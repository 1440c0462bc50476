-- ===== src/Lookup/Tests.antt =====
-- Names that differ in case.
use nuclear_armageddon.Prelude.{
  ℕ, ◌-◌, ◌≡◌, refl, some, ◌&&◌, List, [], ◌∷◌, map, leb, if◌then◌else◌, arith,
}
use nuclear_armageddon.Prelude.Int.{pos, ◌-ℤ◌}
use nuclear_armageddon.Checksum.{exfat_calc_name_hash}
use nuclear_armageddon.Lookup.{compare_char, compare_name, get_comp, skip_slashes, comp_length}
use nuclear_armageddon.Lookup.Compare.{IsUpcase, text, exfat_calc_name_hash-compare_name}

abbrev ascii_upcase : ℕ → ℕ
ascii_upcase c = if leb 0x61 c && leb c 0x7a then c - 0x20 else c

ascii_upcase-IsUpcase : IsUpcase ascii_upcase
ascii_upcase-IsUpcase = record { kept = refl; only = λ c e. ground (arith, e) }

abbrev lower : List ℕ
lower = 0x61 ∷ 0x62 ∷ 0 ∷ []

abbrev upper : List ℕ
upper = 0x41 ∷ 0x42 ∷ 0 ∷ 0x43 ∷ []

same : compare_name ascii_upcase lower upper ≡ some (pos 0)
unfolding compare_name compare_char ◌-ℤ◌
same = refl

get_comp-slashes : get_comp (0x2f ∷ 0x2f ∷ 0x61 ∷ 0x2f ∷ []) ≡ (1, 0x61 ∷ 0x2f ∷ [])
unfolding get_comp skip_slashes comp_length
get_comp-slashes = refl

exfat_calc_name_hash-compare_name_example :
    (map ascii_upcase (text lower) ≡ map ascii_upcase (text upper))
    × (exfat_calc_name_hash ascii_upcase (text lower)
        ≡ exfat_calc_name_hash ascii_upcase (text upper))
exfat_calc_name_hash-compare_name_example =
    exfat_calc_name_hash-compare_name ascii_upcase ascii_upcase-IsUpcase lower upper same
