-- ===== src/Checksum/Hash.antt =====
-- `exfat_calc_name_hash` of libexfat/utils.c depends on the name in upper case only.
use nuclear_armageddon.Prelude.{ℕ, ◌≡◌, refl, List, [], ◌∷◌, map}
use nuclear_armageddon.Checksum.{hash_from, exfat_calc_name_hash}

hash_from-map :
    (upcase : ℕ → ℕ) (name : List ℕ) (hash : ℕ)
    → hash_from upcase hash name ≡ hash_from (λ c. c) hash (map upcase name)
unfolding hash_from
hash_from-map upcase [] hash = refl
hash_from-map upcase (unit ∷ name) hash = hash_from-map upcase name _

pub exfat_calc_name_hash-map :
    (upcase : ℕ → ℕ) (name : List ℕ)
    → exfat_calc_name_hash upcase name ≡ exfat_calc_name_hash (λ c. c) (map upcase name)
unfolding exfat_calc_name_hash
exfat_calc_name_hash-map upcase name = hash_from-map upcase name 0
