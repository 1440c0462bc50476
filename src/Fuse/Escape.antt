-- ===== src/Fuse/Escape.antt =====
-- The strings of options in fuse/main.c, without their terminators. `given` tells whether `malloc`
-- and `realloc` give memory.
use nuclear_armageddon.Prelude.{
  ℕ, Bool, ◌||◌, Option, none, some, List, [], ◌∷◌, ◌++◌, ◌==◌, if◌then◌else◌,
}

unfoldable pub escape : List ℕ → List ℕ
escape [] = []
escape (c ∷ orig) =
    let rest = escape orig in if (c == 0x2c) || (c == 0x5c) then 0x5c ∷ c ∷ rest else c ∷ rest

abbrev pub equals : Option (List ℕ) → List ℕ
equals none = []
equals (some value) = 0x3d ∷ value

unfoldable pub add_option : Bool → List ℕ → List ℕ → Option (List ℕ) → Option (List ℕ)
add_option given options name value =
    if given then some (options ++ (0x2c ∷ (name ++ equals value))) else none

-- The option fsname.
unfoldable pub add_fsname_option : Bool → Bool → List ℕ → List ℕ → Option (List ℕ)
add_fsname_option given given_more options spec =
    if given
    then add_option given_more options (102 ∷ 115 ∷ 110 ∷ 97 ∷ 109 ∷ 101 ∷ []) (some (escape spec))
    else none

unfoldable pub add_ro_option : Bool → List ℕ → Bool → Option (List ℕ)
add_ro_option given options ro =
    if ro then add_option given options (114 ∷ 111 ∷ []) none else some options
