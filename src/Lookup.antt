-- ===== src/Lookup.antt =====
-- libexfat/lookup.c: comparison of names and the parts of a path. A string is the list of its
-- bytes or units without the terminator where only a path is read, and with it where two names
-- are compared; `char` is its 8 bits.
mod Tests
pub mod Compare
use nuclear_armageddon.Prelude.{
  ℕ, zero, suc, Bool, true, false, not, ◌&&◌, ◌||◌, Option, none, some, List, [], ◌∷◌, leb, ◌==◌,
  if◌then◌else◌, drop, take, length,
}
use nuclear_armageddon.Prelude.Int.{ℤ, pos, negsuc, ◌-ℤ◌}

-- The table of upper case letters is a function.
unfoldable pub compare_char : (ℕ → ℕ) → ℕ → ℕ → ℤ
compare_char upcase a b = pos (upcase a) -ℤ pos (upcase b)

abbrev pub nonzero : ℤ → Bool
nonzero (pos n) = not (n == 0)
nonzero (negsuc n) = true

-- `none` where an array ends before a terminator, and C reads past it.
unfoldable pub compare_name : (ℕ → ℕ) → List ℕ → List ℕ → Option ℤ
compare_name upcase [] b = none
compare_name upcase (x ∷ a) [] = none
compare_name upcase (x ∷ a) (y ∷ b) =
    let rest = compare_name upcase a b in
    let rc = compare_char upcase x y in
    if not (x == 0) && not (y == 0) then (if nonzero rc then some rc else rest) else some rc

-- `path + strspn(path, "/")`
pub skip_slashes : List ℕ → List ℕ
skip_slashes [] = []
skip_slashes (c ∷ path) = let rest = skip_slashes path in if c == 0x2f then rest else c ∷ path

-- The length up to the next slash or the end.
pub comp_length : List ℕ → ℕ
comp_length [] = 0
comp_length (c ∷ path) = let rest = comp_length path in if c == 0x2f then 0 else suc rest

-- The length, and where the component starts.
pub get_comp : List ℕ → ℕ × List ℕ
get_comp path = (comp_length (skip_slashes path), skip_slashes path)

pub is_last_comp : List ℕ → ℕ → Bool
is_last_comp comp length = (get_comp (drop length comp)).0 == 0

abbrev pub forbidden : ℕ → Bool
forbidden c =
    (leb 0x01 c && leb c 0x1f)
    || (c == 0x2f)
    || (c == 0x5c)
    || (c == 0x3a)
    || (c == 0x2a)
    || (c == 0x3f)
    || (c == 0x22)
    || (c == 0x3c)
    || (c == 0x3e)
    || (c == 0x7c)

-- The loop over the bytes of the component.
pub all_allowed : List ℕ → Bool
all_allowed [] = true
all_allowed (c ∷ comp) = let rest = all_allowed comp in if forbidden c then false else rest

pub is_allowed : List ℕ → ℕ → Bool
is_allowed comp length = all_allowed (take length comp)
