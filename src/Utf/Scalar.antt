-- ===== src/Utf/Scalar.antt =====
-- The two encodings as the standards define them, by arithmetic on scalar values: what
-- libexfat/utf.c is to compute.
use nuclear_armageddon.Prelude.{
  ℕ, ◌+◌, ◌-◌, ◌/◌, ◌%◌, ◌≤◌, ◌<◌, ◌⊎◌, List, [], ◌∷◌, ◌++◌, ltb, if◌then◌else◌,
}

-- A code point other than zero and the surrogates.
abbrev pub IsScalar : ℕ → Type 0
IsScalar c = (1 ≤ c) × (c ≤ 0x10ffff) × ((c < 0xd800) ⊎ (0xdfff < c))

abbrev pub tail_of : ℕ → ℕ
tail_of x = 0x80 + x % 64

-- RFC 3629.
abbrev pub utf8_char : ℕ → List ℕ
utf8_char c =
    if ltb c 0x80
    then c ∷ []
    else if ltb c 0x800
    then (0xc0 + c / 64) ∷ tail_of c ∷ []
    else if ltb c 0x10000
    then (0xe0 + c / 4096) ∷ tail_of (c / 64) ∷ tail_of c ∷ []
    else (0xf0 + c / 262144) ∷ tail_of (c / 4096) ∷ tail_of (c / 64) ∷ tail_of c ∷ []

-- RFC 2781.
abbrev pub utf16_char : ℕ → List ℕ
utf16_char c =
    if ltb c 0x10000
    then c ∷ []
    else (0xd800 + (c - 0x10000) / 1024) ∷ (0xdc00 + (c - 0x10000) % 1024) ∷ []

abbrev pub utf8 : List ℕ → List ℕ
utf8 [] = []
utf8 (c ∷ cs) = utf8_char c ++ utf8 cs

abbrev pub utf16 : List ℕ → List ℕ
utf16 [] = []
utf16 (c ∷ cs) = utf16_char c ++ utf16 cs
