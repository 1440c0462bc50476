-- ===== src/Utf/Char.antt =====
-- One character of libexfat/utf.c at a time, against the standards.
use nuclear_armageddon.Prelude.{
  ℕ, ◌+◌, ◌-◌, ◌*◌, ◌/◌, ◌%◌, ◌^◌, ◌≤◌, ◌<◌, bit_and, bit_or, ◌≡◌, ap, none, some, List, [], ◌∷◌,
  ◌++◌, leb, if◌then◌else◌, length, u8, ◌<<<◌, ◌>>>◌, arith,
}
use native.Mathlib.Decide.{dec_lt}
use nuclear_armageddon.Prelude.Bits.{bit_and-mask, bit_or-fields, bit_and-high}
use nuclear_armageddon.Utf.{wchar_to_utf8, utf16_to_wchar, utf8_to_wchar, wchar_to_utf16, tail_byte}
use nuclear_armageddon.Utf.Scalar.{IsScalar, utf8_char, utf16_char, tail_of}

tail_byte-eq : (c k : ℕ) → tail_byte c k ≡ tail_of (c / 2 ^ k)
tail_byte-eq c k =
    ground (arith, bit_and-mask (c / 2 ^ k) 6, bit_or-fields 2 6 (c / 2 ^ k % 64) (omega arith))

-- The lead byte `mark | (wc >>> k)`.
lead_two : (c : ℕ) → c < 0x800 → u8 (bit_or 0xc0 (c >>> 6)) ≡ 0xc0 + c / 64
lead_two c h = omega (arith, bit_or-fields 3 6 (c / 64))

lead_three : (c : ℕ) → c < 0x10000 → u8 (bit_or 0xe0 (c >>> 12)) ≡ 0xe0 + c / 4096
lead_three c h = omega (arith, bit_or-fields 7 5 (c / 4096))

lead_four : (c : ℕ) → c < 0x200000 → u8 (bit_or 0xf0 (c >>> 18)) ≡ 0xf0 + c / 262144
lead_four c h = omega (arith, bit_or-fields 15 4 (c / 262144))

-- What `wchar_to_utf8` is to return for a character of `n` bytes.
abbrev Fits : ℕ → ℕ → Type 0
Fits c room =
    wchar_to_utf8 c room ≡ (if leb (length (utf8_char c)) room then some (utf8_char c) else none)

one_byte : (c room : ℕ) → c < 0x80 → Fits c room
unfolding wchar_to_utf8
one_byte c room h = ground arith

two_bytes : (c room : ℕ) → 0x80 ≤ c → c < 0x800 → Fits c room
unfolding wchar_to_utf8
two_bytes c room l h = rw (lead_two c h, tail_byte-eq c 0) (ground arith)

three_bytes : (c room : ℕ) → 0x800 ≤ c → c < 0x10000 → Fits c room
unfolding wchar_to_utf8
three_bytes c room l h = rw (lead_three c h, tail_byte-eq c 6, tail_byte-eq c 0) (ground arith)

four_bytes : (c room : ℕ) → 0x10000 ≤ c → c < 0x200000 → Fits c room
unfolding wchar_to_utf8
four_bytes c room l h =
    rw (lead_four c h, tail_byte-eq c 12, tail_byte-eq c 6, tail_byte-eq c 0) (ground arith)

-- The bytes of a character are written when they fit.
pub wchar_to_utf8_lem : (c room : ℕ) → c < 0x200000 → Fits c room
wchar_to_utf8_lem c room h = elim (dec_lt c 0x80) [
  | yes a ↦ one_byte c room a
  | no a ↦ elim (dec_lt c 0x800) [
    | yes b ↦ two_bytes c room (omega arith) b
    | no b ↦ elim (dec_lt c 0x10000) [
      | yes d ↦ three_bytes c room (omega arith) d
      | no d ↦ four_bytes c room (omega arith) h
    ]
  ]
]

tail_bits-eq : (x k : ℕ) → bit_and (tail_of x) 0x3f <<< k ≡ (x % 64) <<< k
tail_bits-eq x k = ap (λ (t : ℕ). t <<< k) low
  where
    low : bit_and (tail_of x) 0x3f ≡ x % 64
    low = omega (arith, bit_and-mask (tail_of x) 6)

-- What `utf8_to_wchar` is to return at the bytes of a character.
abbrev ReadsUtf8 : ℕ → List ℕ → Type 0
ReadsUtf8 c input = utf8_to_wchar (utf8_char c ++ input) ≡ some (c, input)

read_one : (c : ℕ) (input : List ℕ) → c < 0x80 → ReadsUtf8 c input
unfolding utf8_to_wchar
read_one c input h = ground (arith, bit_and-high 7 1 c)

read_two : (c : ℕ) (input : List ℕ) → 0x80 ≤ c → c < 0x800 → ReadsUtf8 c input
unfolding utf8_to_wchar
read_two c input l h = ground (
  arith,
  bit_and-high 7 1 (0xc0 + c / 64),
  bit_and-high 5 3 (0xc0 + c / 64),
  bit_and-mask (0xc0 + c / 64) 5,
  tail_bits-eq c 0,
  bit_or-fields (c / 64) 6 (c % 64) (omega arith),
)

read_three : (c : ℕ) (input : List ℕ) → 0x800 ≤ c → c < 0x10000 → ReadsUtf8 c input
unfolding utf8_to_wchar
read_three c input l h = ground (
  arith,
  bit_and-high 7 1 (0xe0 + c / 4096),
  bit_and-high 5 3 (0xe0 + c / 4096),
  bit_and-high 4 4 (0xe0 + c / 4096),
  bit_and-mask (0xe0 + c / 4096) 4,
  tail_bits-eq c 0,
  tail_bits-eq (c / 64) 6,
  bit_or-fields (c / 4096) 12 (c / 64 % 64 * 64) (omega arith),
  bit_or-fields (c / 64) 6 (c % 64) (omega arith),
)

read_four : (c : ℕ) (input : List ℕ) → 0x10000 ≤ c → c < 0x200000 → ReadsUtf8 c input
unfolding utf8_to_wchar
read_four c input l h = ground (
  arith,
  bit_and-high 7 1 (0xf0 + c / 262144),
  bit_and-high 5 3 (0xf0 + c / 262144),
  bit_and-high 4 4 (0xf0 + c / 262144),
  bit_and-high 3 5 (0xf0 + c / 262144),
  bit_and-mask (0xf0 + c / 262144) 3,
  tail_bits-eq c 0,
  tail_bits-eq (c / 64) 6,
  tail_bits-eq (c / 4096) 12,
  bit_or-fields (c / 262144) 18 (c / 4096 % 64 * 4096) (omega arith),
  bit_or-fields (c / 4096) 12 (c / 64 % 64 * 64) (omega arith),
  bit_or-fields (c / 64) 6 (c % 64) (omega arith),
)

-- Reading a character's bytes gives the character and what follows it.
pub utf8_to_wchar_lem : (c : ℕ) (input : List ℕ) → c < 0x200000 → ReadsUtf8 c input
utf8_to_wchar_lem c input h = elim (dec_lt c 0x80) [
  | yes a ↦ read_one c input a
  | no a ↦ elim (dec_lt c 0x800) [
    | yes b ↦ read_two c input (omega arith) b
    | no b ↦ elim (dec_lt c 0x10000) [
      | yes d ↦ read_three c input (omega arith) d
      | no d ↦ read_four c input (omega arith) h
    ]
  ]
]

-- The units of a character are written when they fit.
pub wchar_to_utf16_lem :
    (c room : ℕ)
    → c < 0x110000
    → wchar_to_utf16 c room
      ≡ (if leb (length (utf16_char c)) room then some (utf16_char c) else none)
unfolding wchar_to_utf16
wchar_to_utf16_lem c room h = ground (
  arith,
  bit_and-mask ((c - 0x10000) / 1024) 10,
  bit_and-mask (c - 0x10000) 10,
  bit_or-fields 54 10 ((c - 0x10000) / 1024),
  bit_or-fields 55 10 ((c - 0x10000) % 1024),
)

low_plane :
    (c : ℕ) (input : List ℕ)
    → IsScalar c
    → c < 0x10000
    → utf16_to_wchar (c ∷ input) ≡ some (c, input)
unfolding utf16_to_wchar
low_plane c [] h l = ground (arith, bit_and-high 10 6 c)
low_plane c (x ∷ input) h l = ground (arith, bit_and-high 10 6 c)

-- A surrogate pair, by the number that it stands for.
pair :
    (w : ℕ) (input : List ℕ)
    → w < 0x100000
    → utf16_to_wchar ((0xd800 + w / 1024) ∷ (0xdc00 + w % 1024) ∷ input) ≡ some (w + 0x10000, input)
unfolding utf16_to_wchar
pair w input h = ground (
  arith,
  bit_and-high 10 6 (0xd800 + w / 1024),
  bit_and-high 10 6 (0xdc00 + w % 1024),
  bit_and-mask (0xd800 + w / 1024) 10,
  bit_and-mask (0xdc00 + w % 1024) 10,
  bit_or-fields (w / 1024) 10 (w % 1024) (omega arith),
)

-- Reading a character's units gives the character and what follows it.
pub utf16_to_wchar_lem :
    (c : ℕ) (input : List ℕ) → IsScalar c → utf16_to_wchar (utf16_char c ++ input) ≡ some (c, input)
utf16_to_wchar_lem c input h = elim (dec_lt c 0x10000) [
  | yes l ↦ ground (arith, low_plane c input h l)
  | no l ↦ ground (arith, pair (c - 0x10000) input (omega arith))
]
