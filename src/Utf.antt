-- ===== src/Utf.antt =====
-- libexfat/utf.c: conversion between UTF-16 names on disk and UTF-8 names of the system.
-- A buffer is the list of its bytes or 16-bit units; an input list holds the `insize` units that
-- may be read, and an output list what has been written. `char` is its 8 bits, `le16_t` its value.
-- `wchar_t` has 32 bits; no value that the decoders make has the sign bit set.
mod Tests
pub mod Scalar
pub mod Char
pub mod Convert
pub mod Buffer
pub mod Capacity
use nuclear_armageddon.Prelude.{
  ℕ, zero, suc, ◌+◌, ◌-◌, bit_and, bit_or, ◌&&◌, not, Option, none, some, List, [], ◌∷◌, ◌++◌, ltb,
  leb, ◌==◌, if◌then◌else◌, length, drop, get_or, u8, u16, ◌<<<◌, ◌>>>◌,
}
use nuclear_armageddon.Result.{Result, ok, err, out_of_fuel, eilseq, enametoolong, ◌>>=◌, or_err}

-- `0x80 | ((wc >>> k) & 0x3f)`
abbrev tail_byte : ℕ → ℕ → ℕ
tail_byte wc k = u8 (bit_or 0x80 (bit_and (wc >>> k) 0x3f))

-- The bytes that are written at `output`; `none` is the null pointer.
pub wchar_to_utf8 : ℕ → ℕ → Option (List ℕ)
wchar_to_utf8 wc outsize =
    if leb wc 0x7f
    then (if ltb outsize 1 then none else some (u8 wc ∷ []))
    else if leb wc 0x7ff
    then (if ltb outsize 2 then none else some (u8 (bit_or 0xc0 (wc >>> 6)) ∷ tail_byte wc 0 ∷ []))
    else if leb wc 0xffff
    then (if ltb outsize 3
        then none
        else some (u8 (bit_or 0xe0 (wc >>> 12)) ∷ tail_byte wc 6 ∷ tail_byte wc 0 ∷ []))
    else if leb wc 0x1fffff
    then (if ltb outsize 4
        then none
        else some
            (u8 (bit_or 0xf0 (wc >>> 18)) ∷ tail_byte wc 12 ∷ tail_byte wc 6 ∷ tail_byte wc 0 ∷ []))
    else if leb wc 0x3ffffff
    then (if ltb outsize 5
        then none
        else some (
            u8 (bit_or 0xf8 (wc >>> 24))
            ∷ tail_byte wc 18
            ∷ tail_byte wc 12
            ∷ tail_byte wc 6
            ∷ tail_byte wc 0
            ∷ []))
    else if leb wc 0x7fffffff
    then (if ltb outsize 6
        then none
        else some (
            u8 (bit_or 0xfc (wc >>> 30))
            ∷ tail_byte wc 24
            ∷ tail_byte wc 18
            ∷ tail_byte wc 12
            ∷ tail_byte wc 6
            ∷ tail_byte wc 0
            ∷ []))
    else none

-- The character and the input after it. The loop below calls it on at least one unit.
pub utf16_to_wchar : List ℕ → Option (ℕ × List ℕ)
utf16_to_wchar [] = none
utf16_to_wchar (a ∷ []) = if bit_and a 0xfc00 == 0xd800 then none else some (a, [])
utf16_to_wchar (a ∷ b ∷ input) =
    if bit_and a 0xfc00 == 0xd800
    then (if not (bit_and b 0xfc00 == 0xdc00)
        then none
        else some (bit_or (bit_and a 0x3ff <<< 10) (bit_and b 0x3ff) + 0x10000, input))
    else some (a, b ∷ input)

-- `*outp = '\0'` and the check before it; `out` is what stands from `output` to `outp`.
unfoldable pub terminate : ℕ → List ℕ → Result (List ℕ)
terminate outsize out = if leb outsize (length out) then err enametoolong else ok (out ++ (0 ∷ []))

-- The loop of `utf16_to_utf8`. It returns the buffer up to and including the terminator.
pub to_utf8_loop : ℕ → ℕ → List ℕ → List ℕ → Result (List ℕ)
unfolding terminate
to_utf8_loop zero outsize input out = out_of_fuel
to_utf8_loop (suc fuel) outsize [] out = terminate outsize out
to_utf8_loop (suc fuel) outsize (unit ∷ input) out = do
  (wc, inp) ← or_err (utf16_to_wchar (unit ∷ input)) eilseq
  bytes ← or_err (wchar_to_utf8 wc (outsize - length out)) enametoolong
  let rest = to_utf8_loop fuel outsize inp (out ++ bytes)
  if wc == 0 then ok (out ++ bytes) else rest

pub utf16_to_utf8 : List ℕ → ℕ → Result (List ℕ)
utf16_to_utf8 input outsize = to_utf8_loop (suc (length input)) outsize input []

-- `((wchar_t) byte & 0x3f) <<< k`
abbrev tail_bits : ℕ → ℕ → ℕ
tail_bits byte k = bit_and byte 0x3f <<< k

abbrev byte_at : List ℕ → ℕ → ℕ
byte_at input i = get_or input i 0

-- The character and the input after it, by the length that the first byte announces.
-- The tests on `insize` come after `input[0]` is read, and the loop calls with one byte at least.
unfoldable pub utf8_to_wchar : List ℕ → Option (ℕ × List ℕ)
utf8_to_wchar [] = none
utf8_to_wchar (a ∷ rest) =
    if (bit_and a 0x80 == 0) && leb 1 insize
    then some (a, rest)
    else if (bit_and a 0xe0 == 0xc0) && leb 2 insize
    then some (bit_or (bit_and a 0x1f <<< 6) (tail_bits (byte_at rest 0) 0), drop 1 rest)
    else if (bit_and a 0xf0 == 0xe0) && leb 3 insize
    then some (
      bit_or (bit_or (bit_and a 0x0f <<< 12) (tail_bits (byte_at rest 0) 6))
          (tail_bits (byte_at rest 1) 0),
      drop 2 rest,
    )
    else if (bit_and a 0xf8 == 0xf0) && leb 4 insize
    then some (
      bit_or
          (bit_or (bit_or (bit_and a 0x07 <<< 18) (tail_bits (byte_at rest 0) 12))
            (tail_bits (byte_at rest 1) 6))
          (tail_bits (byte_at rest 2) 0),
      drop 3 rest,
    )
    else if (bit_and a 0xfc == 0xf8) && leb 5 insize
    then some (
      bit_or
          (bit_or
            (bit_or (bit_or (bit_and a 0x03 <<< 24) (tail_bits (byte_at rest 0) 18))
              (tail_bits (byte_at rest 1) 12))
            (tail_bits (byte_at rest 2) 6))
          (tail_bits (byte_at rest 3) 0),
      drop 4 rest,
    )
    else if (bit_and a 0xfe == 0xfc) && leb 6 insize
    then some (
      bit_or
          (bit_or
            (bit_or
              (bit_or (bit_or (bit_and a 0x01 <<< 30) (tail_bits (byte_at rest 0) 24))
                (tail_bits (byte_at rest 1) 18))
              (tail_bits (byte_at rest 2) 12))
            (tail_bits (byte_at rest 3) 6))
          (tail_bits (byte_at rest 4) 0),
      drop 5 rest,
    )
    else none
  where
    insize : ℕ
    insize = suc (length rest)

-- The units that are written at `output`; `none` is the null pointer.
unfoldable pub wchar_to_utf16 : ℕ → ℕ → Option (List ℕ)
wchar_to_utf16 wc outsize =
    if leb wc 0xffff
    then (if outsize == 0 then none else some (u16 wc ∷ []))
    else if ltb outsize 2
    then none
    else let w = wc - 0x10000 in
      some (
        u16 (bit_or 0xd800 (bit_and (w >>> 10) 0x3ff)) ∷ u16 (bit_or 0xdc00 (bit_and w 0x3ff)) ∷ [])

-- The loop of `utf8_to_utf16`. A zero character ends it by `break`, past which comes the check.
unfoldable pub to_utf16_loop : ℕ → ℕ → List ℕ → List ℕ → Result (List ℕ)
unfolding terminate
to_utf16_loop zero outsize input out = out_of_fuel
to_utf16_loop (suc fuel) outsize [] out = terminate outsize out
to_utf16_loop (suc fuel) outsize (byte ∷ input) out = do
  (wc, inp) ← or_err (utf8_to_wchar (byte ∷ input)) eilseq
  units ← or_err (wchar_to_utf16 wc (outsize - length out)) enametoolong
  let rest = to_utf16_loop fuel outsize inp (out ++ units)
  if wc == 0 then terminate outsize (out ++ units) else rest

unfoldable pub utf8_to_utf16 : List ℕ → ℕ → Result (List ℕ)
utf8_to_utf16 input outsize = to_utf16_loop (suc (length input)) outsize input []

-- The index of the first zero; `none` where the array ends before one, and C reads past it.
pub utf16_length_from : ℕ → List ℕ → Option ℕ
utf16_length_from i [] = none
utf16_length_from i (unit ∷ str) = if unit == 0 then some i else utf16_length_from (i + 1) str

unfoldable pub utf16_length : List ℕ → Option ℕ
unfolding utf16_length_from
utf16_length str = utf16_length_from 0 str
