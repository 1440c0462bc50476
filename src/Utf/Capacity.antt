-- ===== src/Utf/Capacity.antt =====
-- EXFAT_UTF8_NAME_BUFFER_MAX of libexfat/exfatfs.h: three bytes for each unit and one for the
-- terminator are enough.
use nuclear_armageddon.Prelude.{
  ℕ, zero, suc, ◌+◌, ◌-◌, ◌*◌, ◌≤◌, ◌<◌, ◌^◌, bit_and, bit_or, ◌≡◌, ◌≢◌, inl, inr, Option, some,
  none, true, List, [], ◌∷◌, ◌++◌, leb, ◌==◌, length, length-append, All, arith, Bool-cases,
  Option-cases, ◌<<<◌,
}
use nuclear_armageddon.Prelude.Bits.{bit_and-mask, bit_or-fields}
use nuclear_armageddon.Result.{err, enametoolong}
use nuclear_armageddon.Utf.{utf16_to_wchar, terminate, to_utf8_loop, utf16_to_utf8}
use nuclear_armageddon.Utf.Scalar.{utf8_char}
use nuclear_armageddon.Utf.Char.{wchar_to_utf8_lem}
use nuclear_armageddon.Utf.Convert.{to_utf8_round}

abbrev pub IsUnit : ℕ → Type 0
IsUnit u = u < 2 ^ 16

-- What a character costs, in bytes written and units read.
record Read (input : List ℕ) (wc : ℕ) (inp : List ℕ) : Type 0 where
  small : wc < 0x110000
  cost : length (utf8_char wc) + 3 * length inp ≤ 3 * length input
  units : All IsUnit inp

pair_small : (a b : ℕ) → bit_or (bit_and a 0x3ff <<< 10) (bit_and b 0x3ff) < 0x100000
pair_small a b = ground (
  arith,
  bit_and-mask a 10,
  bit_and-mask b 10,
  bit_or-fields (bit_and a 0x3ff) 10 (bit_and b 0x3ff) (ground (arith, bit_and-mask b 10)),
)

-- Of a failed read nothing is said.
abbrev ReadFrom : List ℕ → Option (ℕ × List ℕ) → Type 0
ReadFrom input none = Unit
ReadFrom input (some r) = Read input r.0 r.1

utf8_char_three : (c : ℕ) → c < 0x10000 → length (utf8_char c) ≤ 3
utf8_char_three c h = ground arith

utf8_char_four : (c : ℕ) → length (utf8_char c) ≤ 4
utf8_char_four c = ground arith

unit_Read : (a : ℕ) (input : List ℕ) → All IsUnit (a ∷ input) → Read (a ∷ input) a input
unit_Read a input u = record {
  small = omega (arith, u.0);
  cost = omega (arith, utf8_char_three a (omega (arith, u.0)));
  units = u.1;
}

utf16_to_wchar-Read : (input : List ℕ) → All IsUnit input → ReadFrom input (utf16_to_wchar input)
unfolding utf16_to_wchar
utf16_to_wchar-Read [] u = tt
utf16_to_wchar-Read (a ∷ []) u = elim (Bool-cases (bit_and a 0xfc00 == 0xd800)) [
  | inl high ↦ rw high tt
  | inr plain ↦ rw plain (unit_Read a [] u)
]
utf16_to_wchar-Read (a ∷ b ∷ input) u = elim (Bool-cases (bit_and a 0xfc00 == 0xd800)) [
  | inl high ↦ elim (Bool-cases (bit_and b 0xfc00 == 0xdc00)) [
    | inl low ↦
        rw (high, low)
          (record {
            small = omega (arith, pair_small a b);
            cost = omega (
              arith,
              utf8_char_four (bit_or (bit_and a 0x3ff <<< 10) (bit_and b 0x3ff) + 0x10000),
            );
            units = u.1.1;
          })
    | inr lone ↦ rw (high, lone) tt
  ]
  | inr plain ↦ rw plain (unit_Read a (b ∷ input) u)
]

to_utf8_loop_roomy :
    (fuel outsize : ℕ) (input out : List ℕ)
    → All IsUnit input
    → length out + 3 * length input < outsize
    → to_utf8_loop fuel outsize input out ≢ err enametoolong
to_utf8_loop_roomy zero outsize input out u h = unfold to_utf8_loop in cc
to_utf8_loop_roomy (suc fuel) outsize [] out u h = unfold to_utf8_loop terminate in ground arith
to_utf8_loop_roomy (suc fuel) outsize (unit ∷ input) out u h =
    elim (Option-cases (utf16_to_wchar (unit ∷ input))) [
      | inl bad ↦ unfold to_utf8_loop in rw bad cc
      | inr ((wc, inp), good) ↦
          let read : Read (unit ∷ input) wc inp =
            rw good at (utf16_to_wchar-Read (unit ∷ input) u) in
          let fits : leb (length (utf8_char wc)) (outsize - length out) ≡ true =
            ground (arith, read.cost, h) in
          rw
            (
              to_utf8_round fuel outsize (unit ∷ input) out wc inp good,
              wchar_to_utf8_lem wc (outsize - length out) (omega (arith, read.small)),
              fits,
            )
            (elim (Bool-cases (wc == 0)) [
              | inl z ↦ rw z cc
              | inr nz ↦ rw nz (
                  to_utf8_loop_roomy fuel outsize inp (out ++ utf8_char wc) read.units
                    (omega (arith, h, read.cost, length-append out (utf8_char wc))))
            ])
    ]

-- A buffer of more than three bytes for each unit of the name is never too small:
-- `utf16_to_utf8` does not return -ENAMETOOLONG.
pub utf16_to_utf8_roomy :
    (input : List ℕ) (outsize : ℕ)
    → All IsUnit input
    → 3 * length input < outsize
    → utf16_to_utf8 input outsize ≢ err enametoolong
unfolding utf16_to_utf8
utf16_to_utf8_roomy input outsize u h = to_utf8_loop_roomy _ outsize input [] u (omega (arith, h))
